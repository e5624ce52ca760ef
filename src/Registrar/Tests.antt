-- ===== src/Registrar/Tests.antt =====
-- Runs of the mock registrar, and its property at a new file.
use decentralized_dns.Prelude.{
  ◌+◌, ◌*◌, ◌≡◌, refl, true, false, Option, some, List, [], pos, ◌+ℤ◌, ◌-ℤ◌, Text, codes, text_eq,
  trim, to_lower_case, ok, if◌then◌else◌,
}
use decentralized_dns.Prelude.Doubles.{finite}
use decentralized_dns.Prelude.Maps.{lookup, assign}
use decentralized_dns.Continuity.{normalize_domain}
use decentralized_dns.Registrar.{
  RegistrarDomainRecord, RegistrarPayment, RenewalResult, File, missing, stored, days_after,
  default_store, ensure_store, existing_record, get_domain, is_unknown, renewed, refusal,
  finish_renewal, renew_for, renew_domain, non_empty, set_name_servers,
}
use decentralized_dns.Registrar.Renewal.{active_until, get_domain-renew_domain}

runs : Unit {0}
unfolding text_eq trim to_lower_case normalize_domain lookup assign ◌+ℤ◌ ◌-ℤ◌ default_store
    ensure_store existing_record get_domain finish_renewal renew_for renew_domain non_empty
    set_name_servers
runs = tt

abbrev payment : Option RegistrarPayment
payment = some (record { credits_amount = some (finite (pos 50)) })

abbrev low_traffic : Text
low_traffic = codes "low-traffic.com"

abbrev submitted : RenewalResult
submitted = record { submitted = true; provider_ref = codes "mock-renew-1"; errors = [] }

abbrev low_renewed : RegistrarDomainRecord
low_renewed =
    renewed (existing_record low_traffic (default_store (pos 1))) (days_after 365 (pos 1))
      (days_after 395 (pos 1)) payment

abbrev after : File
after = stored (assign low_traffic low_renewed (default_store (pos 1)))

renews :
    renew_domain low_traffic (finite (pos 1)) payment (codes "mock-renew-1") (pos 1) missing
    ≡ ok (submitted, after)
unfolding runs
renews = refl

-- Fifty credits are paid from a balance of twenty.
overpaid : low_renewed.credits_balance ≡ some (finite (pos 0))
unfolding runs
overpaid = refl

unknown_domain :
    renew_domain (codes "x.com") (finite (pos 1)) payment (codes "mock-renew-1") (pos 1) missing
    ≡ ok (
      refusal (codes "mock-renew-unsupported") (codes "domain_unknown"),
      stored (default_store (pos 1)),
    )
unfolding runs
unknown_domain = refl

get_domain-renew_domain_example :
    (domains : List (Text × RegistrarDomainRecord)) × (before : File) × (ensure_store
        (pos 1)
        missing
      ≡ ok (domains, before))
    × (is_unknown (existing_record (normalize_domain low_traffic) domains).status ≡ false)
    × (get_domain low_traffic (pos 2) after
        ≡ ok (
          if text_eq (normalize_domain low_traffic) (normalize_domain low_traffic)
              then active_until
                  (existing_record (normalize_domain low_traffic) domains)
                  (days_after (1 * 365) (pos 1))
                  (days_after (1 * 365 + 30) (pos 1))
                  payment
              else existing_record (normalize_domain low_traffic) domains,
          after,
        ))
get_domain-renew_domain_example =
    get_domain-renew_domain low_traffic low_traffic 1 payment (codes "mock-renew-1") (pos 1) (pos 2)
      missing after submitted renews refl
