-- ===== src/Registrar.antt =====
-- core/src/registrar/mock_registrar.ts, with the types of core/src/registrar/adapter.ts: the registrar that
-- keeps its domains in a JSON file. A time stands for the text that `toISOString` makes of it, years
-- are whole numbers, and `normalize_domain` is the function of the same text in the continuity policy.
-- A key that names an inherited property of an object ("constructor") is outside the model.
pub mod Renewal
mod Tests
use decentralized_dns.Prelude.{
  ℕ, ◌+◌, ◌-◌, ◌*◌, ◌≡◌, Bool, true, false, ◌&&◌, ◌||◌, not, Option, none, some, List, [], ◌∷◌, map,
  length, ltb, leb, ◌==◌, ℤ, pos, negsuc, ◌+ℤ◌, leb_ℤ, Text, codes, trim, to_lower_case, Result, ok,
  err, ◌>>=◌, ◌>>◌, require, if◌then◌else◌,
}
use decentralized_dns.Prelude.Doubles.{Double, finite, nan, is_finite, truthy, less, minus, given}
use decentralized_dns.Prelude.Maps.{lookup, assign}
use decentralized_dns.Continuity.{
  TrafficSignal, no_traffic, low, real, normalize_domain, day_ms, or_zero,
}

pub data RegistrarDomainStatus : Type 0 where
  active expiring expired redemption pending_transfer unknown : RegistrarDomainStatus

pub record RegistrarDomainRecord : Type 0 where
  pub domain : Text
  pub status : RegistrarDomainStatus
  pub renewal_due_date : Option ℤ
  pub grace_expires_at : Option ℤ
  pub ns : List Text
  pub traffic_signal : Option TrafficSignal
  pub credits_balance : Option Double

pub record RenewalQuote : Type 0 where
  pub price_usd : ℕ
  pub price_sol_ten_thousandths : ℕ
  pub supported : Bool
  pub expires_at : ℤ

pub record RenewalResult : Type 0 where
  pub submitted : Bool
  pub provider_ref : Text
  pub errors : List Text

pub record DnsUpdateResult : Type 0 where
  pub is_ok : Bool
  pub provider_ref : Text
  pub errors : List Text

-- `payment?.credits_amount`, the only part of a payment that is read.
pub record RegistrarPayment : Type 0 where
  pub credits_amount : Option Double

-- What is at the path of the file: nothing, no JSON, JSON without a `domains` object, or a store.
pub data File : Type 0 where
  missing unreadable without_domains : File
  stored : (domains : List (Text × RegistrarDomainRecord)) → File

abbrev pub seeded : Text → RegistrarDomainStatus → ℤ → ℤ → TrafficSignal → ℕ → RegistrarDomainRecord
seeded domain status due grace signal credits = record {
  domain = domain;
  status = status;
  renewal_due_date = some due;
  grace_expires_at = some grace;
  ns = codes "ns1.tolldns.io" ∷ codes "ns2.tolldns.io" ∷ [];
  traffic_signal = some signal;
  credits_balance = some (finite (pos credits));
}

-- So many days after a time.
abbrev pub days_after : ℕ → ℤ → ℤ
days_after days now = now +ℤ pos (days * day_ms)

unfoldable pub default_store : ℤ → List (Text × RegistrarDomainRecord)
default_store now =
    (
      codes "good-traffic.com",
      seeded (codes "good-traffic.com") expiring (days_after 7 now) (days_after 37 now) real 180,
    )
    ∷ (
      codes "low-traffic.com",
      seeded (codes "low-traffic.com") expired (now +ℤ negsuc (3 * day_ms - 1)) (days_after 14 now)
          low 20,
    )
    ∷ (
      codes "active.com",
      seeded (codes "active.com") active (days_after 180 now) (days_after 210 now) real 75,
    )
    ∷ []

-- The domains that `ensureStore` returns, and the file after it; a text that is no JSON throws.
unfoldable pub ensure_store : ℤ → File → Result (List (Text × RegistrarDomainRecord) × File)
ensure_store now missing = ok (default_store now, stored (default_store now))
ensure_store now unreadable = err "SyntaxError"
ensure_store now without_domains = ok (default_store now, without_domains)
ensure_store now (stored domains) = ok (domains, stored domains)

abbrev pub unknown_record : Text → RegistrarDomainRecord
unknown_record key = record {
  domain = key;
  status = unknown;
  renewal_due_date = none;
  grace_expires_at = none;
  ns = [];
  traffic_signal = some no_traffic;
  credits_balance = some (finite (pos 0));
}

-- `store.domains[key]`, or the record of an unknown domain
unfoldable pub existing_record : Text → List (Text × RegistrarDomainRecord) → RegistrarDomainRecord
existing_record key domains = given (lookup key domains) (unknown_record key)

unfoldable pub get_domain : Text → ℤ → File → Result (RegistrarDomainRecord × File)
get_domain domain now file = do
  loaded ← ensure_store now file
  ok (existing_record (normalize_domain domain) loaded.0, loaded.1)

abbrev pub is_expired : RegistrarDomainStatus → Bool
is_expired expired = true
is_expired _ = false

abbrev pub is_unknown : RegistrarDomainStatus → Bool
is_unknown unknown = true
is_unknown _ = false

-- The price in SOL is the price in USD over 100, to four places.
unfoldable pub get_renewal_quote : Text → ℤ → File → Result (RenewalQuote × File)
get_renewal_quote domain now file = do
  answer ← get_domain domain now file
  let base_usd = if is_expired answer.0.status then 14 else 11
  ok (
    record {
      price_usd = base_usd;
      price_sol_ten_thousandths = base_usd * 100;
      supported = not (is_unknown answer.0.status);
      expires_at = now +ℤ pos 600000;
    },
    answer.1,
  )

-- `toISOString` throws for a time that is more than 8.64e15 milliseconds from 1970.
abbrev pub iso : ℤ → Result ℤ
iso time =
    if leb_ℤ time (pos 8640000000000000) && leb_ℤ (negsuc 8639999999999999) time
    then ok time
    else err "RangeError"

-- `Math.max(0, n)`
abbrev pub at_least_zero : Double → Double
at_least_zero nan = nan
at_least_zero n = if less n (finite (pos 0)) then finite (pos 0) else n

abbrev pub amount_of : Option RegistrarPayment → Option Double
amount_of none = none
amount_of (some payment) = payment.credits_amount

-- `(value || 0)` of an optional number
abbrev pub credits_or_zero : Option Double → Double
credits_or_zero credits = or_zero (given credits (finite (pos 0)))

-- The record of a domain that is renewed.
abbrev pub renewed : RegistrarDomainRecord → ℤ → ℤ → Option RegistrarPayment → RegistrarDomainRecord
renewed existing due grace payment = record existing {
  status = active;
  renewal_due_date = some due;
  grace_expires_at = some grace;
  credits_balance = some (
      at_least_zero
        (minus (credits_or_zero existing.credits_balance) (credits_or_zero (amount_of payment))));
}

abbrev pub refusal : Text → Text → RenewalResult
refusal provider_ref error = record {
  submitted = false;
  provider_ref = provider_ref;
  errors = error ∷ [];
}

-- The renewal of the record that was found.
unfoldable pub finish_renewal :
    Text
    → ℕ
    → Option RegistrarPayment
    → Text
    → ℤ
    → List (Text × RegistrarDomainRecord) × File
    → RegistrarDomainRecord
    → Result (RenewalResult × File)
finish_renewal key years payment submitted_ref now loaded existing =
    if is_unknown existing.status
    then ok (refusal (codes "mock-renew-unsupported") (codes "domain_unknown"), loaded.1)
    else (do
      due ← iso (days_after (years * 365) now)
      grace ← iso (days_after (years * 365 + 30) now)
      ok (
        record { submitted = true; provider_ref = submitted_ref; errors = [] },
        stored (assign key (renewed existing due grace payment) loaded.0),
      ))

-- A renewal for a whole number of years, from the check of the years on. `submitted_ref` is the
-- reference with the time in it.
unfoldable pub renew_for :
    Text → ℕ → Option RegistrarPayment → Text → ℤ → File → Result (RenewalResult × File)
renew_for key years payment submitted_ref now file = do
  loaded ← ensure_store now file
  let existing = existing_record key loaded.0
  finish_renewal key years payment submitted_ref now loaded existing

unfoldable pub renew_domain :
    Text → Double → Option RegistrarPayment → Text → ℤ → File → Result (RenewalResult × File)
renew_domain domain (finite (pos years)) payment submitted_ref now file =
    if ltb years 1
    then ok (refusal (codes "mock-renew-invalid") (codes "invalid_years"), file)
    else renew_for (normalize_domain domain) years payment submitted_ref now file
renew_domain domain _ payment submitted_ref now file =
    ok (refusal (codes "mock-renew-invalid") (codes "invalid_years"), file)

-- `.filter(Boolean)`
unfoldable pub non_empty : List Text → List Text
non_empty [] = []
non_empty ([] ∷ texts) = non_empty texts
non_empty ((c ∷ text) ∷ texts) = (c ∷ text) ∷ non_empty texts

unfoldable pub set_name_servers :
    Text → List Text → Text → ℤ → File → Result (DnsUpdateResult × File)
set_name_servers domain ns submitted_ref now file =
    let normalized = non_empty (map (λ entry. to_lower_case (trim entry)) ns) in
    if ltb (length normalized) 2
    then ok (
      record {
        is_ok = false;
        provider_ref = codes "mock-ns-invalid";
        errors = codes "invalid_ns" ∷ [];
      },
      file,
    )
    else (do
      loaded ← ensure_store now file
      let key = normalize_domain domain
      ok (
        record { is_ok = true; provider_ref = submitted_ref; errors = [] },
        stored (assign key (record (existing_record key loaded.0) { ns = normalized }) loaded.0),
      ))

unfoldable pub get_name_servers : Text → ℤ → File → Result (List Text × File)
get_name_servers domain now file = do
  answer ← get_domain domain now file
  ok (answer.0.ns, answer.1)
