-- ===== src/Registrar/Renewal.antt =====
-- What a renewal writes (core/src/registrar/mock_registrar.ts).
use decentralized_dns.Prelude.{
  ℕ, ◌+◌, ◌*◌, ◌≡◌, refl, true, false, Option, some, none, List, ℤ, pos, negsuc, Text, text_eq, ok,
  >>=-eq-ok, if◌then◌else◌, arith,
}
use decentralized_dns.Prelude.Doubles.{Double, finite, nan, infinity, neg_infinity, maximum, minus}
use decentralized_dns.Prelude.Maps.{assign, given-lookup-assign}
use decentralized_dns.Continuity.{normalize_domain}
use decentralized_dns.Registrar.{
  RegistrarDomainRecord, active, credits_or_zero, amount_of, at_least_zero, RegistrarPayment,
  RenewalResult, File, stored, days_after, ensure_store, existing_record, get_domain, is_unknown,
  unknown_record, iso, renewed, finish_renewal, renew_for, renew_domain,
}

iso-eq-ok : (time t : ℤ) → iso time ≡ ok t → t ≡ time
iso-eq-ok time t e = ground arith

-- The two times that a renewal writes.
abbrev due_after : ℕ → ℤ → ℤ
due_after years now = days_after (years * 365) now

abbrev grace_after : ℕ → ℤ → ℤ
grace_after years now = days_after (years * 365 + 30) now

-- A number that may be missing or NaN counts as 0.
abbrev pub number_in : Option Double → Double
number_in none = finite (pos 0)
number_in (some nan) = finite (pos 0)
number_in (some n) = n

abbrev pub paid : Option RegistrarPayment → Option Double
paid none = none
paid (some payment) = payment.credits_amount

-- What a reader finds of a domain after its renewal.
abbrev pub active_until :
    RegistrarDomainRecord → (due grace : ℤ) → Option RegistrarPayment → RegistrarDomainRecord
active_until old due grace payment = record {
  domain = old.domain;
  status = active;
  renewal_due_date = some due;
  grace_expires_at = some grace;
  ns = old.ns;
  traffic_signal = old.traffic_signal;
  credits_balance =
      some (
        maximum (finite (pos 0))
          (minus (number_in old.credits_balance) (number_in (paid payment))));
}

credits_or_zero-number_in : (n : Option Double) → credits_or_zero n ≡ number_in n
credits_or_zero-number_in none = refl
credits_or_zero-number_in (some nan) = refl
credits_or_zero-number_in (some infinity) = refl
credits_or_zero-number_in (some neg_infinity) = refl
credits_or_zero-number_in (some (finite (pos n))) = ground arith
credits_or_zero-number_in (some (finite (negsuc n))) = refl

amount_of-paid : (payment : Option RegistrarPayment) → amount_of payment ≡ paid payment
amount_of-paid none = refl
amount_of-paid (some payment) = refl

at_least_zero-maximum : (d : Double) → at_least_zero d ≡ maximum (finite (pos 0)) d
at_least_zero-maximum nan = refl
at_least_zero-maximum infinity = refl
at_least_zero-maximum neg_infinity = refl
at_least_zero-maximum (finite (pos n)) = ground arith
at_least_zero-maximum (finite (negsuc n)) = ground arith

renewed-active_until :
    (old : RegistrarDomainRecord) (due grace : ℤ) (payment : Option RegistrarPayment)
    → renewed old due grace payment ≡ active_until old due grace payment
renewed-active_until old due grace payment = rw (
  credits_or_zero-number_in old.credits_balance,
  credits_or_zero-number_in (amount_of payment),
  amount_of-paid payment,
  at_least_zero-maximum (minus (number_in old.credits_balance) (number_in (paid payment))),
)

-- A renewal that went through.
record Renewed (key : Text) (years : ℕ) (payment : Option RegistrarPayment) (now : ℤ)
    (file file' : File) : Type 0 where
  domains : List (Text × RegistrarDomainRecord)
  before : File
  loaded : ensure_store now file ≡ ok (domains, before)
  known : is_unknown (existing_record key domains).status ≡ false
  after :
      file'
      ≡ stored (
          assign key
            (renewed
              (existing_record key domains)
              (due_after years now)
              (grace_after years now)
              payment)
            domains)

finish_renewal-eq-ok :
    (key : Text) (years : ℕ) (payment : Option RegistrarPayment) (ref : Text) (now : ℤ)
    (domains : List (Text × RegistrarDomainRecord)) (before file' : File)
    (existing : RegistrarDomainRecord) (r : RenewalResult)
    → finish_renewal key years payment ref now (domains, before) existing ≡ ok (r, file')
    → r.submitted ≡ true
    → (is_unknown existing.status ≡ false)
      × (file'
          ≡ stored (
              assign key
                (renewed existing (due_after years now) (grace_after years now) payment)
                domains))
unfolding finish_renewal
finish_renewal-eq-ok key years payment ref now domains before file' existing r e s = ground arith

renew_for-Renewed :
    (key : Text) (years : ℕ) (payment : Option RegistrarPayment) (ref : Text) (now : ℤ)
    (file file' : File) (r : RenewalResult)
    → renew_for key years payment ref now file ≡ ok (r, file')
    → r.submitted ≡ true
    → Renewed key years payment now file file'
unfolding renew_for
renew_for-Renewed key years payment ref now file file' r e s =
    let ((domains, before), load, rest) =
      >>=-eq-ok (ensure_store now file)
        (λ (loaded : List (Text × RegistrarDomainRecord) × File).
          finish_renewal key years payment ref now loaded (existing_record key loaded.0))
        e in
    let (known, after) =
      finish_renewal-eq-ok key years payment ref now domains before file'
        (existing_record key domains) r rest s in
    record { domains = domains; before = before; loaded = load; known = known; after = after }

renew_domain-eq-ok :
    (domain : Text) (years : ℕ) (payment : Option RegistrarPayment) (ref : Text) (now : ℤ)
    (file file' : File) (r : RenewalResult)
    → renew_domain domain (finite (pos years)) payment ref now file ≡ ok (r, file')
    → r.submitted ≡ true
    → renew_for (normalize_domain domain) years payment ref now file ≡ ok (r, file')
unfolding renew_domain
renew_domain-eq-ok domain years payment ref now file file' r e s = ground arith

-- After a renewal that was submitted, the domain reads as active, due that many years of 365 days
-- after the time of the renewal, with 30 days of grace and the credits that the payment leaves (not
-- below 0); every other domain reads as it was stored. The domain was known.
pub get_domain-renew_domain :
    (domain other : Text) (years : ℕ) (payment : Option RegistrarPayment) (ref : Text)
    (now later : ℤ) (file file' : File) (r : RenewalResult)
    → renew_domain domain (finite (pos years)) payment ref now file ≡ ok (r, file')
    → r.submitted ≡ true
    → (domains : List (Text × RegistrarDomainRecord)) × (before : File) × (ensure_store now file
        ≡ ok (domains, before))
      × (is_unknown (existing_record (normalize_domain domain) domains).status ≡ false)
      × (get_domain other later file'
          ≡ ok (
            if text_eq (normalize_domain domain) (normalize_domain other)
                then active_until
                    (existing_record (normalize_domain domain) domains)
                    (days_after (years * 365) now)
                    (days_after (years * 365 + 30) now)
                    payment
                else existing_record (normalize_domain other) domains,
            file',
          ))
unfolding get_domain ensure_store existing_record
get_domain-renew_domain domain other years payment ref now later file file' r e s =
    let done =
      renew_for-Renewed (normalize_domain domain) years payment ref now file file' r
        (renew_domain-eq-ok domain years payment ref now file file' r e s) s in
    (
      done.domains,
      done.before,
      done.loaded,
      done.known,
      rw (
        done.after,
        ← renewed-active_until (existing_record (normalize_domain domain) done.domains)
            (due_after years now) (grace_after years now) payment,
        given-lookup-assign (normalize_domain domain) (normalize_domain other)
            (renewed (existing_record (normalize_domain domain) done.domains) (due_after years now)
              (grace_after years now) payment)
            (unknown_record (normalize_domain other)) done.domains,
      ),
    )
