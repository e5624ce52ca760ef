-- ===== src/TrafficOracle/RateLimit.antt =====
-- services/traffic-oracle/src/rate_limit.ts: the token bucket limiter. Tokens are counted in units, `one`
-- of which make a token, small enough for `capacity` and the refill of a millisecond to be whole
-- numbers of units (5000 units for the default of 0.2 tokens a second); no rounding takes place.
pub mod Admission
use decentralized_dns.Prelude.{
  ℕ, suc, ◌+◌, ◌-◌, ◌*◌, min, Bool, true, false, ◌&&◌, Option, none, some, List, [], ◌∷◌, ltb, Text,
  text_eq, if◌then◌else◌,
}
use decentralized_dns.Prelude.Doubles.{given}
use decentralized_dns.Prelude.Maps.{lookup, assign}

pub record Bucket : Type 0 where
  pub tokens : ℕ
  pub last_refill_ms : ℕ

module _ (one capacity refill_per_ms : ℕ) where
  abbrev pub full : ℕ → Bucket
  full now = record { tokens = capacity; last_refill_ms = now }

  -- The bucket of a key, refilled for the time that has passed.
  unfoldable pub refilled : Bucket → ℕ → ℕ
  refilled bucket now = min capacity (bucket.tokens + (now - bucket.last_refill_ms) * refill_per_ms)

  unfoldable pub allow : Text → ℕ → List (Text × Bucket) → Bool × List (Text × Bucket)
  allow key now buckets =
      let tokens = refilled (given (lookup key buckets) (full now)) now in
      if ltb tokens one
      then (false, assign key (record { tokens = tokens; last_refill_ms = now }) buckets)
      else (true, assign key (record { tokens = tokens - one; last_refill_ms = now }) buckets)

  -- How many of the calls are admitted for a key.
  unfoldable pub admitted : Text → List (Text × ℕ) → List (Text × Bucket) → ℕ
  admitted key [] buckets = 0
  admitted key ((k, now) ∷ calls) buckets =
      let step = allow k now buckets in
      let later = admitted key calls step.1 in if text_eq k key && step.0 then suc later else later
