-- ===== src/TrafficOracle/RateLimit/Admission.antt =====
-- How many calls the limiter admits (services/traffic-oracle/src/rate_limit.ts).
use native.Mathlib.Nat.{add-mul, mul-suc}
use decentralized_dns.Prelude.{
  ℕ, suc, ◌+◌, ◌-◌, ◌*◌, ◌≤◌, ◌≡◌, refl, sym, subst, Bool, true, false, ◌&&◌, Option-cases,
  Bool-cases, inl, inr, List, [], ◌∷◌, ltb, Text, text_eq, text_eq_iff, text_eq_refl, if◌then◌else◌,
  arith,
}
use decentralized_dns.Prelude.Doubles.{given}
use decentralized_dns.Prelude.Maps.{lookup, assign, lookup-assign, lookup-assign_other}
use decentralized_dns.TrafficOracle.RateLimit.{Bucket, full, refilled, allow, admitted}

module _ (one capacity refill_per_ms : ℕ) where
  -- The bucket of a key, and what is in it at a time.
  abbrev bucket_of : Text → List (Text × Bucket) → ℕ → Bucket
  bucket_of key buckets now = given (lookup key buckets) (full one capacity refill_per_ms now)

  abbrev level : Text → List (Text × Bucket) → ℕ → ℕ
  level key buckets now = refilled one capacity refill_per_ms (bucket_of key buckets now) now

  -- No bucket of the key was refilled after `now`.
  abbrev pub InPast : Text → List (Text × Bucket) → ℕ → Type 0
  InPast key buckets now = (bucket_of key buckets now).last_refill_ms ≤ now

  -- Calls at times that do not decrease, from `start` to `finish`.
  abbrev pub Ordered : ℕ → List (Text × ℕ) → ℕ → Type 0
  Ordered start [] finish = start ≤ finish
  Ordered start ((k, now) ∷ calls) finish = (start ≤ now) × Ordered now calls finish

  split_time :
      (start now finish : ℕ)
      → start ≤ now
      → now ≤ finish
      → (finish - start) * refill_per_ms
        ≡ (now - start) * refill_per_ms + (finish - now) * refill_per_ms
  split_time start now finish p q =
      let whole : finish - start ≡ (now - start) + (finish - now) = omega arith in
      rw whole (add-mul (now - start) (finish - now) refill_per_ms)

  refilled-grows :
      (b : Bucket) (start now : ℕ)
      → b.last_refill_ms ≤ start
      → start ≤ now
      → refilled one capacity refill_per_ms b now
        ≤ refilled one capacity refill_per_ms b start + (now - start) * refill_per_ms
  unfolding refilled
  refilled-grows b start now p q = omega (arith, split_time b.last_refill_ms start now p q)

  refilled-now :
      (b : Bucket) (now : ℕ)
      → b.tokens ≤ capacity
      → b.last_refill_ms ≡ now
      → refilled one capacity refill_per_ms b now ≡ b.tokens
  unfolding refilled
  refilled-now b now p q =
      let none_passed : now - b.last_refill_ms ≡ 0 = omega arith in rw none_passed (omega arith)

  refilled-bound : (b : Bucket) (now : ℕ) → refilled one capacity refill_per_ms b now ≤ capacity
  unfolding refilled
  refilled-bound b now = omega arith

  level-grows :
      (key : Text) (buckets : List (Text × Bucket)) (start now : ℕ)
      → InPast key buckets start
      → start ≤ now
      → level key buckets now ≤ level key buckets start + (now - start) * refill_per_ms
  level-grows key buckets start now p q = elim (Option-cases (lookup key buckets)) [
    | inl e ↦
        rw (e, refilled-now (full one capacity refill_per_ms start) start (omega arith) refl)
          (omega (arith, refilled-bound (full one capacity refill_per_ms now) now))
    | inr (b, e) ↦ rw e (refilled-grows b start now (rw e at p) q)
  ]

  abbrev cost : Bool → ℕ
  cost admitted_call = if admitted_call then one else 0

  -- A bucket that was just set, and how full it is.
  set_bucket :
      (k : Text) (tokens now : ℕ) (buckets : List (Text × Bucket))
      → tokens ≤ capacity
      → (level k (assign k (record { tokens = tokens; last_refill_ms = now }) buckets) now ≡ tokens)
        × InPast k (assign k (record { tokens = tokens; last_refill_ms = now }) buckets) now
  set_bucket k tokens now buckets h =
      rw (lookup-assign k (record { tokens = tokens; last_refill_ms = now }) buckets)
        (refilled-now (record { tokens = tokens; last_refill_ms = now }) now h refl, omega arith)

  allow-own :
      (k : Text) (now : ℕ) (buckets : List (Text × Bucket))
      → (cost (allow one capacity refill_per_ms k now buckets).0
            + level k (allow one capacity refill_per_ms k now buckets).1 now
          ≡ level k buckets now)
        × InPast k (allow one capacity refill_per_ms k now buckets).1 now
  unfolding allow
  allow-own k now buckets =
      let full_enough = refilled-bound (bucket_of k buckets now) now in
      elim (Bool-cases (ltb (level k buckets now) one)) [
        | inl e ↦
            let (is, past) = set_bucket k (level k buckets now) now buckets full_enough in
            rw e (omega (arith, is), past)
        | inr e ↦
            let (is, past) = set_bucket k (level k buckets now - one) now buckets (omega arith) in
            let enough : one ≤ level k buckets now = ground (arith, e) in rw e (omega arith, past)
      ]

  allow-other :
      (k j : Text) (now : ℕ) (buckets : List (Text × Bucket))
      → text_eq k j ≡ false
      → lookup j (allow one capacity refill_per_ms k now buckets).1 ≡ lookup j buckets
  unfolding allow
  allow-other k j now buckets ne = elim (Bool-cases (ltb (level k buckets now) one)) [
    | inl e ↦ rw e (lookup-assign_other k j _ buckets ne)
    | inr e ↦ rw e (lookup-assign_other k j _ buckets ne)
  ]

  InPast-later :
      (key : Text) (buckets : List (Text × Bucket)) (start now : ℕ)
      → InPast key buckets start
      → start ≤ now
      → InPast key buckets now
  InPast-later key buckets start now p q = elim (Option-cases (lookup key buckets)) [
    | inl e ↦ rw e (omega arith)
    | inr (b, e) ↦ let earlier = rw e at p in rw e (omega arith)
  ]

  count_cost : (b : Bool) (n : ℕ) → one * (if b then suc n else n) ≡ cost b + one * n
  count_cost true n = omega (arith, mul-suc one n)
  count_cost false n = omega arith

  Ordered-le :
      (start : ℕ) (calls : List (Text × ℕ)) (finish : ℕ)
      → Ordered start calls finish
      → start ≤ finish
  Ordered-le start [] finish h = h
  Ordered-le start ((k, now) ∷ calls) finish (q, r) = omega (arith, Ordered-le now calls finish r)

  -- What a call of `k` does to the bucket of `key`.
  abbrev Step : Text → Text → ℕ → List (Text × Bucket) → Type 0
  Step key k now buckets =
      (cost (text_eq k key && (allow one capacity refill_per_ms k now buckets).0)
          + level key (allow one capacity refill_per_ms k now buckets).1 now
        ≤ level key buckets now)
      × InPast key (allow one capacity refill_per_ms k now buckets).1 now

  allow-Step :
      (key k : Text) (now : ℕ) (buckets : List (Text × Bucket))
      → InPast key buckets now
      → Step key k now buckets
  allow-Step key k now buckets p = elim (Bool-cases (text_eq k key)) [
    | inl e ↦
        let (paid, past) = allow-own key now buckets in
        let own : Step key key now buckets = rw (text_eq_refl key) (omega (arith, paid), past) in
        subst (λ j. Step key j now buckets) (sym ((text_eq_iff k key).0 e)) own
    | inr e ↦ let same = allow-other k key now buckets e in rw (e, same) (omega arith, p)
  ]

  admitted_lem :
      (key : Text) (calls : List (Text × ℕ)) (buckets : List (Text × Bucket)) (start finish : ℕ)
      → InPast key buckets start
      → Ordered start calls finish
      → one * admitted one capacity refill_per_ms key calls buckets
        ≤ level key buckets start + (finish - start) * refill_per_ms
  unfolding admitted
  admitted_lem key [] buckets start finish p q = omega arith
  admitted_lem key ((k, now) ∷ calls) buckets start finish p (q, r) =
      let (paid, past) = allow-Step key k now buckets (InPast-later key buckets start now p q) in
      omega (
        arith,
        paid,
        split_time start now finish q (Ordered-le now calls finish r),
        level-grows key buckets start now p q,
        admitted_lem key calls (allow one capacity refill_per_ms k now buckets).1 now finish past r,
        count_cost (text_eq k key && (allow one capacity refill_per_ms k now buckets).0) (
            admitted one capacity refill_per_ms key calls
              (allow one capacity refill_per_ms k now buckets).1),
      )

  -- However the calls of all keys are ordered, and however full the buckets are, the calls that are
  -- admitted for a key in a span of time cost at most the capacity and what is refilled in that
  -- span, if the clock never goes back and the key's bucket was last refilled before the span.
  pub admitted-bound :
      (key : Text) (calls : List (Text × ℕ)) (buckets : List (Text × Bucket)) (start finish : ℕ)
      → InPast key buckets start
      → Ordered start calls finish
      → one * admitted one capacity refill_per_ms key calls buckets
        ≤ capacity + (finish - start) * refill_per_ms
  admitted-bound key calls buckets start finish p q = omega (
    arith,
    admitted_lem key calls buckets start finish p q,
    refilled-bound (bucket_of key buckets start) start,
  )
