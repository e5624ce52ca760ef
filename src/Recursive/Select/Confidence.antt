-- ===== src/Recursive/Select/Confidence.antt =====
-- When `selectBest` of gateway/src/adapters/recursive.ts is confident, and what the overlap threshold does.
use decentralized_dns.Prelude.{
  ℕ, ◌≤◌, ◌≡◌, ◌≢◌, refl, ap, Bool, ◌&&◌, text_eq, true, false, not, List, [], ◌∷◌, length, Option,
  some, none, arith, Bool-cases, ok, err, inl, inr, ◌↔◌, if◌then◌else◌, Text, ltb,
}
use decentralized_dns.Prelude.All.{All}
use decentralized_dns.Prelude.Maps.{lookup, All-lookup}
use decentralized_dns.Prelude.Groups.{group_onto, with_key, bucket_of-group}
use decentralized_dns.Prelude.Doubles.{Double, given, less_or_equal}
use decentralized_dns.Prelude.Sorting.{filter}
use decentralized_dns.Recursive.{
  Runtime, ConfidenceLevel, high, medium, low, Status, no_error, nx_domain, failed, UpstreamResult,
  is_empty, units,
}
use decentralized_dns.Recursive.Select.{
  Selection, successful, is_no_error, gave_nx_domain, hash_key, hash_groups, longer_group,
  strongest_of, selection_of, low_of, select_high, select_medium, select_low, select_nx_domain,
  overlap_candidates, reaches, select_successful, select_best,
}
use decentralized_dns.Recursive.Select.Outcome.{
  strongest-FirstOf, strongest_of-first, length_of_not_empty, ok_of_err, length_of_empty,
}

reaches_mono :
    (quorum : Double) (n m : ℕ) → n ≤ m → reaches quorum n ≡ true → reaches quorum m ≡ true
reaches_mono quorum n m le h = ground arith

-- The successful answers with one hash.
abbrev agreeing : Text → List UpstreamResult → List UpstreamResult
agreeing hash upstreams = filter (with_key hash_key hash) (filter successful upstreams)

abbrev pub has_addresses : Status → List Text → Bool
has_addresses no_error (_ ∷ _) = true
has_addresses _ _ = false

-- The server answered with addresses, and with the record set of a hash.
abbrev pub gives : Text → UpstreamResult → Bool
gives hash u = has_addresses u.status u.ips && text_eq u.rrset_hash hash

successful-has_addresses :
    (status : Status) (ips : List Text)
    → (is_no_error status && not (is_empty ips)) ≡ has_addresses status ips
successful-has_addresses no_error [] = refl
successful-has_addresses no_error (ip ∷ ips) = refl
successful-has_addresses nx_domain ips = refl
successful-has_addresses failed ips = refl

agreeing-gives :
    (hash : Text) (us : List UpstreamResult) → agreeing hash us ≡ filter (gives hash) us
unfolding filter
agreeing-gives hash [] = refl
agreeing-gives hash (u ∷ us) = elim (Bool-cases (has_addresses u.status u.ips)) [
  | inl e ↦ elim (Bool-cases (text_eq u.rrset_hash hash)) [
    | inl k ↦
        rw (successful-has_addresses u.status u.ips, e, k)
          (ap (λ (vs : List UpstreamResult). u ∷ vs) (agreeing-gives hash us))
    | inr k ↦ rw (successful-has_addresses u.status u.ips, e, k) (agreeing-gives hash us)
  ]
  | inr e ↦ rw (successful-has_addresses u.status u.ips, e) (agreeing-gives hash us)
]

All-trivial : (us : List UpstreamResult) → All (λ _. Unit {0}) us
All-trivial [] = tt
All-trivial (u ∷ us) = (tt, All-trivial us)

bucket_bound :
    (best : List UpstreamResult) (found : Option (List UpstreamResult))
    → ((b : List UpstreamResult) → found ≡ some b → ltb (length best) (length b) ≡ false)
    → length (given found []) ≤ length best
bucket_bound best none h = omega arith
bucket_bound best (some b) h = ground (arith, h b refl)

-- The largest group has as many answers as any hash has.
strongest-bound :
    (us : List UpstreamResult) (hash : Text)
    → 1 ≤ length us
    → length (filter (with_key hash_key hash) us) ≤ length (strongest_of (hash_groups us))
strongest-bound us hash n =
    let f = strongest-FirstOf (λ _. Unit {0}) us n (All-trivial us) in
    let same = strongest_of-first (λ _. Unit {0}) (hash_groups us) f.it f.found_it in
    rw (same, ← bucket_of-group hash_key hash us)
      (bucket_bound f.it.1 (lookup hash (group_onto hash_key [] us)) λ b e.
        All-lookup (λ k c. longer_group (k, c) f.it ≡ false) hash (group_onto hash_key [] us) b
          f.least e)

-- The largest group is made of equal answers, all of them in the list.
strongest-agrees :
    (us : List UpstreamResult)
    → 1 ≤ length us
    → (hash : Text) × All (λ u. with_key hash_key hash u ≡ true) (strongest_of (hash_groups us))
      × (length (strongest_of (hash_groups us)) ≤ length (filter (with_key hash_key hash) us))
strongest-agrees us n =
    let f = strongest-FirstOf (λ _. Unit {0}) us n (All-trivial us) in
    let same = strongest_of-first (λ _. Unit {0}) (hash_groups us) f.it f.found_it in
    (f.it.0, rw same f.holds.0.same, rw same f.holds.0.counted)

confidence_of_choice :
    (status : Status) (confidence : ConfidenceLevel) (us : List UpstreamResult) (ttl : Double)
    (chosen : Option UpstreamResult) (s : Selection)
    → selection_of status confidence us ttl chosen ≡ ok s
    → s.confidence ≡ confidence
unfolding selection_of
confidence_of_choice status confidence us ttl none s e = cc
confidence_of_choice status confidence us ttl (some u) s e = ground arith

confidence_of_low :
    (ttl_cap : Double) (chosen : Option UpstreamResult) (s : Selection)
    → low_of ttl_cap chosen ≡ ok s
    → s.confidence ≡ low
unfolding low_of
confidence_of_low ttl_cap none s e = cc
confidence_of_low ttl_cap (some u) s e = ground arith

-- The confidence is high exactly when the largest group reaches the quorum.
successful-high_iff :
    (rt : Runtime) (quorum_min threshold ttl_cap : Double) (us : List UpstreamResult)
    (s : Selection)
    → select_successful rt quorum_min threshold ttl_cap us ≡ ok s
    → (s.confidence ≡ high) ↔ (reaches quorum_min (length (strongest_of (hash_groups us))) ≡ true)
unfolding select_successful select_high select_medium select_low
successful-high_iff rt quorum_min threshold ttl_cap us s e =
    elim (Bool-cases (reaches quorum_min (length (strongest_of (hash_groups us))))) [
      | inl r ↦ let h = confidence_of_choice no_error high _ _ _ s (rw r at e) in (λ _. r, λ _. h)
      | inr r ↦ elim (Bool-cases (not (is_empty (overlap_candidates rt threshold us)))) [
        | inl c ↦
            let h = confidence_of_choice no_error medium _ _ _ s (rw (r, c) at e) in
            (λ k. cc, λ k. cc)
        | inr c ↦ let h = confidence_of_low ttl_cap _ s (rw (r, c) at e) in (λ k. cc, λ k. cc)
      ]
    ]

not_confident_nx_domain :
    (quorum_min : Double) (nx : List UpstreamResult) (s : Selection)
    → select_nx_domain quorum_min nx ≡ ok s
    → s.confidence ≢ high
unfolding select_nx_domain
not_confident_nx_domain quorum_min nx s e h =
    let c = confidence_of_choice _ _ nx _ _ s e in
    elim (Bool-cases (reaches quorum_min (length nx))) [
      | inl r ↦ let k : s.confidence ≡ medium = rw r at c in cc
      | inr r ↦ let k : s.confidence ≡ low = rw r at c in cc
    ]

filter_none :
    (hash : Text) (xs : List UpstreamResult)
    → length xs ≡ 0
    → length (filter (with_key hash_key hash) xs) ≡ 0
unfolding filter
filter_none hash [] e = refl
filter_none hash (x ∷ xs) e = absurd (omega arith)

agreeing_none :
    (us : List UpstreamResult) (hash : Text)
    → length (filter successful us) ≡ 0
    → length (agreeing hash us) ≡ 0
agreeing_none us hash e = filter_none hash (filter successful us) e

not_high :
    (us : List UpstreamResult) (quorum_min : Double) (s : Selection)
    → (if not (is_empty (filter gave_nx_domain us))
        then select_nx_domain quorum_min (filter gave_nx_domain us)
        else err "UPSTREAM_FAILED")
      ≡ ok s
    → s.confidence ≢ high
not_high us quorum_min s e = elim (Bool-cases (not (is_empty (filter gave_nx_domain us)))) [
  | inl nx ↦ not_confident_nx_domain quorum_min (filter gave_nx_domain us) s (rw nx at e)
  | inr nx ↦ λ h. ok_of_err "UPSTREAM_FAILED" s (rw nx at e)
]

select_best-high_iff_agreeing :
    (rt : Runtime) (upstreams : List UpstreamResult) (quorum_min threshold ttl_cap : Double)
    (s : Selection)
    → reaches quorum_min 0 ≡ false
    → select_best rt upstreams quorum_min threshold ttl_cap ≡ ok s
    → (s.confidence ≡ high)
      ↔ ((hash : Text) × (reaches quorum_min (length (agreeing hash upstreams)) ≡ true))
unfolding select_best
select_best-high_iff_agreeing rt us quorum_min threshold ttl_cap s positive e =
    let good = filter successful us in
    elim (Bool-cases (not (is_empty good))) [
      | inl some_good ↦
          let n = length_of_not_empty good some_good in
          let iff =
            successful-high_iff rt quorum_min threshold ttl_cap good s (rw some_good at e) in
          let (hash, _, counted) = strongest-agrees good n in
          (
            λ h. (hash, reaches_mono quorum_min _ _ counted (iff.0 h)),
            λ w. iff.1 (reaches_mono quorum_min _ _ (strongest-bound good w.0 n) w.1),
          )
      | inr no_good ↦
          let none_agree = agreeing_none us in
          (
            λ h. absurd (not_high us quorum_min s (rw no_good at e) h),
            λ w.
                let k : reaches quorum_min 0 ≡ true =
                  rw (none_agree w.0 (length_of_empty good no_good)) at w.1 in
                cc,
          )
    ]

-- For a quorum above 0, a selection is of high confidence exactly when some record set, identified by its
-- hash, was given as an answer with addresses by at least as many servers as the quorum asks for.
pub select_best-high_iff :
    (rt : Runtime) (upstreams : List UpstreamResult) (quorum_min threshold ttl_cap : Double)
    (s : Selection)
    → less_or_equal quorum_min (units 0) ≡ false
    → select_best rt upstreams quorum_min threshold ttl_cap ≡ ok s
    → (s.confidence ≡ high) ↔ (
        (hash : Text) × (less_or_equal quorum_min (units (length (filter (gives hash) upstreams)))
          ≡ true))
select_best-high_iff rt us quorum_min threshold ttl_cap s positive e =
    let iff = select_best-high_iff_agreeing rt us quorum_min threshold ttl_cap s positive e in
    (
      λ h. let w = iff.0 h in (w.0, rw (← agreeing-gives w.0 us) w.1),
      λ w. iff.1 (w.0, rw (agreeing-gives w.0 us) w.1),
    )
