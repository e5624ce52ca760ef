-- ===== src/Recursive/Select/Overlap.antt =====
-- What the overlap threshold of gateway/src/adapters/recursive.ts does: one shared address is an overlap already.
use decentralized_dns.Prelude.{
  ℕ, ◌≤◌, ◌≡◌, refl, false, ◌||◌, List, [], ◌∷◌, any, arith, Bool-cases, if_both, inl, inr, Text,
}
use decentralized_dns.Prelude.All.{All}
use decentralized_dns.Prelude.Doubles.{Double, less_or_equal}
use decentralized_dns.Prelude.Sorting.{filter}
use decentralized_dns.Continuity.{includes, unique_after}
use decentralized_dns.Recursive.{Runtime, UpstreamResult, is_empty, units}
use decentralized_dns.Recursive.Select.{
  shared_count, has_shared_ip, overlap_ratio, overlaps, overlaps_of, overlap_candidates,
  select_successful, select_best,
}

-- What is used of the quotient: 0 divided by a count is 0.
pub record DividesZero (rt : Runtime) : Type 0 where
  pub zero_over : (m : ℕ) → 1 ≤ m → rt.quotient 0 m ≡ units 0

includes_of_unique :
    (seen b : List Text) (x : Text)
    → includes b x ≡ false
    → includes (unique_after seen b) x ≡ false
unfolding includes unique_after
includes_of_unique seen [] x e = refl
includes_of_unique seen (c ∷ b) x e = ground (arith, includes_of_unique (c ∷ seen) b x)

-- No text of the list is one of the others.
abbrev Apart : List Text → List Text → Type 0
Apart b a = All (λ x. includes b x ≡ false) a

Apart-any : (a b : List Text) → any (includes b) a ≡ false → Apart b a
Apart-any [] b e = tt
Apart-any (x ∷ a) b e = (ground arith, Apart-any a b (ground arith))

Apart-unique_after :
    (seen a b : List Text) → Apart b a → Apart (unique_after [] b) (unique_after seen a)
unfolding unique_after
Apart-unique_after seen [] b h = tt
Apart-unique_after seen (x ∷ a) b (p, h) =
    let later = Apart-unique_after (x ∷ seen) a b h in
    if_both (Apart (unique_after [] b)) (includes seen x) later (includes_of_unique [] b x p, later)

shared_count_zero : (a b : List Text) → Apart b a → shared_count a b ≡ 0
unfolding shared_count filter
shared_count_zero [] b h = refl
shared_count_zero (x ∷ a) b (p, h) = rw p (shared_count_zero a b h)

-- The branch of `overlapRatio` that has two lists.
overlap_ratio_zero :
    (rt : Runtime) (a b : List Text)
    → DividesZero rt
    → has_shared_ip a b ≡ false
    → overlap_ratio rt a b ≡ units 0
unfolding overlap_ratio has_shared_ip
overlap_ratio_zero rt a b law e = elim (Bool-cases (is_empty a || is_empty b)) [
  | inl none_given ↦ rw none_given
  | inr both ↦
      let apart : any (includes b) a ≡ false = rw both at e in
      let none_shared =
        shared_count_zero (unique_after [] a) (unique_after [] b)
          (Apart-unique_after [] a b (Apart-any a b apart)) in
      rw (both, none_shared) (law.zero_over _ (ground arith))
]

overlaps-shared :
    (rt : Runtime) (threshold : Double) (a b : UpstreamResult)
    → DividesZero rt
    → less_or_equal threshold (units 0) ≡ false
    → overlaps rt threshold a b ≡ has_shared_ip a.ips b.ips
overlaps-shared rt threshold a b law e = elim (Bool-cases (has_shared_ip a.ips b.ips)) [
  | inl s ↦ rw s
  | inr s ↦ rw (s, overlap_ratio_zero rt a.ips b.ips law s, e)
]

module _ (rt : Runtime) (t t' : Double) (law : DividesZero rt) where
  module _ (positive : less_or_equal t (units 0) ≡ false)
      (positive' : less_or_equal t' (units 0) ≡ false) where
    overlaps_of_same :
        (a : UpstreamResult) (us : List UpstreamResult)
        → overlaps_of rt t a us ≡ overlaps_of rt t' a us
    unfolding overlaps_of
    overlaps_of_same a [] = refl
    overlaps_of_same a (b ∷ us) = rw (
      overlaps-shared rt t a b law positive,
      overlaps-shared rt t' a b law positive',
      overlaps_of_same a us,
    )

    overlap_candidates_same :
        (us : List UpstreamResult) → overlap_candidates rt t us ≡ overlap_candidates rt t' us
    unfolding overlap_candidates
    overlap_candidates_same [] = refl
    overlap_candidates_same (a ∷ us) = rw (overlaps_of_same a us, overlap_candidates_same us)

    -- The overlap threshold has no effect: if 0 divided by a count is 0, then two thresholds that are not
    -- at most 0 give the same result for all answers of the servers.
    pub select_best_any_threshold :
        (upstreams : List UpstreamResult) (quorum_min ttl_cap : Double)
        → select_best rt upstreams quorum_min t ttl_cap
          ≡ select_best rt upstreams quorum_min t' ttl_cap
    unfolding select_best select_successful
    select_best_any_threshold upstreams quorum_min ttl_cap = rw overlap_candidates_same
