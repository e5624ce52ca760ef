-- ===== src/Recursive/Select/Limits.antt =====
-- The times to live that `selectBest` of gateway/src/adapters/recursive.ts gives out.
use decentralized_dns.Prelude.{
  ℕ, ◌≤◌, ◌≡◌, refl, sym, ◌∙◌, subst, min, max, Bool, true, false, not, List, [], ◌∷◌, length,
  Option, some, none, arith, Bool-cases, inl, inr, ok, pos, negsuc, if◌then◌else◌, map, Result,
}
use decentralized_dns.Prelude.All.{All}
use decentralized_dns.Prelude.Doubles.{
  Double, finite, nan, infinity, neg_infinity, maximum, minimum, minimum_of, truthy,
}
use decentralized_dns.Prelude.Sorting.{filter, All-filter}
use decentralized_dns.Recursive.{
  Runtime, ConfidenceLevel, high, medium, low, Status, no_error, nx_domain, UpstreamResult,
  is_empty, units,
}
use decentralized_dns.Recursive.Select.{
  Selection, successful, gave_nx_domain, fastest, hash_groups, strongest_of, unique_by_url,
  selection_of, low_of, overlap_candidates, reaches, ttls, ttl_or_30, select_high, select_medium,
  select_low, select_nx_domain, select_successful, select_best,
}
use decentralized_dns.Recursive.Select.Outcome.{
  fastest-FirstOf, strongest-FirstOf, strongest_of-first, length_of_not_empty, ok_of_err,
  All-unique_by_url, All-overlap_candidates,
}

abbrev pub is_nan : Double → Bool
is_nan nan = true
is_nan _ = false

-- A number of thousandths of a second from one second to a ceiling.
pub record Within (ceiling : ℕ) (d : Double) : Type 0 where
  pub amount : ℕ
  pub is_amount : d ≡ finite (pos amount)
  pub at_least : 1000 ≤ amount
  pub at_most : amount ≤ ceiling

-- The ceiling of a selection, for a cap in thousandths of a second.
abbrev pub ceiling : ℕ → Status → ConfidenceLevel → ℕ
ceiling c no_error high = c
ceiling c no_error medium = min c 120000
ceiling c no_error low = min c 30000
ceiling c _ _ = 30000

minimum-numeric :
    (a b : Double) → is_nan a ≡ false → is_nan b ≡ false → is_nan (minimum a b) ≡ false
minimum-numeric a b h k = ground arith

abbrev Numeric : UpstreamResult → Type 0
Numeric u = is_nan u.ttl_s ≡ false

minimum_of-Numeric :
    (us : List UpstreamResult) → All Numeric us → is_nan (minimum_of (ttls us)) ≡ false
minimum_of-Numeric [] h = refl
minimum_of-Numeric (u ∷ us) (p, h) = minimum-numeric u.ttl_s _ p (minimum_of-Numeric us h)

or_30-numeric : (d : Double) → is_nan d ≡ false → is_nan (if truthy d then d else units 30) ≡ false
or_30-numeric d h = ground arith

minimum_of-or_30 :
    (us : List UpstreamResult) → All Numeric us → is_nan (minimum_of (map ttl_or_30 us)) ≡ false
minimum_of-or_30 [] h = refl
minimum_of-or_30 (u ∷ us) (p, h) =
    minimum-numeric (ttl_or_30 u) _ (or_30-numeric u.ttl_s p) (minimum_of-or_30 us h)

-- `Math.max(1, Math.min(x, ceiling))`
capped :
    (c : ℕ) (x : Double)
    → 1000 ≤ c
    → is_nan x ≡ false
    → Within c (maximum (units 1) (minimum x (finite (pos c))))
capped c nan h k = cc
capped c infinity h k = record {
  amount = c;
  is_amount = ground arith;
  at_least = h;
  at_most = omega arith;
}
capped c neg_infinity h k = record {
  amount = 1000;
  is_amount = refl;
  at_least = omega arith;
  at_most = h;
}
capped c (finite (pos n)) h k = record {
  amount = max 1000 (min n c);
  is_amount = ground arith;
  at_least = omega arith;
  at_most = omega arith;
}
capped c (finite (negsuc n)) h k = record {
  amount = 1000;
  is_amount = ground arith;
  at_least = omega arith;
  at_most = h;
}

-- Two ceilings are their minimum.
minimum-minimum :
    (x : Double) (c c' : ℕ)
    → minimum (minimum x (finite (pos c))) (finite (pos c')) ≡ minimum x (finite (pos (min c c')))
minimum-minimum x c c' = ground arith

some_injective : {a b : UpstreamResult} → some a ≡ some b → a ≡ b
some_injective e = cc

module _ (c : ℕ) where
  -- The selection, if there is one, keeps to its ceiling.
  abbrev pub Kept : Result Selection → Type 0
  Kept r = (s : Selection) → r ≡ ok s → Within (ceiling c s.status s.confidence) s.ttl_s

  selection_of-Kept :
      (status : Status) (confidence : ConfidenceLevel) (us : List UpstreamResult) (ttl : Double)
      (chosen : Option UpstreamResult)
      → Within (ceiling c status confidence) ttl
      → Kept (selection_of status confidence us ttl chosen)
  unfolding selection_of
  selection_of-Kept status confidence us ttl none w s e = cc
  selection_of-Kept status confidence us ttl (some u) w s e =
      let same : record {
        status = status;
        confidence = confidence;
        chosen = u;
        considered = us;
        ttl_s = ttl;
      }
          ≡ s =
        cc in
      subst (λ (k : Selection). Within (ceiling c k.status k.confidence) k.ttl_s) same w

  low_of-Kept :
      (chosen : Option UpstreamResult)
      → 1000 ≤ c
      → ((u : UpstreamResult) → chosen ≡ some u → Numeric u)
      → Kept (low_of (finite (pos c)) chosen)
  unfolding low_of selection_of
  low_of-Kept none h n s e = cc
  low_of-Kept (some u) h n s e =
      selection_of-Kept no_error low (u ∷ []) _ (some u)
        (rw (minimum-minimum u.ttl_s c 30000)
          (capped (min c 30000) u.ttl_s (omega arith) (n u refl)))
        s e

  select_low-Kept :
      (us : List UpstreamResult)
      → 1000 ≤ c
      → 1 ≤ length us
      → All Numeric us
      → Kept (select_low (finite (pos c)) us)
  unfolding select_low
  select_low-Kept us h n numeric =
      let f = fastest-FirstOf Numeric us n numeric in
      low_of-Kept (fastest us) h (λ u e.
        let same : f.it ≡ u = some_injective (sym f.found_it ∙ e) in subst Numeric same f.holds)

  select_successful-Kept :
      (rt : Runtime) (quorum_min threshold : Double) (us : List UpstreamResult)
      → 1000 ≤ c
      → 1 ≤ length us
      → All Numeric us
      → Kept (select_successful rt quorum_min threshold (finite (pos c)) us)
  unfolding select_successful select_high select_medium
  select_successful-Kept rt quorum_min threshold us h n numeric =
      let f = strongest-FirstOf Numeric us n numeric in
      let same = strongest_of-first Numeric (hash_groups us) f.it f.found_it in
      let candidates = overlap_candidates rt threshold us in
      let considered = unique_by_url candidates in
      let numeric' =
        All-unique_by_url Numeric candidates
          (All-overlap_candidates Numeric rt threshold us numeric) in
      elim (Bool-cases (reaches quorum_min (length (strongest_of (hash_groups us))))) [
        | inl r ↦
            rw (r, same)
              (selection_of-Kept no_error high f.it.1 _ (fastest f.it.1)
                (capped c (minimum_of (ttls f.it.1)) h (minimum_of-Numeric f.it.1 f.holds.1)))
        | inr r ↦ elim (Bool-cases (not (is_empty candidates))) [
          | inl e ↦
              rw (r, e)
                (selection_of-Kept no_error medium considered _ (fastest considered) (
                  rw (minimum-minimum (minimum_of (ttls considered)) c 120000) (
                    capped (min c 120000) (minimum_of (ttls considered)) (omega arith)
                      (minimum_of-Numeric considered numeric'))))
          | inr e ↦ rw (r, e) (select_low-Kept us h n numeric)
        ]
      ]

  nx_domain-Within :
      (quorum_min : Double) (nx : List UpstreamResult)
      → All Numeric nx
      → Within
          (ceiling c nx_domain (if reaches quorum_min (length nx) then medium else low))
          (maximum (units 1) (minimum (minimum_of (map ttl_or_30 nx)) (units 30)))
  nx_domain-Within quorum_min nx numeric =
      capped 30000 (minimum_of (map ttl_or_30 nx)) (omega arith) (minimum_of-or_30 nx numeric)

-- If the times to live of all servers are numbers and the cap is a number of at least one second, then
-- the time to live that is selected is a number of at least one second. It is at most the cap, also at
-- most 120 seconds with medium and 30 seconds with low confidence, and at most 30 seconds for NXDOMAIN.
pub select_best-ttl :
    (rt : Runtime) (upstreams : List UpstreamResult) (quorum_min threshold : Double) (c : ℕ)
    (s : Selection)
    → 1000 ≤ c
    → All (λ u. is_nan u.ttl_s ≡ false) upstreams
    → select_best rt upstreams quorum_min threshold (finite (pos c)) ≡ ok s
    → Within (ceiling c s.status s.confidence) s.ttl_s
unfolding select_best select_nx_domain
select_best-ttl rt us quorum_min threshold c s h numeric e =
    let good = filter successful us in
    let nx = filter gave_nx_domain us in
    elim (Bool-cases (not (is_empty good))) [
      | inl some_good ↦
          select_successful-Kept c rt quorum_min threshold good h
            (length_of_not_empty good some_good) (All-filter Numeric successful us numeric) s
            (rw some_good at e)
      | inr no_good ↦ elim (Bool-cases (not (is_empty nx))) [
        | inl some_nx ↦
            selection_of-Kept c nx_domain (if reaches quorum_min (length nx) then medium else low)
              nx _ (fastest nx)
              (nx_domain-Within c quorum_min nx (All-filter Numeric gave_nx_domain us numeric)) s
              (rw (no_good, some_nx) at e)
        | inr no_nx ↦ absurd (ok_of_err "UPSTREAM_FAILED" s (rw (no_good, no_nx) at e))
      ]
    ]
