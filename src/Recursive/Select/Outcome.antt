-- ===== src/Recursive/Select/Outcome.antt =====
-- When `selectBest` of gateway/src/adapters/recursive.ts selects, and which server it chooses.
use decentralized_dns.Prelude.{
  ◌&&◌, String, ◌+◌, length-map, ◌≤◌, ◌≡◌, refl, Bool, true, false, not, List, [], ◌∷◌, length,
  some, arith, Bool-cases, if_both, ltb_ℤ, Result, ok, err, inl, inr, if◌then◌else◌, map, Text,
}
use mathlib.Core.List.{Mem}
use decentralized_dns.Prelude.All.{All, All-append, All-both}
use decentralized_dns.Prelude.Maps.{assign, All-assign, length-assign}
use decentralized_dns.Prelude.Groups.{Grouped, group_onto, group-Grouped, length-group, All-group}
use decentralized_dns.Prelude.Doubles.{Double, maximum, minimum, minimum_of}
use decentralized_dns.Prelude.Sorting.{
  filter, first, All_of_filter, All-Mem, All-filter, filter-All, WeakOrder, FirstOf, Least,
  first-sort_by, irreflexive,
}
use decentralized_dns.Recursive.{
  Runtime, ConfidenceLevel, high, medium, low, Status, no_error, nx_domain, UpstreamResult,
  is_empty, units,
}
use decentralized_dns.Recursive.Select.{
  is_no_error, is_nx_domain, Selection, reaches, ttls, ttl_or_30, successful, gave_nx_domain,
  fastest, hash_key, hash_groups, longer_group, strongest_of, selection_of, low_of, unique_by_url,
  set_url, select_high, select_medium, select_low, select_nx_domain, overlaps, overlaps_of,
  overlap_candidates, select_successful, select_best,
}

abbrev pub faster : UpstreamResult → UpstreamResult → Bool
faster a b = ltb_ℤ a.rtt_ms b.rtt_ms

faster-WeakOrder : WeakOrder faster
faster-WeakOrder = record {
  asymmetric = λ a b h. ground arith;
  transitive = λ a b c h k. ground arith;
}

longer_group-WeakOrder : WeakOrder longer_group
longer_group-WeakOrder = record {
  asymmetric = λ a b h. ground arith;
  transitive = λ a b c h k. ground arith;
}

pub fastest-FirstOf :
    (P : UpstreamResult → Type 0) (us : List UpstreamResult)
    → 1 ≤ length us
    → All P us
    → FirstOf faster P us (fastest us)
unfolding fastest
fastest-FirstOf P us n h = first-sort_by faster P faster-WeakOrder us n h

-- A selection with the given status was made, its server and those considered have the property, and
-- no considered server was faster than the chosen one.
pub data Selected (P : UpstreamResult → Type 0) (status : Status) : Result Selection → Type 0 where
  selected :
      (s : Selection)
      → s.status ≡ status
      → P s.chosen
      → All P s.considered
      → Least faster s.chosen s.considered
      → Selected P status (ok s)

pub length_of_not_empty : {A : Type 0} (xs : List A) → not (is_empty xs) ≡ true → 1 ≤ length xs
length_of_not_empty [] e = cc
length_of_not_empty (x ∷ xs) e = omega arith

pub ok_of_err :
    (message : String) (s : Selection) → ◌≡◌ {A = Result Selection} (err message) (ok s) → ⊥
ok_of_err message s e = cc

module _ (P : UpstreamResult → Type 0) where
  selection_of-Selected :
      (status : Status) (confidence : ConfidenceLevel) (us : List UpstreamResult) (ttl : Double)
      → 1 ≤ length us
      → All P us
      → Selected P status (selection_of status confidence us ttl (fastest us))
  unfolding selection_of
  selection_of-Selected status confidence us ttl n h =
      let f = fastest-FirstOf P us n h in rw f.found_it (selected _ refl f.holds h f.least)

  select_low-Selected :
      (ttl_cap : Double) (us : List UpstreamResult)
      → 1 ≤ length us
      → All P us
      → Selected P no_error (select_low ttl_cap us)
  unfolding select_low low_of
  select_low-Selected ttl_cap us n h =
      let f = fastest-FirstOf P us n h in
      rw f.found_it
        (selected _ refl f.holds (f.holds, tt) (irreflexive faster faster-WeakOrder f.it, tt))

  All-set_url :
      (us : List UpstreamResult) (entries : List (Text × UpstreamResult))
      → All (λ e. P e.1) entries
      → All P us
      → All (λ e. P e.1) (set_url entries us)
  All-set_url [] entries k h = k
  All-set_url (u ∷ us) entries k (p, h) =
      All-set_url us (assign u.url u entries) (All-assign (λ _ v. P v) u.url u entries p k) h

  All-values :
      (entries : List (Text × UpstreamResult))
      → All (λ e. P e.1) entries
      → All P (map (λ e. e.1) entries)
  All-values [] h = tt
  All-values (e ∷ entries) (p, h) = (p, All-values entries h)

  pub All-unique_by_url : (us : List UpstreamResult) → All P us → All P (unique_by_url us)
  unfolding unique_by_url
  All-unique_by_url us h = All-values (set_url [] us) (All-set_url us [] tt h)

  All-overlaps_of :
      (rt : Runtime) (threshold : Double) (a : UpstreamResult) (us : List UpstreamResult)
      → P a
      → All P us
      → All P (overlaps_of rt threshold a us)
  unfolding overlaps_of
  All-overlaps_of rt threshold a [] p h = tt
  All-overlaps_of rt threshold a (b ∷ us) p (q, h) =
      let later = All-overlaps_of rt threshold a us p h in
      if_both (All P) (overlaps rt threshold a b) (p, (q, later)) later

  pub All-overlap_candidates :
      (rt : Runtime) (threshold : Double) (us : List UpstreamResult)
      → All P us
      → All P (overlap_candidates rt threshold us)
  unfolding overlap_candidates
  All-overlap_candidates rt threshold [] h = tt
  All-overlap_candidates rt threshold (a ∷ us) (p, h) =
      All-append P (overlaps_of rt threshold a us) (overlap_candidates rt threshold us)
        (All-overlaps_of rt threshold a us p h) (All-overlap_candidates rt threshold us h)

  length-set_url :
      (us : List UpstreamResult) (entries : List (Text × UpstreamResult))
      → 1 ≤ length us + length entries
      → 1 ≤ length (set_url entries us)
  length-set_url [] entries n = omega arith
  length-set_url (u ∷ us) entries n =
      length-set_url us (assign u.url u entries) (omega (arith, length-assign u.url u entries))

  length-unique_by_url : (us : List UpstreamResult) → 1 ≤ length us → 1 ≤ length (unique_by_url us)
  unfolding unique_by_url
  length-unique_by_url us n =
      rw (length-map (λ (e : Text × UpstreamResult). e.1) (set_url [] us))
        (length-set_url us [] (omega arith))

  -- The largest group of equal answers.
  pub strongest-FirstOf :
      (us : List UpstreamResult)
      → 1 ≤ length us
      → All P us
      → FirstOf longer_group
          (λ e. Grouped hash_key us e.0 e.1 × All P e.1)
          (group_onto hash_key [] us)
          (first (hash_groups us))
  unfolding hash_groups
  strongest-FirstOf us n h =
      first-sort_by longer_group (λ e. Grouped hash_key us e.0 e.1 × All P e.1)
        longer_group-WeakOrder (group_onto hash_key [] us) (length-group hash_key us n)
        (All-both (λ e. Grouped hash_key us e.0 e.1) (λ e. All P e.1) (group_onto hash_key [] us)
          (group-Grouped hash_key us) (All-group hash_key P us h))

  pub strongest_of-first :
      (groups : List (Text × List UpstreamResult)) (g : Text × List UpstreamResult)
      → first groups ≡ some g
      → strongest_of groups ≡ g.1
  unfolding strongest_of
  strongest_of-first [] g e = cc
  strongest_of-first (x ∷ groups) g e = ground arith

  pub select_successful-Selected :
      (rt : Runtime) (quorum_min threshold ttl_cap : Double) (us : List UpstreamResult)
      → 1 ≤ length us
      → All P us
      → Selected P no_error (select_successful rt quorum_min threshold ttl_cap us)
  unfolding select_successful select_high select_medium
  select_successful-Selected rt quorum_min threshold ttl_cap us n h =
      let f = strongest-FirstOf us n h in
      let same = strongest_of-first (hash_groups us) f.it f.found_it in
      let candidates = overlap_candidates rt threshold us in
      elim (Bool-cases (reaches quorum_min (length (strongest_of (hash_groups us))))) [
        | inl e ↦
            rw (e, same)
              (selection_of-Selected no_error high f.it.1
                (maximum (units 1) (minimum (minimum_of (ttls f.it.1)) ttl_cap)) f.holds.0.occupied
                f.holds.1)
        | inr e ↦ elim (Bool-cases (not (is_empty candidates))) [
          | inl some_overlap ↦
              rw (e, some_overlap)
                (selection_of-Selected no_error medium (unique_by_url candidates)
                  (maximum (units 1) (
                    minimum (minimum (minimum_of (ttls (unique_by_url candidates))) ttl_cap)
                      (units 120)))
                  (length-unique_by_url candidates (length_of_not_empty candidates some_overlap))
                  (All-unique_by_url candidates (All-overlap_candidates rt threshold us h)))
          | inr no_overlap ↦ rw (e, no_overlap) (select_low-Selected ttl_cap us n h)
        ]
      ]

-- What the answers of the servers together can amount to.
pub data Outcome (upstreams : List UpstreamResult) : Result Selection → Type 0 where
  refused :
      All
        (λ u.
          ((is_no_error u.status && not (is_empty u.ips)) ≡ false)
          × (is_nx_domain u.status ≡ false))
        upstreams
      → Outcome upstreams (err "UPSTREAM_FAILED")
  answered :
      {r : Result Selection}
      → Selected
          (λ u. Mem u upstreams × ((is_no_error u.status && not (is_empty u.ips)) ≡ true))
          no_error
          r
      → Outcome upstreams r
  denied :
      {r : Result Selection}
      → All (λ u. (is_no_error u.status && not (is_empty u.ips)) ≡ false) upstreams
      → Selected (λ u. Mem u upstreams × (is_nx_domain u.status ≡ true)) nx_domain r
      → Outcome upstreams r

passing :
    (p : UpstreamResult → Bool) (us : List UpstreamResult)
    → All (λ u. Mem u us × (p u ≡ true)) (filter p us)
passing p us =
    All-both (λ u. Mem u us) (λ u. p u ≡ true) (filter p us)
      (All-filter (λ u. Mem u us) p us (All-Mem us)) (filter-All p us)

pub length_of_empty : {A : Type 0} (xs : List A) → not (is_empty xs) ≡ false → length xs ≡ 0
length_of_empty [] e = refl
length_of_empty (x ∷ xs) e = cc

-- Whatever the servers answered, `selectBest` either throws UPSTREAM_FAILED, and then no server gave an
-- address or NXDOMAIN; or it selects NOERROR with servers that gave addresses; or, if no server gave
-- an address, it selects NXDOMAIN with servers that gave NXDOMAIN. Every selection chooses and considers
-- only servers that were asked, and none of those considered was faster than the chosen one.
pub select_best_outcome :
    (rt : Runtime) (upstreams : List UpstreamResult) (quorum_min threshold ttl_cap : Double)
    → Outcome upstreams (select_best rt upstreams quorum_min threshold ttl_cap)
unfolding select_best select_nx_domain
select_best_outcome rt us quorum_min threshold ttl_cap =
    let good = filter successful us in
    let nx = filter gave_nx_domain us in
    elim (Bool-cases (not (is_empty good))) [
      | inl e ↦ rw e (
          answered (
            select_successful-Selected (λ u. Mem u us × (successful u ≡ true)) rt quorum_min
              threshold ttl_cap good (length_of_not_empty good e) (passing successful us)))
      | inr e ↦
          let bad = All_of_filter successful us (length_of_empty good e) in
          elim (Bool-cases (not (is_empty nx))) [
            | inl some_nx ↦
                rw (e, some_nx)
                  (denied bad (
                    selection_of-Selected (λ u. Mem u us × (gave_nx_domain u ≡ true)) nx_domain
                      (if reaches quorum_min (length nx) then medium else low) nx
                      (maximum (units 1) (minimum (minimum_of (map ttl_or_30 nx)) (units 30)))
                      (length_of_not_empty nx some_nx) (passing gave_nx_domain us)))
            | inr no_nx ↦
                rw (e, no_nx)
                  (refused (
                    All-both (λ u. successful u ≡ false) (λ u. gave_nx_domain u ≡ false) us bad
                      (All_of_filter gave_nx_domain us (length_of_empty nx no_nx))))
          ]
    ]
