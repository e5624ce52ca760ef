-- ===== src/Recursive/Select.antt =====
-- gateway/src/adapters/recursive.ts, `selectBest`: what the answers of the servers together amount to.
pub mod Outcome
pub mod Confidence
pub mod Limits
pub mod Overlap
use decentralized_dns.Prelude.{
  ℕ, zero, suc, ◌+◌, ◌*◌, min, max, Bool, true, false, ◌&&◌, ◌||◌, not, List, [], ◌∷◌, ◌++◌, map,
  length, any, Option, some, none, Text, text_eq, Result, ok, err, ltb, ltb_ℤ, if◌then◌else◌,
}
use decentralized_dns.Prelude.Doubles.{Double, less_or_equal, truthy, maximum, minimum, minimum_of}
use decentralized_dns.Prelude.Groups.{group_onto}
use decentralized_dns.Prelude.Maps.{assign}
use decentralized_dns.Prelude.Sorting.{filter, sort_by, first}
use decentralized_dns.Continuity.{includes, unique_after}
use decentralized_dns.Recursive.{
  Runtime, ConfidenceLevel, high, medium, low, Status, no_error, nx_domain, UpstreamResult, units,
  is_empty,
}

pub record Selection : Type 0 where
  pub status : Status
  pub confidence : ConfidenceLevel
  pub chosen : UpstreamResult
  pub considered : List UpstreamResult
  pub ttl_s : Double

abbrev pub is_no_error : Status → Bool
is_no_error no_error = true
is_no_error _ = false

abbrev pub is_nx_domain : Status → Bool
is_nx_domain nx_domain = true
is_nx_domain _ = false

-- `u.status === "NOERROR" && u.ips.length > 0`
abbrev pub successful : UpstreamResult → Bool
successful u = is_no_error u.status && not (is_empty u.ips)

abbrev pub gave_nx_domain : UpstreamResult → Bool
gave_nx_domain u = is_nx_domain u.status

abbrev pub hash_key : UpstreamResult → Text
hash_key u = u.rrset_hash

-- How many elements of the first set the second has.
unfoldable pub shared_count : List Text → List Text → ℕ
unfolding includes
shared_count sa sb = length (filter (includes sb) sa)

unfoldable pub has_shared_ip : List Text → List Text → Bool
unfolding includes
has_shared_ip a b = if is_empty a || is_empty b then false else any (includes b) a

-- `[...xs].sort((a, b) => a.rttMs - b.rttMs)[0]`
unfoldable pub fastest : List UpstreamResult → Option UpstreamResult
unfolding sort_by
fastest us = first (sort_by (λ a b. ltb_ℤ a.rtt_ms b.rtt_ms) us)

abbrev pub ttls : List UpstreamResult → List Double
ttls us = map (λ u. u.ttl_s) us

-- The groups of equal answers, the largest first.
abbrev pub longer_group : Text × List UpstreamResult → Text × List UpstreamResult → Bool
longer_group a b = ltb (length b.1) (length a.1)

unfoldable pub hash_groups : List UpstreamResult → List (Text × List UpstreamResult)
unfolding group_onto sort_by
hash_groups us = sort_by longer_group (group_onto hash_key [] us)

-- `hashGroups[0] || []`
unfoldable pub strongest_of : List (Text × List UpstreamResult) → List UpstreamResult
strongest_of [] = []
strongest_of ((_, group) ∷ _) = group

abbrev pub set_url :
    List (Text × UpstreamResult) → List UpstreamResult → List (Text × UpstreamResult)
set_url entries [] = entries
set_url entries (c ∷ cs) = set_url (assign c.url c entries) cs

-- `[...uniq.values()]`, the candidates by their URL
unfoldable pub unique_by_url : List UpstreamResult → List UpstreamResult
unfolding assign
unique_by_url candidates = map (λ e. e.1) (set_url [] candidates)

-- A choice with its time to live; were there no server to choose, the caller would fail on `undefined`.
unfoldable pub selection_of :
    Status
    → ConfidenceLevel
    → List UpstreamResult
    → Double
    → Option UpstreamResult
    → Result Selection
selection_of status confidence considered ttl_s none = err "Cannot read properties of undefined"
selection_of status confidence considered ttl_s (some chosen) = ok (record {
  status = status;
  confidence = confidence;
  chosen = chosen;
  considered = considered;
  ttl_s = ttl_s;
})

unfoldable pub select_high : Double → List UpstreamResult → Result Selection
unfolding fastest selection_of
select_high ttl_cap strongest =
    selection_of no_error high strongest
      (maximum (units 1) (minimum (minimum_of (ttls strongest)) ttl_cap)) (fastest strongest)

unfoldable pub select_medium : Double → List UpstreamResult → Result Selection
unfolding fastest unique_by_url selection_of
select_medium ttl_cap candidates =
    let considered = unique_by_url candidates in
    selection_of no_error medium considered
      (maximum (units 1) (minimum (minimum (minimum_of (ttls considered)) ttl_cap) (units 120)))
      (fastest considered)

-- A single answer, alone considered.
unfoldable pub low_of : Double → Option UpstreamResult → Result Selection
low_of ttl_cap none = err "Cannot read properties of undefined"
low_of ttl_cap (some chosen) = ok (record {
  status = no_error;
  confidence = low;
  chosen = chosen;
  considered = chosen ∷ [];
  ttl_s = maximum (units 1) (minimum (minimum chosen.ttl_s ttl_cap) (units 30));
})

unfoldable pub select_low : Double → List UpstreamResult → Result Selection
unfolding fastest low_of
select_low ttl_cap us = low_of ttl_cap (fastest us)

-- `n.ttlS || 30`
abbrev pub ttl_or_30 : UpstreamResult → Double
ttl_or_30 u = if truthy u.ttl_s then u.ttl_s else units 30

-- `count >= quorumMin`
abbrev pub reaches : Double → ℕ → Bool
reaches quorum_min count = less_or_equal quorum_min (units count)

unfoldable pub select_nx_domain : Double → List UpstreamResult → Result Selection
unfolding fastest selection_of
select_nx_domain quorum_min nx =
    selection_of nx_domain (if reaches quorum_min (length nx) then medium else low) nx
      (maximum (units 1) (minimum (minimum_of (map ttl_or_30 nx)) (units 30))) (fastest nx)

module _ (rt : Runtime) where
  unfoldable pub overlap_ratio : List Text → List Text → Double
  unfolding shared_count unique_after
  overlap_ratio a b =
      let sa = unique_after [] a in
      let sb = unique_after [] b in
      if is_empty a || is_empty b
      then units 0
      else rt.quotient (shared_count sa sb) (max 1 (min (length sa) (length sb)))

  abbrev pub overlaps : Double → UpstreamResult → UpstreamResult → Bool
  overlaps threshold a b =
      has_shared_ip a.ips b.ips || less_or_equal threshold (overlap_ratio a.ips b.ips)

  -- The inner loop: the pairs of one server with those after it.
  unfoldable pub overlaps_of : Double → UpstreamResult → List UpstreamResult → List UpstreamResult
  unfolding has_shared_ip overlap_ratio
  overlaps_of threshold a [] = []
  overlaps_of threshold a (b ∷ rest) =
      let later = overlaps_of threshold a rest in
      if overlaps threshold a b then a ∷ b ∷ later else later

  unfoldable pub overlap_candidates : Double → List UpstreamResult → List UpstreamResult
  unfolding overlaps_of
  overlap_candidates threshold [] = []
  overlap_candidates threshold (a ∷ rest) =
      overlaps_of threshold a rest ++ overlap_candidates threshold rest

  unfoldable pub select_successful :
      Double → Double → Double → List UpstreamResult → Result Selection
  unfolding hash_groups strongest_of select_high select_medium select_low overlap_candidates
  select_successful quorum_min threshold ttl_cap us =
      let strongest = strongest_of (hash_groups us) in
      let candidates = overlap_candidates threshold us in
      if reaches quorum_min (length strongest)
      then select_high ttl_cap strongest
      else if not (is_empty candidates)
      then select_medium ttl_cap candidates
      else select_low ttl_cap us

  unfoldable pub select_best : List UpstreamResult → Double → Double → Double → Result Selection
  unfolding select_successful select_nx_domain filter
  select_best upstreams quorum_min threshold ttl_cap =
      if not (is_empty (filter successful upstreams))
      then select_successful quorum_min threshold ttl_cap (filter successful upstreams)
      else if not (is_empty (filter gave_nx_domain upstreams))
      then select_nx_domain quorum_min (filter gave_nx_domain upstreams)
      else err "UPSTREAM_FAILED"
