-- ===== src/Recursive/Cache/Reachable.antt =====
-- The states that an adapter of gateway/src/adapters/recursive.ts can come to, whatever calls and answers come
-- in whatever order.
use decentralized_dns.Prelude.{
  ℕ, ◌-◌, ◌≤◌, ◌⊎◌, if_both, String, ◌≡◌, refl, sym, ap, ◌∙◌, Bool, ◌&&◌, not, List, [], length,
  Option, some, none, arith, Bool-cases, inl, inr, leb, Text, Result, ok, err, take,
}
use decentralized_dns.Prelude.All.{All}
use decentralized_dns.Prelude.Doubles.{Double, less, minus, plus, maximum}
use decentralized_dns.Prelude.Maps.{lookup, assign, All-assign}
use decentralized_dns.Prelude.Sorting.{sort_by, All-filter}
use decentralized_dns.Recursive.{
  Runtime, UpstreamResult, Status, no_error, nx_domain, units, to_upper_case,
  normalize_name_for_hash,
}
use decentralized_dns.Recursive.Select.{Selection}
use decentralized_dns.Recursive.Select.Outcome.{
  Outcome, refused, answered, denied, Selected, selected, select_best_outcome,
}
use decentralized_dns.Recursive.Cache.{
  CacheEntry, Entries, RecursiveAdapterConfig, Adapter, number_default, evict_if_needed, older,
  entry_of,
}
use decentralized_dns.Recursive.Cache.Resolve.{
  Started, has_key, prefetch_threshold, start_found, key_of, is_supported, start_resolve, refresh,
  store_selected, finish_refresh,
}
use decentralized_dns.Recursive.Cache.Eviction.{
  evict_if_needed_cases, remove_all-filter, hit, leb-false, length-remove_all,
}

-- A call of `resolveRecursive` runs up to its first `await`, or the servers have answered to a refresh.
pub data Step (rt : Runtime) (cfg : RecursiveAdapterConfig) : Adapter → Adapter → Type 0 where
  starts :
      (ad ad' : Adapter) (started : Started) (name qtype : Text) (now : Double)
      → start_resolve rt cfg ad name qtype now ≡ ok (started, ad')
      → Step rt cfg ad ad'
  finishes :
      (ad : Adapter) (qname qtype k : Text) (upstreams : List UpstreamResult) (now : Double)
      (persisted : Bool)
      → Step rt cfg ad (finish_refresh rt cfg ad qname qtype k upstreams now persisted).0

pub data Reach (rt : Runtime) (cfg : RecursiveAdapterConfig) (first : Adapter)
    : Adapter → Type 0 where
  here : Reach rt cfg first first
  next : {ad ad' : Adapter} → Reach rt cfg first ad → Step rt cfg ad ad' → Reach rt cfg first ad'

-- What `refresh` stores: the outcome of a question that was answered, without answers for NXDOMAIN, fresh
-- for its time to live and stale for the configured time after that.
pub record SoundEntry (cfg : RecursiveAdapterConfig) (e : CacheEntry) : Type 0 where
  pub status : (e.source_status ≡ no_error) ⊎ ((e.source_status ≡ nx_domain) × (e.answers ≡ []))
  pub expires : e.expires_at ≡ plus e.fetched_at e.ttl_s
  pub until :
      e.stale_until
      ≡ plus e.expires_at (maximum (units 0) (number_default cfg.stale_max_s (units 1800)))

pub record SoundCache (cfg : RecursiveAdapterConfig) (m : ℕ) (entries : Entries) : Type 0 where
  pub bounded : length entries ≤ m
  pub sound : All (λ e. SoundEntry cfg e.1) entries

start_found-cache :
    (rt : Runtime) (cfg : RecursiveAdapterConfig) (ad : Adapter) (qname q k : Text) (now : Double)
    (found : Option CacheEntry)
    → (start_found rt cfg ad qname q k now found).1.cache ≡ ad.cache
unfolding start_found
start_found-cache rt cfg ad qname q k now none = refl
start_found-cache rt cfg ad qname q k now (some e) = elim (Bool-cases (less now e.expires_at)) [
  | inl fresh ↦ rw fresh (
      if_both (λ (a : Adapter). a.cache ≡ ad.cache)
        (less (minus e.expires_at now) (prefetch_threshold rt cfg e)
          && not (has_key k ad.in_flight))
        refl refl)
  | inr old ↦ rw old
]

ok_injective :
    (a b : Started × Adapter) → ◌≡◌ {A = Result (Started × Adapter)} (ok a) (ok b) → a ≡ b
ok_injective a b e = cc

err_of_ok :
    (message : String) (a : Started × Adapter)
    → ◌≡◌ {A = Result (Started × Adapter)} (err message) (ok a)
    → ⊥
err_of_ok message a e = cc

start_resolve-cache :
    (rt : Runtime) (cfg : RecursiveAdapterConfig) (ad ad' : Adapter) (started : Started)
    (name qtype : Text) (now : Double)
    → start_resolve rt cfg ad name qtype now ≡ ok (started, ad')
    → ad'.cache ≡ ad.cache
unfolding start_resolve
start_resolve-cache rt cfg ad ad' started name qtype now e =
    let qname = normalize_name_for_hash rt name in
    let q = to_upper_case qtype in
    let k = key_of rt qname q in
    elim (Bool-cases (is_supported q)) [
      | inl s ↦
          let same = ok_injective _ _ (rw s at e) in
          sym (ap (λ (p : Started × Adapter). p.1.cache) same)
          ∙ start_found-cache rt cfg ad qname q k now (lookup k ad.cache)
      | inr s ↦ absurd (err_of_ok _ _ (rw s at e))
    ]

evict-SoundCache :
    (cfg : RecursiveAdapterConfig) (m : ℕ) (entries : Entries)
    → cfg.cache_max_entries ≡ units m
    → 1 ≤ m
    → All (λ e. SoundEntry cfg e.1) entries
    → SoundCache cfg m (evict_if_needed cfg entries)
evict-SoundCache cfg m entries limit h sound = elim (Bool-cases (leb (length entries) m)) [
  | inl fits ↦
      rw (evict_if_needed_cases cfg m entries limit h, fits)
        (record { bounded = ground arith; sound = sound })
  | inr full ↦
      let gone = take (length entries - m) (sort_by older entries) in
      rw (evict_if_needed_cases cfg m entries limit h, full)
        (record {
          bounded = omega (
            arith,
            length-remove_all (length entries - m) entries,
            leb-false (length entries) m full,
          );
          sound =
              rw (remove_all-filter gone entries)
                (All-filter (λ e. SoundEntry cfg e.1) (λ e. not (hit gone e)) entries sound);
        })
]

Selected-status :
    (P : UpstreamResult → Type 0) (status : Status) (r : Result Selection) (s : Selection)
    → Selected P status r
    → r ≡ ok s
    → s.status ≡ status
Selected-status P status r s (selected s' h _ _ _) e =
    let same : s' ≡ s = cc in sym (ap (λ (x : Selection). x.status) same) ∙ h

Outcome-status :
    (us : List UpstreamResult) (r : Result Selection) (s : Selection)
    → Outcome us r
    → r ≡ ok s
    → (s.status ≡ no_error) ⊎ (s.status ≡ nx_domain)
Outcome-status us r s (refused _) e = cc
Outcome-status us r s (answered h) e = inl (Selected-status _ no_error r s h e)
Outcome-status us r s (denied _ h) e = inr (Selected-status _ nx_domain r s h e)

entry_of-SoundEntry :
    (cfg : RecursiveAdapterConfig) (qname qtype : Text) (us : List UpstreamResult) (s : Selection)
    (now : Double)
    → (s.status ≡ no_error) ⊎ (s.status ≡ nx_domain)
    → SoundEntry cfg (entry_of cfg qname qtype us s now)
unfolding entry_of
entry_of-SoundEntry cfg qname qtype us s now (inl h) = record {
  status = inl h;
  expires = refl;
  until = refl;
}
entry_of-SoundEntry cfg qname qtype us s now (inr h) = record {
  status = inr (h, rw h);
  expires = refl;
  until = refl;
}

-- What `refresh` leaves, for each outcome of the selection.
store_selected-SoundCache :
    (cfg : RecursiveAdapterConfig) (m : ℕ) (entries : Entries) (qname qtype k : Text)
    (us : List UpstreamResult) (now : Double) (persisted : Bool) (r : Result Selection)
    → cfg.cache_max_entries ≡ units m
    → 1 ≤ m
    → SoundCache cfg m entries
    → Outcome us r
    → SoundCache cfg m (store_selected cfg entries qname qtype k us now persisted r).0
unfolding store_selected
store_selected-SoundCache cfg m entries qname qtype k us now persisted (err message) limit h c o = c
store_selected-SoundCache cfg m entries qname qtype k us now persisted (ok s) limit h c o =
    let e = entry_of cfg qname qtype us s now in
    evict-SoundCache cfg m (assign k e entries) limit h (
      All-assign (λ _ v. SoundEntry cfg v) k e entries
        (entry_of-SoundEntry cfg qname qtype us s now (Outcome-status us (ok s) s o refl)) c.sound)

Step-SoundCache :
    (rt : Runtime) (cfg : RecursiveAdapterConfig) (m : ℕ) {ad ad' : Adapter}
    → cfg.cache_max_entries ≡ units m
    → 1 ≤ m
    → Step rt cfg ad ad'
    → SoundCache cfg m ad.cache
    → SoundCache cfg m ad'.cache
unfolding finish_refresh refresh
Step-SoundCache rt cfg m limit h (starts ad ad' started name qtype now e) c =
    rw (start_resolve-cache rt cfg ad ad' started name qtype now e) c
Step-SoundCache rt cfg m limit h (finishes ad qname qtype k us now persisted) c =
    store_selected-SoundCache cfg m ad.cache qname qtype k us now persisted _ limit h c
      (select_best_outcome rt us ad.quorum_min ad.overlap_threshold ad.ttl_cap_s)

-- For a limit that is a whole number above 0 and a first cache that is empty: in every state that calls
-- and the answers of the servers lead to, in any order, the cache holds at most as many entries as
-- the limit says; and every entry holds an answered question, without answers for NXDOMAIN, expires its
-- time to live after it was fetched, and may be served stale for the configured time after that.
pub Reach-SoundCache :
    (rt : Runtime) (cfg : RecursiveAdapterConfig) (m : ℕ) (first : Adapter) {ad : Adapter}
    → cfg.cache_max_entries ≡ units m
    → 1 ≤ m
    → first.cache ≡ []
    → Reach rt cfg first ad
    → SoundCache cfg m ad.cache
Reach-SoundCache rt cfg m first limit h empty here =
    rw empty (record { bounded = omega arith; sound = tt })
Reach-SoundCache rt cfg m first limit h empty (next r s) =
    Step-SoundCache rt cfg m limit h s (Reach-SoundCache rt cfg m first limit h empty r)
