-- ===== src/Recursive/Cache/Resolve.antt =====
-- resolveRecursive of gateway/src/adapters/recursive.ts: the answer to a name from the cache, from the servers, or from
-- what is stale. A call runs in pieces, as the event loop runs it: `start_resolve` up to its first `await`, `finish_refresh`
-- when the servers have answered, and `settle` when the awaited promise is done.
use decentralized_dns.Prelude.{
  Bool, true, false, ◌&&◌, ◌||◌, not, List, ◌++◌, Option, some, none, ℤ, String, Text, codes,
  text_eq, Result, ok, err, ◌>>=◌, ◌>>◌, require, if◌then◌else◌,
}
use decentralized_dns.Prelude.Doubles.{Double, less, less_or_equal, maximum, minus, given}
use decentralized_dns.Prelude.Maps.{lookup, assign}
use decentralized_dns.Recursive.{
  Runtime, UpstreamResult, units, to_upper_case, normalize_name_for_hash,
}
use decentralized_dns.Recursive.Select.{Selection, select_best}
use decentralized_dns.Recursive.Cache.{
  cache, upstream, stale, RecursiveResolveResult, CacheEntry, Entries, RecursiveAdapterConfig,
  Adapter, number_default, evict_if_needed, entry_of, result_of, remove,
}

-- What a caller waits for: the entry that it found, and the time when it called.
pub record Waiting : Type 0 where
  pub qname : Text
  pub qtype : Text
  pub key : Text
  pub existing : Option CacheEntry
  pub now : Double

pub data Started : Type 0 where
  answered : (result : RecursiveResolveResult) → Started
  waiting : (call : Waiting) → Started

abbrev pub is_fresh : Double → Option CacheEntry → Bool
is_fresh now none = false
is_fresh now (some e) = less now e.expires_at

-- `inFlight.has(key)`
abbrev pub has_key {ℓ} : {A : Type ℓ} → Text → List (Text × A) → Bool
has_key k entries = elim (lookup k entries) [ none ↦ false | some _ ↦ true ]

-- The shortest time that an entry may have left without a prefetch.
unfoldable pub prefetch_threshold : Runtime → RecursiveAdapterConfig → CacheEntry → Double
prefetch_threshold rt cfg e =
    maximum (units 5)
      (rt.floor_times e.ttl_s (number_default cfg.prefetch_fraction (Double.finite (ℤ.pos 100))))

unfoldable pub start_found :
    Runtime
    → RecursiveAdapterConfig
    → Adapter
    → Text
    → Text
    → Text
    → Double
    → Option CacheEntry
    → Started × Adapter
unfolding prefetch_threshold
start_found rt cfg ad qname qtype k now none = (
  waiting (record { qname = qname; qtype = qtype; key = k; existing = none; now = now }),
  record ad { in_flight = assign k (given (lookup k ad.in_flight) none) ad.in_flight },
)
start_found rt cfg ad qname qtype k now (some e) =
    if less now e.expires_at
    then (
      answered (result_of qname qtype e cache (minus e.expires_at now)),
      if less (minus e.expires_at now) (prefetch_threshold rt cfg e) && not (has_key k ad.in_flight)
          then record ad { in_flight = assign k (some e) ad.in_flight }
          else ad,
    )
    else (
      waiting (record { qname = qname; qtype = qtype; key = k; existing = some e; now = now }),
      record ad { in_flight = assign k (given (lookup k ad.in_flight) none) ad.in_flight },
    )

-- `key(name, qtype)`
unfoldable pub key_of : Runtime → Text → Text → Text
unfolding normalize_name_for_hash to_upper_case
key_of rt name qtype = normalize_name_for_hash rt name ++ codes ":" ++ to_upper_case qtype

abbrev pub is_supported : Text → Bool
is_supported q = text_eq q (codes "A") || text_eq q (codes "AAAA")

-- `resolveRecursive` up to its first `await`. A new promise is one that starts a refresh.
unfoldable pub start_resolve :
    Runtime → RecursiveAdapterConfig → Adapter → Text → Text → Double → Result (Started × Adapter)
unfolding start_found key_of
start_resolve rt cfg ad name qtype now = do
  let qname = normalize_name_for_hash rt name
  let q = to_upper_case qtype
  require (is_supported q) "Unsupported qtype"
  let k = key_of rt qname q
  ok (start_found rt cfg ad qname q k now (lookup k ad.cache))

-- What `refresh` does once the servers have answered: the new cache, and its result. `persisted`
-- says whether the file could be written.
unfoldable pub store_selected :
    RecursiveAdapterConfig
    → Entries
    → Text
    → Text
    → Text
    → List UpstreamResult
    → Double
    → Bool
    → Result Selection
    → Entries × Result RecursiveResolveResult
unfolding entry_of evict_if_needed result_of
store_selected cfg entries qname qtype k upstreams now persisted (err message) =
    (entries, err message)
store_selected cfg entries qname qtype k upstreams now persisted (ok chosen) =
    let e = entry_of cfg qname qtype upstreams chosen now in
    (
      evict_if_needed cfg (assign k e entries),
      if persisted then ok (result_of qname qtype e upstream e.ttl_s) else err "write failed",
    )

unfoldable pub refresh :
    Runtime
    → RecursiveAdapterConfig
    → Adapter
    → Text
    → Text
    → Text
    → List UpstreamResult
    → Double
    → Bool
    → Entries × Result RecursiveResolveResult
unfolding store_selected
refresh rt cfg ad qname qtype k upstreams now persisted =
    store_selected cfg ad.cache qname qtype k upstreams now persisted
      (select_best rt upstreams ad.quorum_min ad.overlap_threshold ad.ttl_cap_s)

-- The `catch` of a prefetch; a refresh that callers wait for has none.
unfoldable pub recover :
    Text
    → Text
    → Option CacheEntry
    → Double
    → Result RecursiveResolveResult
    → Result RecursiveResolveResult
recover qname qtype fallback now (ok result) = ok result
recover qname qtype none now (err message) = err message
recover qname qtype (some e) now (err message) =
    ok (result_of qname qtype e stale (maximum (units 0) (minus e.expires_at now)))

-- The promise of a key is done and leaves the map of those in flight.
unfoldable pub finish_refresh :
    Runtime
    → RecursiveAdapterConfig
    → Adapter
    → Text
    → Text
    → Text
    → List UpstreamResult
    → Double
    → Bool
    → Adapter × Result RecursiveResolveResult
unfolding refresh recover
finish_refresh rt cfg ad qname qtype k upstreams now persisted =
    let done = refresh rt cfg ad qname qtype k upstreams now persisted in
    (
      record ad { cache = done.0; in_flight = remove k ad.in_flight },
      recover qname qtype (given (lookup k ad.in_flight) none) now done.1,
    )

-- What a waiting caller is given.
unfoldable pub settle_failed : Waiting → String → Option CacheEntry → Result RecursiveResolveResult
settle_failed call message none = err message
settle_failed call message (some e) =
    if less_or_equal call.now e.stale_until
    then ok
        (result_of call.qname call.qtype e stale (maximum (units 0) (minus e.expires_at call.now)))
    else err message

unfoldable pub settle : Waiting → Result RecursiveResolveResult → Result RecursiveResolveResult
unfolding settle_failed
settle call (ok result) = ok result
settle call (err message) = settle_failed call message call.existing

-- The rest of a call: nothing, if it was answered.
unfoldable pub continue_started :
    Runtime
    → RecursiveAdapterConfig
    → List UpstreamResult
    → Double
    → Bool
    → Started
    → Adapter
    → Adapter × Result RecursiveResolveResult
unfolding finish_refresh settle
continue_started rt cfg upstreams later persisted (answered result) ad = (ad, ok result)
continue_started rt cfg upstreams later persisted (waiting call) ad =
    let done = finish_refresh rt cfg ad call.qname call.qtype call.key upstreams later persisted in
    (done.0, settle call done.1)

-- A call of `resolveRecursive` that nothing else runs between.
unfoldable pub resolve_recursive :
    Runtime
    → RecursiveAdapterConfig
    → Adapter
    → Text
    → Text
    → Double
    → List UpstreamResult
    → Double
    → Bool
    → Result (Adapter × Result RecursiveResolveResult)
unfolding start_resolve continue_started
resolve_recursive rt cfg ad name qtype now upstreams later persisted = do
  (started, ad') ← start_resolve rt cfg ad name qtype now
  ok (continue_started rt cfg upstreams later persisted started ad')
