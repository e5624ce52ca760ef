-- ===== src/Recursive/Cache/Lifecycle.antt =====
-- A name over time in the cache of gateway/src/adapters/recursive.ts: fetched, fresh, stale, gone.
use decentralized_dns.Prelude.{
  ℕ, suc, ◌+◌, ◌-◌, ◌≤◌, ◌<◌, ◌≡◌, refl, Bool, true, false, List, [], ◌∷◌, map, length, Option,
  some, none, arith, Bool-cases, inl, inr, ltb, leb, pos, int_laws, if◌then◌else◌, String, Text,
  text_eq, Result, ok, err,
}
use decentralized_dns.Prelude.Doubles.{Double, finite, less, less_or_equal, minus, maximum, given}
use decentralized_dns.Prelude.Maps.{lookup, assign, lookup-assign}
use decentralized_dns.Prelude.Sorting.{filter}
use decentralized_dns.Recursive.{
  Runtime, Status, no_error, nx_domain, failed, DnsRecord, UpstreamResult, units, to_upper_case,
  normalize_name_for_hash,
}
use decentralized_dns.Recursive.Select.{Selection, is_no_error, select_best}
use decentralized_dns.Recursive.Cache.{
  Source, audit, CacheEntry, RecursiveAdapterConfig, Adapter, RecursiveResolveResult, cache,
  upstream, stale, remove, number_default, evict_if_needed, entry_of, result_of,
}
use decentralized_dns.Recursive.Cache.Resolve.{
  start_found, key_of, is_supported, start_resolve, refresh, recover, finish_refresh, settle_failed,
  settle, continue_started, store_selected, resolve_recursive,
}
use decentralized_dns.Recursive.Cache.Eviction.{evict_if_needed_cases}

lookup-remove {ℓ} :
    {A : Type ℓ} (k : Text) (entries : List (Text × A)) → lookup k (remove k entries) ≡ none
unfolding lookup remove filter
lookup-remove k [] = refl
lookup-remove k ((j, a) ∷ entries) = elim (Bool-cases (text_eq j k)) [
  | inl e ↦ rw e (lookup-remove k entries)
  | inr e ↦ rw (e, e) (lookup-remove k entries)
]

length-assign-le {ℓ} :
    {A : Type ℓ} (k : Text) (v : A) (entries : List (Text × A))
    → length (assign k v entries) ≤ suc (length entries)
unfolding assign
length-assign-le k v [] = omega arith
length-assign-le k v ((j, a) ∷ entries) = ground (arith, length-assign-le k v entries)

-- The answers that are told: those of the chosen server, or none for a name that does not exist.
abbrev pub told : Status → List DnsRecord → List DnsRecord
told no_error answers = answers
told _ answers = []

-- What a caller is told of a selection, with every server that was asked.
abbrev pub report :
    Text → Text → List UpstreamResult → Selection → Source → Double → RecursiveResolveResult
report name type upstreams chosen source ttl_s = record {
  name = name;
  type = type;
  answers = told chosen.status chosen.chosen.answers;
  ttl_s = ttl_s;
  source = source;
  status = chosen.status;
  confidence = chosen.confidence;
  upstreams_used =
      map
        (λ (u : UpstreamResult). record {
          url = u.url;
          rtt_ms = u.rtt_ms;
          status = u.status;
          answers_count = u.answers_count;
        })
        upstreams;
  chosen_upstream = record { url = chosen.chosen.url; rtt_ms = chosen.chosen.rtt_ms };
  rrset_hash = chosen.chosen.rrset_hash;
}

told_lem :
    (status : Status) (answers : List DnsRecord)
    → (if is_no_error status then answers else []) ≡ told status answers
told_lem no_error answers = refl
told_lem nx_domain answers = refl
told_lem failed answers = refl

result_of-report :
    (cfg : RecursiveAdapterConfig) (name type : Text) (upstreams : List UpstreamResult)
    (chosen : Selection) (now : Double) (source : Source) (ttl_s : Double)
    → result_of name type (entry_of cfg name type upstreams chosen now) source ttl_s
      ≡ report name type upstreams chosen source ttl_s
unfolding result_of entry_of audit
result_of-report cfg name type upstreams chosen now source ttl_s =
    rw (told_lem chosen.status chosen.chosen.answers)

-- What a caller is given at time t when no server answers, for something that was fetched with a time to
-- live until `fresh_until` and may be served stale until `stale_until`.
unfoldable pub when_failing :
    (Source → Double → RecursiveResolveResult)
    → (fresh_until stale_until t : ℕ) → String
    → Result RecursiveResolveResult
when_failing say fresh_until stale_until t message =
    if ltb t fresh_until
    then ok (say cache (finite (pos (fresh_until - t))))
    else if leb t stale_until
    then ok (say stale (units 0))
    else err message

when_failing-report :
    (cfg : RecursiveAdapterConfig) (name type : Text) (upstreams : List UpstreamResult)
    (chosen : Selection) (now : Double) (f u t : ℕ) (message : String)
    → when_failing (result_of name type (entry_of cfg name type upstreams chosen now)) f u t message
      ≡ when_failing (report name type upstreams chosen) f u t message
unfolding when_failing
when_failing-report cfg name type upstreams chosen now f u t message = rw (
  result_of-report cfg name type upstreams chosen now cache (finite (pos (f - t))),
  result_of-report cfg name type upstreams chosen now stale (units 0),
)

abbrev no_fallback : Option CacheEntry
no_fallback = none

module _ (rt : Runtime) (cfg : RecursiveAdapterConfig) (name qtype : Text) where
  abbrev pub qname : Text
  qname = normalize_name_for_hash rt name

  abbrev pub q : Text
  q = to_upper_case qtype

  abbrev pub k : Text
  k = key_of rt qname q

  module _ (ad : Adapter) (supported : is_supported q ≡ true)
      (idle : lookup k ad.in_flight ≡ none) where
    stored :
        {m : ℕ} {e : CacheEntry}
        → cfg.cache_max_entries ≡ units m
        → length ad.cache < m
        → lookup k (evict_if_needed cfg (assign k e ad.cache)) ≡ some e
    stored {m} {e} limit room =
        let fits : leb (length (assign k e ad.cache)) m ≡ true =
          ground (arith, length-assign-le k e ad.cache) in
        rw (
          evict_if_needed_cases cfg m (assign k e ad.cache) limit (omega arith),
          fits,
          lookup-assign k e ad.cache,
        )

    -- The first call asks the servers and stores what they say.
    resolve_missing :
        (now later : Double) (upstreams : List UpstreamResult) (chosen : Selection) (m : ℕ)
        → cfg.cache_max_entries ≡ units m
        → length ad.cache < m
        → lookup k ad.cache ≡ none
        → select_best rt upstreams ad.quorum_min ad.overlap_threshold ad.ttl_cap_s ≡ ok chosen
        → (ad' : Adapter) × (resolve_recursive rt cfg ad name qtype now upstreams later true
            ≡ ok (
              ad',
              ok (
                  result_of qname q
                    (entry_of cfg qname q upstreams chosen later)
                    upstream
                    chosen.ttl_s),
            ))
          × (lookup k ad'.cache ≡ some (entry_of cfg qname q upstreams chosen later))
          × (lookup k ad'.in_flight ≡ none)
          × (ad'.quorum_min ≡ ad.quorum_min)
          × (ad'.overlap_threshold ≡ ad.overlap_threshold)
          × (ad'.ttl_cap_s ≡ ad.ttl_cap_s)
    unfolding resolve_recursive start_resolve start_found continue_started finish_refresh refresh
        store_selected recover settle
    resolve_missing now later upstreams chosen m limit room missing select = (
      record ad {
        cache =
            evict_if_needed cfg (assign k (entry_of cfg qname q upstreams chosen later) ad.cache);
        in_flight = remove k (assign k (given (lookup k ad.in_flight) none) ad.in_flight);
      },
      rw (supported, missing, idle, select),
      stored limit room,
      lookup-remove k _,
      refl,
      refl,
      refl,
    )

    module _ (e : CacheEntry) (f u t : ℕ) (upstreams : List UpstreamResult) (later : Double)
        (persisted : Bool) (message : String) (expires : e.expires_at ≡ finite (pos f))
        (until : e.stale_until ≡ finite (pos u))
        (failing : select_best rt upstreams ad.quorum_min ad.overlap_threshold ad.ttl_cap_s
          ≡ err message) where
      abbrev outcome : Adapter × Result RecursiveResolveResult
      outcome =
          let started = start_found rt cfg ad qname q k (finite (pos t)) (some e) in
          continue_started rt cfg upstreams later persisted started.0 started.1

      before_expiry : less (finite (pos t)) e.expires_at ≡ ltb t f
      before_expiry = rw expires (ground arith)

      before_end : less_or_equal (finite (pos t)) e.stale_until ≡ leb t u
      before_end = rw until (ground arith)

      time_left : ltb t f ≡ true → minus e.expires_at (finite (pos t)) ≡ finite (pos (f - t))
      time_left h = rw expires (grind int_laws)

      nothing_left :
          ltb t f ≡ false → maximum (units 0) (minus e.expires_at (finite (pos t))) ≡ units 0
      nothing_left h = rw expires (grind int_laws)

      fails_as : outcome.1 ≡ when_failing (result_of qname q e) f u t message
      unfolding start_found continue_started finish_refresh refresh store_selected recover settle
          settle_failed when_failing
      fails_as = elim (Bool-cases (ltb t f)) [
        | inl fresh ↦ rw (before_expiry, fresh, time_left fresh)
        | inr old ↦ elim (Bool-cases (leb t u)) [
          | inl near ↦ rw (
            before_expiry,
            old,
            idle,
            failing,
            lookup-assign k no_fallback ad.in_flight,
            before_end,
            near,
            nothing_left old,
          )
          | inr far ↦ rw (
            before_expiry,
            old,
            idle,
            failing,
            lookup-assign k no_fallback ad.in_flight,
            before_end,
            far,
          )
        ]
      ]

      keeps : outcome.0.cache ≡ ad.cache
      unfolding start_found continue_started finish_refresh refresh store_selected
      keeps = elim (Bool-cases (ltb t f)) [
        | inl fresh ↦ rw (before_expiry, fresh) (ground arith)
        | inr old ↦ rw (before_expiry, old, failing)
      ]

    -- A later call, when the servers fail.
    resolve_stored :
        (e : CacheEntry) (f u t : ℕ) (upstreams : List UpstreamResult) (later : Double)
        (persisted : Bool) (message : String)
        → lookup k ad.cache ≡ some e
        → e.expires_at ≡ finite (pos f)
        → e.stale_until ≡ finite (pos u)
        → select_best rt upstreams ad.quorum_min ad.overlap_threshold ad.ttl_cap_s ≡ err message
        → (ad' : Adapter) × (resolve_recursive rt cfg ad name qtype
              (finite (pos t))
              upstreams
              later
              persisted
            ≡ ok (ad', when_failing (result_of qname q e) f u t message))
          × (ad'.cache ≡ ad.cache)
    unfolding resolve_recursive start_resolve
    resolve_stored e f u t upstreams later persisted message found expires until failing =
        let started = start_found rt cfg ad qname q k (finite (pos t)) (some e) in
        let done = continue_started rt cfg upstreams later persisted started.0 started.1 in
        (
          done.0,
          rw (
            supported,
            found,
            ← fails_as e f u t upstreams later persisted message expires until failing,
          ),
          keeps e f u t upstreams later persisted message expires until failing,
        )

-- The times of an entry that was fetched at time n with a time to live of d.
entry_times :
    (cfg : RecursiveAdapterConfig) (qname qtype : Text) (upstreams : List UpstreamResult)
    (chosen : Selection) (n d w : ℕ)
    → chosen.ttl_s ≡ finite (pos d)
    → maximum (units 0) (number_default cfg.stale_max_s (units 1800)) ≡ finite (pos w)
    → ((entry_of cfg qname qtype upstreams chosen (finite (pos n))).expires_at
        ≡ finite (pos (n + d)))
      × ((entry_of cfg qname qtype upstreams chosen (finite (pos n))).stale_until
          ≡ finite (pos (n + d + w)))
unfolding entry_of
entry_times cfg qname qtype upstreams chosen n d w ttl window =
    (rw ttl (grind int_laws), rw (ttl, window) (grind int_laws))

-- A name of a supported type that is neither cached nor in flight, in an adapter whose cache has room. When the
-- servers answer, the caller gets a report of their selection (the answers of the chosen server, and none for a name
-- that does not exist), at time n and with a time to live d. Afterwards, at any
-- time t at which the servers fail, a caller gets the same answers from the cache with the time
-- that is left before n + d; the same answers as stale ones with a time to live of 0 until n + d + w,
-- where w is the configured time for stale answers; and the failure later than that.
pub resolve_recursive_over_time :
    (rt : Runtime) (cfg : RecursiveAdapterConfig) (name qtype : Text) (ad : Adapter) (m n d w t : ℕ)
    (started later : Double) (upstreams upstreams' : List UpstreamResult) (chosen : Selection)
    (persisted : Bool) (message : String)
    → is_supported (to_upper_case qtype) ≡ true
    → lookup (key_of rt (normalize_name_for_hash rt name) (to_upper_case qtype)) ad.in_flight ≡ none
    → lookup (key_of rt (normalize_name_for_hash rt name) (to_upper_case qtype)) ad.cache ≡ none
    → cfg.cache_max_entries ≡ units m
    → length ad.cache < m
    → select_best rt upstreams ad.quorum_min ad.overlap_threshold ad.ttl_cap_s ≡ ok chosen
    → chosen.ttl_s ≡ finite (pos d)
    → maximum (units 0) (number_default cfg.stale_max_s (units 1800)) ≡ finite (pos w)
    → select_best rt upstreams' ad.quorum_min ad.overlap_threshold ad.ttl_cap_s ≡ err message
    → let say = report (qname rt cfg name qtype) (q rt cfg name qtype) upstreams chosen in
      (ad' : Adapter) × (resolve_recursive rt cfg ad name qtype started upstreams
          (finite (pos n))
          true
        ≡ ok (ad', ok (say upstream (finite (pos d)))))
      × (ad'' : Adapter) × (resolve_recursive rt cfg ad' name qtype
            (finite (pos t))
            upstreams'
            later
            persisted
          ≡ ok (ad'', when_failing say (n + d) (n + d + w) t message))
      × (ad''.cache ≡ ad'.cache)
resolve_recursive_over_time rt cfg name qtype ad m n d w t started later upstreams upstreams' chosen
      persisted message supported idle missing limit room select ttl window failing =
    let (ad', first_call, found, idle', same_q, same_t, same_c) =
      resolve_missing rt cfg name qtype ad supported idle started (finite (pos n)) upstreams chosen
        m limit room missing select in
    let (expires, until) =
      entry_times cfg (qname rt cfg name qtype) (q rt cfg name qtype) upstreams chosen n d w ttl
        window in
    let (ad'', second_call, same) =
      resolve_stored rt cfg name qtype ad' supported idle' _ (n + d) (n + d + w) t upstreams' later
        persisted message found expires until (rw (same_q, same_t, same_c) failing) in
    let qn = qname rt cfg name qtype in
    let qt = q rt cfg name qtype in
    (
      ad',
      rw
          (
            ← ttl,
            ← result_of-report cfg qn qt upstreams chosen (finite (pos n)) upstream chosen.ttl_s,
          )
          first_call,
      ad'',
      rw
          (← when_failing-report cfg qn qt upstreams chosen (finite (pos n)) (n + d) (n + d + w) t
            message)
          second_call,
      same,
    )
