-- ===== src/Recursive/Cache.antt =====
-- gateway/src/adapters/recursive.ts, `createRecursiveAdapter`: the cache of the outcomes, its eviction, and what an entry
-- gives to a caller.
pub mod Resolve
pub mod Answer
pub mod Eviction
pub mod Lifecycle
pub mod Reachable
pub mod Load
use decentralized_dns.Prelude.{
  ℕ, zero, suc, ◌*◌, Bool, true, false, ◌&&◌, ◌||◌, not, List, [], ◌∷◌, ◌++◌, map, length, take,
  reverse, Option, some, none, ℤ, leb, String, Text, codes, text_eq, Result, ok, err, ◌>>=◌, ◌>>◌,
  require, if◌then◌else◌,
}
use decentralized_dns.Prelude.Doubles.{
  Double, less, less_or_equal, truthy, maximum, minus, plus, given,
}
use decentralized_dns.Prelude.Maps.{lookup, assign}
use decentralized_dns.Prelude.Sorting.{filter, sort_by}
use decentralized_dns.Recursive.{
  Runtime, ConfidenceLevel, Status, no_error, nx_domain, DnsRecord, UpstreamResult, units, is_empty,
  to_upper_case, normalize_name_for_hash,
}
use decentralized_dns.Recursive.Select.{Selection, is_no_error, select_best}

pub record UpstreamAudit : Type 0 where
  pub url : Text
  pub rtt_ms : ℤ
  pub status : Status
  pub answers_count : ℕ

pub record ChosenUpstream : Type 0 where
  pub url : Text
  pub rtt_ms : ℤ

pub data Source : Type 0 where
  cache upstream stale : Source

pub record RecursiveResolveResult : Type 0 where
  pub name : Text
  pub type : Text
  pub answers : List DnsRecord
  pub ttl_s : Double
  pub source : Source
  pub status : Status
  pub confidence : ConfidenceLevel
  pub upstreams_used : List UpstreamAudit
  pub chosen_upstream : ChosenUpstream
  pub rrset_hash : Text

pub record CacheEntry : Type 0 where
  pub qname : Text
  pub qtype : Text
  pub answers : List DnsRecord
  pub ttl_s : Double
  pub fetched_at : Double
  pub expires_at : Double
  pub stale_until : Double
  pub source_status : Status
  pub confidence : ConfidenceLevel
  pub rrset_hash : Text
  pub upstreams_used : List UpstreamAudit
  pub chosen_upstream : ChosenUpstream

abbrev pub Entries : Type 0
Entries = List (Text × CacheEntry)

pub record RecursiveAdapterConfig : Type 0 where
  pub upstream_doh_urls : List Text
  pub stale_max_s : Double
  pub prefetch_fraction : Double
  pub cache_max_entries : Double
  pub quorum_min : Option Double
  pub overlap_ratio : Option Double
  pub ttl_cap_s : Option Double

-- The constants of an adapter and its maps. A promise in flight is a prefetch, with the entry that
-- it falls back to, or a refresh that callers wait for.
pub record Adapter : Type 0 where
  pub urls : List Text
  pub quorum_min : Double
  pub overlap_threshold : Double
  pub ttl_cap_s : Double
  pub cache : Entries
  pub in_flight : List (Text × Option CacheEntry)

unfoldable pub create_recursive_adapter : RecursiveAdapterConfig → Entries → Result Adapter
unfolding filter
create_recursive_adapter cfg loaded = do
  let urls = filter (λ url. not (is_empty url)) cfg.upstream_doh_urls
  require (not (is_empty urls)) "UPSTREAM_DOH_URLS_EMPTY"
  ok (record {
    urls = urls;
    quorum_min =
        maximum (units 1) (given cfg.quorum_min (if leb 2 (length urls) then units 2 else units 1));
    overlap_threshold = given cfg.overlap_ratio (Double.finite (ℤ.pos 340));
    ttl_cap_s = maximum (units 1) (given cfg.ttl_cap_s (units 300));
    cache = loaded;
    in_flight = [];
  })

-- `map.delete(key)`
unfoldable pub remove {ℓ} : {A : Type ℓ} → Text → List (Text × A) → List (Text × A)
unfolding filter
remove k entries = filter (λ e. not (text_eq e.0 k)) entries

-- `Number(value || default)`
abbrev pub number_default : Double → Double → Double
number_default d default = if truthy d then d else default

abbrev pub older : Text × CacheEntry → Text × CacheEntry → Bool
older a b = less a.1.fetched_at b.1.fetched_at

-- The loop of `evictIfNeeded` from index i on, while i is below the limit.
unfoldable pub evict_from : Double → ℕ → Entries → Entries → Entries
unfolding remove
evict_from limit i [] entries = entries
evict_from limit i ((k, _) ∷ items) entries =
    let rest = evict_from limit (suc i) items (remove k entries) in
    if less (units i) limit then rest else entries

unfoldable pub evict_if_needed : RecursiveAdapterConfig → Entries → Entries
unfolding evict_from sort_by
evict_if_needed cfg entries =
    let max_entries = maximum (units 1) (number_default cfg.cache_max_entries (units 50000)) in
    if less_or_equal (units (length entries)) max_entries
    then entries
    else evict_from (minus (units (length entries)) max_entries) 0 (sort_by older entries) entries

unfoldable pub audit : UpstreamResult → UpstreamAudit
audit u = record {
  url = u.url;
  rtt_ms = u.rtt_ms;
  status = u.status;
  answers_count = u.answers_count;
}

unfoldable pub entry_of :
    RecursiveAdapterConfig → Text → Text → List UpstreamResult → Selection → Double → CacheEntry
unfolding audit
entry_of cfg qname qtype upstreams chosen now = record {
  qname = qname;
  qtype = qtype;
  answers = if is_no_error chosen.status then chosen.chosen.answers else [];
  ttl_s = chosen.ttl_s;
  fetched_at = now;
  expires_at = plus now chosen.ttl_s;
  stale_until =
      plus (plus now chosen.ttl_s)
        (maximum (units 0) (number_default cfg.stale_max_s (units 1800)));
  source_status = chosen.status;
  confidence = chosen.confidence;
  rrset_hash = chosen.chosen.rrset_hash;
  upstreams_used = map audit upstreams;
  chosen_upstream = record { url = chosen.chosen.url; rtt_ms = chosen.chosen.rtt_ms };
}

-- The result that an entry gives, from a source and with a time to live.
unfoldable pub result_of : Text → Text → CacheEntry → Source → Double → RecursiveResolveResult
result_of name type e source ttl_s = record {
  name = name;
  type = type;
  answers = e.answers;
  ttl_s = ttl_s;
  source = source;
  status = e.source_status;
  confidence = e.confidence;
  upstreams_used = e.upstreams_used;
  chosen_upstream = e.chosen_upstream;
  rrset_hash = e.rrset_hash;
}
