-- ===== src/Recursive/Tests.antt =====
-- Runs of the recursive adapter, and its properties at concrete values.
use decentralized_dns.Prelude.{
  ℕ, zero, suc, ◌+◌, ◌*◌, ◌/◌, ◌≤◌, ◌≡◌, refl, Bool, true, false, List, [], ◌∷◌, length, some, none,
  arith, ltb, ◌==◌, ◌↔◌, ◌⊎◌, pos, if◌then◌else◌, Text, codes, text_eq, ok, err, map, trim,
  to_lower_case, ◌-ℤ◌,
}
use decentralized_dns.Prelude.Doubles.{less_or_equal, Double, finite, nan}
use decentralized_dns.Prelude.Maps.{lookup, assign}
use decentralized_dns.Prelude.Groups.{group_onto}
use decentralized_dns.Prelude.Sorting.{filter, sort_by}
use decentralized_dns.Continuity.{includes, unique_after}
use decentralized_dns.Recursive.{
  Runtime, no_error, UpstreamResult, number, string, DohAnswer, high, units, normalize_host,
  to_upper_case, normalize_name_for_hash, number_given, text_or_empty, map_type,
}
use decentralized_dns.Recursive.Extract.{
  DohBody, threw, records_of, normalize_and_extract, query_one_upstream, follow, cname_target,
}
use decentralized_dns.Recursive.Extract.Vouched.{Supported, normalize_and_extract-Supported}
use decentralized_dns.Recursive.Select.{Selection, select_best}
use decentralized_dns.Recursive.Select.Outcome.{Outcome, select_best_outcome}
use decentralized_dns.Recursive.Select.Confidence.{gives, select_best-high_iff}
use decentralized_dns.Recursive.Select.Overlap.{DividesZero, select_best_any_threshold}
use decentralized_dns.Recursive.Cache.{
  RecursiveAdapterConfig, Adapter, CacheEntry, Entries, upstream, create_recursive_adapter,
  evict_if_needed, entry_of,
}
use decentralized_dns.Recursive.Cache.Resolve.{finish_refresh, resolve_recursive}
use decentralized_dns.Recursive.Cache.Eviction.{Evicted, evict_if_needed_lem}
use decentralized_dns.Recursive.Cache.Lifecycle.{
  report, qname, q, when_failing, resolve_recursive_over_time,
}
use decentralized_dns.Recursive.Cache.Reachable.{Step, Reach, SoundCache, Reach-SoundCache}
use decentralized_dns.Recursive.Cache.Load.{
  Storable, status_text, persist, load_cache, load_cache-persist,
}
use decentralized_dns.Recursive.Workers
use decentralized_dns.Recursive.Workers.{set, Pool, begin, concurrency, Run, AllLeft}
use decentralized_dns.Recursive.Workers.Order.{out-results, Run-ends}
use decentralized_dns.Recursive.Select.Limits.{Within, ceiling, select_best-ttl}

text_before : Text → Text → Bool
text_before [] [] = false
text_before [] (b ∷ bs) = true
text_before (a ∷ as_) [] = false
text_before (a ∷ as_) (b ∷ bs) = if a == b then text_before as_ bs else ltb a b

share : ℕ → ℕ → Double
share zero m = units 0
share (suc n) m = finite (pos (suc n * 1000 / m))

floored : Double → Double → Double
floored (finite (pos a)) (finite (pos b)) = units (a * b / 1000000)
floored a b = nan

abbrev plain : Runtime
plain = record {
  hash_hex = λ s. s;
  locale_before = text_before;
  print_number = λ d. codes "0";
  parse_number = λ s. nan;
  quotient = share;
  floor_times = floored;
  to_ascii = λ s. s;
}

runs : Unit {0}
unfolding text_before share floored text_eq lookup assign group_onto filter sort_by includes
    unique_after normalize_name_for_hash normalize_host to_upper_case records_of query_one_upstream
    normalize_and_extract follow cname_target select_best number_given to_lower_case trim
    text_or_empty map_type evict_if_needed resolve_recursive ◌-ℤ◌ begin set
runs = tt

abbrev answer : Text → Text → Text → ℕ → DohAnswer
answer name type rdata ttl = record {
  name = string name;
  type = string type;
  rdata = string rdata;
  ttl = number (units ttl);
}

-- An alias and its address.
abbrev aliased : DohBody
aliased = record {
  status = number (units 0);
  answer = some (
      answer (codes "www.example.com.") (codes "CNAME") (codes "Example.com.") 300
      ∷ answer (codes "example.com") (codes "a") (codes "10.0.0.1") 60
      ∷ []);
}

aliased_answer :
    (normalize_and_extract plain (codes "www.example.com") (codes "A") aliased).ips
    ≡ codes "10.0.0.1" ∷ []
unfolding runs
aliased_answer = refl

-- A server's answer with addresses.
abbrev gave : Text → List Text → ℕ → UpstreamResult
gave url ips ttl = record {
  url = url;
  rtt_ms = pos 20;
  status = no_error;
  chain = [];
  answers =
      map (λ ip. record { name = codes "a.com"; type = codes "A"; rdata = ip; ttl = units ttl })
        ips;
  ips = ips;
  answers_count = length ips;
  ttl_s = units ttl;
  rrset_hash = codes "A|a.com";
}

abbrev two_servers : List UpstreamResult
two_servers =
    gave (codes "https://one") (codes "10.0.0.1" ∷ []) 90
    ∷ gave (codes "https://two") (codes "10.0.0.1" ∷ []) 60
    ∷ []

abbrev silent_servers : List UpstreamResult
silent_servers =
    query_one_upstream plain (codes "https://one") (codes "a.com") (codes "A") threw (pos 2000)
    ∷ query_one_upstream plain (codes "https://two") (codes "a.com") (codes "A") threw (pos 2000)
    ∷ []

abbrev agreed : Selection
agreed = record {
  status = no_error;
  confidence = high;
  chosen = gave (codes "https://one") (codes "10.0.0.1" ∷ []) 90;
  considered = two_servers;
  ttl_s = units 60;
}

agreed_lem : select_best plain two_servers (units 2) (finite (pos 340)) (units 300) ≡ ok agreed
unfolding runs
agreed_lem = refl

silent_lem :
    select_best plain silent_servers (units 2) (finite (pos 340)) (units 300)
    ≡ err "UPSTREAM_FAILED"
unfolding runs
silent_lem = refl

-- A time to live that is no number makes the selection's time to live NaN.
nan_ttl :
    select_best plain
      (record (gave (codes "https://one") (codes "10.0.0.1" ∷ []) 60) { ttl_s = nan } ∷ [])
      (units 1)
      (finite (pos 340))
      (units 300)
    ≡ ok (record {
      status = no_error;
      confidence = high;
      chosen = record (gave (codes "https://one") (codes "10.0.0.1" ∷ []) 60) { ttl_s = nan };
      considered =
          record (gave (codes "https://one") (codes "10.0.0.1" ∷ []) 60) { ttl_s = nan } ∷ [];
      ttl_s = nan;
    })
unfolding runs
nan_ttl = refl

normalize_and_extract-Supported_example :
    Supported
      (records_of plain aliased)
      (codes "www.example.com")
      (codes "A")
      (normalize_and_extract plain (codes "www.example.com") (codes "A") aliased)
normalize_and_extract-Supported_example =
    normalize_and_extract-Supported plain (codes "www.example.com") (codes "A") aliased

select_best_outcome_example :
    Outcome two_servers (select_best plain two_servers (units 2) (finite (pos 340)) (units 300))
select_best_outcome_example =
    select_best_outcome plain two_servers (units 2) (finite (pos 340)) (units 300)

select_best-high_iff_example : (agreed.confidence ≡ high) ↔ (
    (hash : Text) × (less_or_equal (units 2) (units (length (filter (gives hash) two_servers)))
      ≡ true))
select_best-high_iff_example =
    select_best-high_iff plain two_servers (units 2) (finite (pos 340)) (units 300) agreed refl
      agreed_lem

plain-DividesZero : DividesZero plain
unfolding runs
plain-DividesZero = record { zero_over = λ m h. refl }

select_best_any_threshold_example :
    select_best plain two_servers (units 3) (finite (pos 340)) (units 300)
    ≡ select_best plain two_servers (units 3) (finite (pos 990)) (units 300)
select_best_any_threshold_example =
    select_best_any_threshold plain (finite (pos 340)) (finite (pos 990)) plain-DividesZero refl
      refl two_servers (units 3) (units 300)

select_best-ttl_example : Within (ceiling 300000 agreed.status agreed.confidence) agreed.ttl_s
select_best-ttl_example =
    select_best-ttl plain two_servers (units 2) (finite (pos 340)) 300000 agreed (omega arith)
      (refl, (refl, tt)) agreed_lem

abbrev small_config : RecursiveAdapterConfig
small_config = record {
  upstream_doh_urls = codes "https://one" ∷ codes "https://two" ∷ [];
  stale_max_s = units 1800;
  prefetch_fraction = finite (pos 100);
  cache_max_entries = units 2;
  quorum_min = none;
  overlap_ratio = none;
  ttl_cap_s = none;
}

abbrev fresh_adapter : Adapter
fresh_adapter = record {
  urls = codes "https://one" ∷ codes "https://two" ∷ [];
  quorum_min = units 2;
  overlap_threshold = finite (pos 340);
  ttl_cap_s = units 300;
  cache = [];
  in_flight = [];
}

created : create_recursive_adapter small_config [] ≡ ok fresh_adapter
unfolding create_recursive_adapter filter
created = refl

abbrev fetched : ℕ → CacheEntry
fetched n = entry_of small_config (codes "a.com") (codes "A") two_servers agreed (units n)

abbrev three_entries : Entries
three_entries =
    (codes "b.com:A", fetched 20)
    ∷ (codes "a.com:A", fetched 10)
    ∷ (codes "c.com:A", fetched 30)
    ∷ []

evicted_oldest :
    evict_if_needed small_config three_entries
    ≡ (codes "b.com:A", fetched 20) ∷ (codes "c.com:A", fetched 30) ∷ []
unfolding runs
evicted_oldest = refl

evict_if_needed_lem_example :
    (length (evict_if_needed small_config three_entries) ≤ 2)
    × Evicted 1 three_entries (evict_if_needed small_config three_entries)
unfolding entry_of
evict_if_needed_lem_example =
    evict_if_needed_lem small_config 2 three_entries refl (omega arith) (refl, (refl, (refl, tt)))

abbrev a_key : Text
a_key = codes "a.com:A"

resolve_recursive_over_time_example :
    (ad' : Adapter) × (resolve_recursive plain small_config fresh_adapter
        (codes "A.com.")
        (codes "a")
        (units 5)
        two_servers
        (finite (pos 10000))
        true
      ≡ ok (
        ad',
        ok (
            report
              (qname plain small_config (codes "A.com.") (codes "a"))
              (q plain small_config (codes "A.com.") (codes "a"))
              two_servers
              agreed
              upstream
              (finite (pos 60000))),
      ))
    × (ad'' : Adapter) × (resolve_recursive plain small_config ad'
          (codes "A.com.")
          (codes "a")
          (finite (pos 90000))
          silent_servers
          (units 92)
          true
        ≡ ok (
          ad'',
          when_failing
              (report
                (qname plain small_config (codes "A.com.") (codes "a"))
                (q plain small_config (codes "A.com.") (codes "a"))
                two_servers
                agreed)
              70000
              1870000
              90000
              "UPSTREAM_FAILED",
        ))
    × (ad''.cache ≡ ad'.cache)
unfolding runs
resolve_recursive_over_time_example =
    resolve_recursive_over_time plain small_config (codes "A.com.") (codes "a") fresh_adapter 2
      10000 60000 1800000 90000 (units 5) (units 92) two_servers silent_servers agreed true
      "UPSTREAM_FAILED" refl refl refl refl (omega arith) agreed_lem refl refl silent_lem

abbrev after_refresh : Adapter
after_refresh =
    (finish_refresh plain small_config fresh_adapter (codes "a.com") (codes "A") a_key two_servers
      (units 10) true).0

Reach-SoundCache_example : SoundCache small_config 2 after_refresh.cache
Reach-SoundCache_example =
    Reach-SoundCache plain small_config 2 fresh_adapter refl (omega arith) refl (
      Reach.next Reach.here
        (Step.finishes fresh_adapter (codes "a.com") (codes "A") a_key two_servers (units 10) true))

storable : (n : ℕ) → Storable (fetched n)
unfolding entry_of status_text text_eq
storable n = record { ttl = refl; fetched = refl; expires = refl; until = refl; status = refl }

load_cache-persist_run : load_cache plain (units 99) (persist three_entries) ≡ three_entries
load_cache-persist_run =
    load_cache-persist plain (units 99) three_entries
      (storable 20, (storable 10, (storable 30, tt)))

-- Two workers for two servers, the second of which answers first.
abbrev last_pool : Pool
last_pool = record { next = 4; busy = []; idle = 0; out = map some two_servers }

one_order : Run two_servers 3 6 last_pool
unfolding runs
one_order =
    Run.then_step
      (Run.then_step
        (Run.then_step
          (Run.then_step
            (Run.then_step (Run.then_step Run.starts (Workers.Step.takes _ 1 refl (omega arith)))
              (Workers.Step.takes _ 0 refl (omega arith)))
            (Workers.Step.finishes _ [] 1 (0 ∷ []) refl))
          (Workers.Step.leaves _ 0 refl (omega arith)))
        (Workers.Step.finishes _ [] 0 [] refl))
      (Workers.Step.leaves _ 0 refl (omega arith))

out-results_example : last_pool.out ≡ map some two_servers
out-results_example = out-results two_servers 3 6 one_order (refl, refl)

Run-ends_example :
    (length last_pool.busy + last_pool.idle ≤ concurrency 3 2)
    × (6 ≤ 2 * 2 + concurrency 3 2)
    × (((p' : Pool) × Workers.Step two_servers last_pool p')
        ⊎ (AllLeft two_servers last_pool × (◌≡◌ {A = ℕ} 6 (2 * 2 + concurrency 3 2))))
Run-ends_example = Run-ends two_servers 3 6 one_order
