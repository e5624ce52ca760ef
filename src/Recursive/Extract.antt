-- ===== src/Recursive/Extract.antt =====
-- gateway/src/adapters/recursive.ts, `normalizeAndExtract` and `queryOneUpstream`: from the JSON body of a
-- server to the addresses of a name, along its chain of CNAME records.
pub mod Vouched
use decentralized_dns.Prelude.{
  ℕ, zero, suc, Bool, true, false, ◌&&◌, not, List, [], ◌∷◌, ◌++◌, map, length, Option, some, none,
  ℤ, Text, codes, text_eq, if◌then◌else◌,
}
use decentralized_dns.Prelude.Doubles.{Double, maximum}
use decentralized_dns.Prelude.Groups.{bucket_of, group_onto}
use decentralized_dns.Prelude.Sorting.{filter, sort_by}
use decentralized_dns.Continuity.{includes, unique_after}
use decentralized_dns.Recursive.{
  Runtime, Status, no_error, nx_domain, failed, DnsRecord, UpstreamResult, Json, undefined,
  DohAnswer, units, is_empty, is_number, normalize_host, min_ttl, text_or_empty, map_type,
  number_or, number_given,
}

-- The body of a response: `Status`, and `Answer` if it is an array.
pub record DohBody : Type 0 where
  pub status : Json
  pub answer : Option (List DohAnswer)

-- What `normalizeAndExtract` picks of an `UpstreamResult`.
pub record Extracted : Type 0 where
  pub status : Status
  pub chain : List Text
  pub answers : List DnsRecord
  pub ips : List Text
  pub answers_count : ℕ
  pub ttl_s : Double
  pub rrset_hash : Text

-- What `fetch` did: it threw (also by the timeout, or because the body is no JSON), or it gave a
-- response whose status is no success, or a body.
pub data Fetched : Type 0 where
  threw : Fetched
  http_error : (status : Double) → Fetched
  body : (json : DohBody) → Fetched

abbrev pub is_complete : DnsRecord → Bool
is_complete r = not (is_empty r.name) && not (is_empty r.type) && not (is_empty r.rdata)

abbrev pub has_type : Text → DnsRecord → Bool
has_type qtype r = text_eq r.type qtype

abbrev pub name_of : DnsRecord → Text
name_of r = r.name

-- The target of the first CNAME record among the candidates, if it is not empty.
unfoldable pub cname_target : List DnsRecord → Option Text
cname_target [] = none
cname_target (r ∷ _) =
    let target = normalize_host r.rdata in if is_empty target then none else some target

-- The records of a name are the array of the name in `byName`.
abbrev pub candidates : List (Text × List DnsRecord) → Text → List DnsRecord
candidates by_name current = filter (has_type (codes "CNAME")) (bucket_of name_of current by_name)

-- One hop, with what the loop does from the target on.
unfoldable pub hop : Text → (Text → List Text × Text) → Option Text → List Text × Text
hop current onward none = ([], current)
hop current onward (some target) = (target ∷ (onward target).0, (onward target).1)

-- The loop over the chain, with the rounds that are left: the targets pushed, and `current` at the end.
unfoldable pub follow : ℕ → List (Text × List DnsRecord) → List Text → Text → List Text × Text
unfolding hop
follow zero by_name visited current = ([], current)
follow (suc rounds) by_name visited current =
    let onward = λ (target : Text). follow rounds by_name (current ∷ visited) target in
    if includes visited current
    then ([], current)
    else hop current onward (cname_target (candidates by_name current))

abbrev pub join_comma : List Text → Text
join_comma [] = []
join_comma (x ∷ []) = x
join_comma (x ∷ y ∷ rest) = x ++ codes "," ++ join_comma (y ∷ rest)

unfoldable pub usable_of : List DnsRecord → Text → Text → Text → List DnsRecord
usable_of records qname qtype current =
    let final_answers =
      filter (has_type qtype) (bucket_of name_of current (group_onto name_of [] records)) in
    if is_empty final_answers
    then filter (λ r. has_type qtype r && text_eq r.name (normalize_host qname)) records
    else final_answers

module _ (rt : Runtime) where
  unfoldable pub to_record : DohAnswer → DnsRecord
  to_record a = record {
    name = normalize_host (text_or_empty rt a.name);
    type = map_type rt a.type;
    rdata = text_or_empty rt a.rdata;
    ttl = maximum (units 1) (number_or rt a.ttl (units 60));
  }

  unfoldable pub records_of : DohBody → List DnsRecord
  unfolding to_record
  records_of json = elim json.answer [
    | none ↦ []
    | some answers ↦ filter is_complete (map (to_record) answers)
  ]

  -- `hashHex(`${qtype}|${…}|${…}`)`
  abbrev pub hash_of : Text → Text → Text → Text
  hash_of qtype name end = rt.hash_hex (qtype ++ codes "|" ++ name ++ codes "|" ++ end)

  -- A result without answers.
  abbrev pub no_answers : Status → Double → Text → Extracted
  no_answers status ttl_s rrset_hash = record {
    status = status;
    chain = [];
    answers = [];
    ips = [];
    answers_count = 0;
    ttl_s = ttl_s;
    rrset_hash = rrset_hash;
  }

  -- `[...new Set(usable.map((r) => r.data))].sort((a, b) => a.localeCompare(b))`
  unfoldable pub ips_of : List DnsRecord → List Text
  ips_of usable = sort_by rt.locale_before (unique_after [] (map (λ r. r.rdata) usable))

  unfoldable pub extract_answers : List DnsRecord → Text → Text → Extracted
  unfolding usable_of ips_of
  extract_answers records qname qtype =
      let (chain, current) = follow 10 (group_onto name_of [] records) [] (normalize_host qname) in
      let usable = usable_of records qname qtype current in
      record {
        status = no_error;
        chain = chain;
        answers = usable;
        ips = ips_of usable;
        answers_count = length usable;
        ttl_s = min_ttl usable (units 60);
        rrset_hash = hash_of qtype current (join_comma (ips_of usable));
      }

  unfoldable pub normalize_and_extract : Text → Text → DohBody → Extracted
  unfolding extract_answers
  normalize_and_extract qname qtype json =
      let status_code = number_given rt json.status (units 2) in
      if is_number 3 status_code
      then no_answers nx_domain (units 30) (hash_of qtype (normalize_host qname) (codes "NXDOMAIN"))
      else if not (is_number 0 status_code)
      then no_answers failed (units 1) (hash_of qtype (normalize_host qname) (codes "ERROR"))
      else extract_answers (records_of json) qname qtype

  -- `{ url, rttMs, ...extracted }`
  abbrev pub spread : Text → ℤ → Extracted → UpstreamResult
  spread url rtt_ms e = record {
    url = url;
    rtt_ms = rtt_ms;
    status = e.status;
    chain = e.chain;
    answers = e.answers;
    ips = e.ips;
    answers_count = e.answers_count;
    ttl_s = e.ttl_s;
    rrset_hash = e.rrset_hash;
  }

  -- The result of one server, from what `fetch` did and the time that it took.
  unfoldable pub query_one_upstream : Text → Text → Text → Fetched → ℤ → UpstreamResult
  unfolding normalize_and_extract
  query_one_upstream upstream qname qtype threw rtt_ms =
      spread upstream rtt_ms
        (no_answers failed (units 1) (hash_of qtype (normalize_host qname) (codes "TIMEOUT")))
  query_one_upstream upstream qname qtype (http_error status) rtt_ms = spread upstream rtt_ms (
      no_answers failed (units 1)
        (hash_of qtype (normalize_host qname) (codes "HTTP_" ++ rt.print_number status)))
  query_one_upstream upstream qname qtype (body json) rtt_ms =
      spread upstream rtt_ms (normalize_and_extract qname qtype json)
