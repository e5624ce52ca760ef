-- ===== src/Recursive/Extract/Vouched.antt =====
-- Which records `normalizeAndExtract` of gateway/src/adapters/recursive.ts takes for the answer.
use mathlib.Core.List.{Mem}
use decentralized_dns.Prelude.{
  ℕ, zero, suc, ◌≤◌, ◌≡◌, refl, Bool, true, ◌&&◌, not, List, [], ◌∷◌, length, Option, some, none,
  arith, Bool-cases, if_both, ◌⊎◌, inl, inr, Text, codes, text_eq,
}
use decentralized_dns.Prelude.All.{All, All-zip, All-map}
use decentralized_dns.Prelude.Doubles.{Double}
use decentralized_dns.Prelude.Groups.{bucket_of, group_onto, bucket_of-group, with_key}
use decentralized_dns.Prelude.Sorting.{filter, filter-All, All-filter, All-Mem}
use decentralized_dns.Continuity.{includes}
use decentralized_dns.Recursive.{
  Runtime, Status, DnsRecord, normalize_host, number_given, units, is_number, is_empty,
}
use decentralized_dns.Recursive.Extract.{
  DohBody, Extracted, has_type, name_of, cname_target, candidates, hop, follow, records_of,
  no_answers, usable_of, extract_answers, normalize_and_extract,
}

-- A record of the response that gives the target for the name.
pub record Alias (records : List DnsRecord) (name target : Text) : Type 0 where
  pub it : DnsRecord
  pub member : Mem it records
  pub is_cname : text_eq it.type (codes "CNAME") ≡ true
  pub owner : text_eq it.name name ≡ true
  pub points : target ≡ normalize_host it.rdata

-- The chain leads from a name to an end, each step by a CNAME record of the response.
abbrev pub Linked : List DnsRecord → Text → List Text → Text → Type 0
Linked records name [] end = name ≡ end
Linked records name (target ∷ chain) end =
    Alias records name target × Linked records target chain end

-- A record of the response, of a type, with one of two owners.
pub record Vouched (records : List DnsRecord) (qtype qname end : Text) (r : DnsRecord)
    : Type 0 where
  pub member : Mem r records
  pub right_type : text_eq r.type qtype ≡ true
  pub owner : (text_eq r.name end ≡ true) ⊎ (text_eq r.name (normalize_host qname) ≡ true)

-- The records of a name and of a type, from the map.
abbrev Owned : List DnsRecord → Text → Text → DnsRecord → Type 0
Owned records type name r =
    Mem r records × (text_eq r.type type ≡ true) × (text_eq r.name name ≡ true)

owned :
    (records : List DnsRecord) (type name : Text)
    → All
        (Owned records type name)
        (filter (has_type type) (bucket_of name_of name (group_onto name_of [] records)))
owned records type name =
    let of_name = filter (with_key name_of name) records in
    rw (bucket_of-group name_of name records) (
      All-zip (λ r. Mem r records × (text_eq r.name name ≡ true)) (λ r. has_type type r ≡ true)
        (Owned records type name) (filter (has_type type) of_name) (λ r h k. (h.0, k, h.1))
        (All-filter (λ r. Mem r records × (text_eq r.name name ≡ true)) (has_type type) of_name
          (All-zip (λ r. Mem r records) (λ r. with_key name_of name r ≡ true)
            (λ r. Mem r records × (text_eq r.name name ≡ true)) of_name (λ r h k. (h, k))
            (All-filter (λ r. Mem r records) (with_key name_of name) records (All-Mem records))
            (filter-All (with_key name_of name) records)))
        (filter-All (has_type type) of_name))

none_of_some : (target : Text) → ◌≡◌ {A = Option Text} none (some target) → ⊥
none_of_some target e = cc

Alias-first :
    (records : List DnsRecord) (name target : Text) (rs : List DnsRecord)
    → All (Owned records (codes "CNAME") name) rs
    → cname_target rs ≡ some target
    → Alias records name target
unfolding cname_target
Alias-first records name target [] h e = cc
Alias-first records name target (r ∷ rs) (h, _) e =
    elim (Bool-cases (is_empty (normalize_host r.rdata))) [
      | inl none_given ↦ absurd (none_of_some target (rw none_given at e))
      | inr given ↦
          let k : some (normalize_host r.rdata) ≡ some target = rw given at e in
          record { it = r; member = h.0; is_cname = h.1; owner = h.2; points = cc }
    ]

hop-Linked :
    (records : List DnsRecord) (name : Text) (onward : Text → List Text × Text)
    (found : Option Text)
    → ((target : Text) → found ≡ some target → Alias records name target)
    → ((target : Text) → Linked records target (onward target).0 (onward target).1)
    → Linked records name (hop name onward found).0 (hop name onward found).1
unfolding hop
hop-Linked records name onward none alias link = refl
hop-Linked records name onward (some target) alias link = (alias target refl, link target)

follow-Linked :
    (records : List DnsRecord) (rounds : ℕ) (visited : List Text) (name : Text)
    → Linked records name
        (follow rounds (group_onto name_of [] records) visited name).0
        (follow rounds (group_onto name_of [] records) visited name).1
unfolding follow
follow-Linked records zero visited name = refl
follow-Linked records (suc rounds) visited name =
    let by_name = group_onto name_of [] records in
    let onward = λ (target : Text). follow rounds by_name (name ∷ visited) target in
    if_both (λ (p : List Text × Text). Linked records name p.0 p.1) (includes visited name) refl
      (hop-Linked records name onward (cname_target (candidates by_name name))
        (λ target e. Alias-first records name target _ (owned records (codes "CNAME") name) e)
        (λ target. follow-Linked records rounds (name ∷ visited) target))

hop-bound :
    (name : Text) (onward : Text → List Text × Text) (found : Option Text) (n : ℕ)
    → ((target : Text) → length (onward target).0 ≤ n)
    → length (hop name onward found).0 ≤ suc n
unfolding hop
hop-bound name onward none n h = omega arith
hop-bound name onward (some target) n h = omega (arith, h target)

follow-bound :
    (rounds : ℕ) (by_name : List (Text × List DnsRecord)) (visited : List Text) (name : Text)
    → length (follow rounds by_name visited name).0 ≤ rounds
unfolding follow
follow-bound zero by_name visited name = omega arith
follow-bound (suc rounds) by_name visited name =
    if_both (λ (p : List Text × Text). length p.0 ≤ suc rounds) (includes visited name)
      (omega arith)
      (hop-bound name (λ (target : Text). follow rounds by_name (name ∷ visited) target) _ rounds
        (λ target. follow-bound rounds by_name (name ∷ visited) target))

both_true : (a b : Bool) → (a && b) ≡ true → (a ≡ true) × (b ≡ true)
both_true a b h = ground arith

usable_of-Vouched :
    (records : List DnsRecord) (qname qtype end : Text)
    → All (Vouched records qtype qname end) (usable_of records qname qtype end)
unfolding usable_of
usable_of-Vouched records qname qtype end =
    let host = normalize_host qname in
    let direct = λ (r : DnsRecord). has_type qtype r && text_eq r.name host in
    if_both (All (Vouched records qtype qname end))
      (is_empty (filter (has_type qtype) (bucket_of name_of end (group_onto name_of [] records))))
      (All-zip (λ r. Mem r records) (λ r. direct r ≡ true) (Vouched records qtype qname end)
        (filter direct records)
        (λ r m d. record {
          member = m;
          right_type = (both_true (has_type qtype r) (text_eq r.name host) d).0;
          owner = inr (both_true (has_type qtype r) (text_eq r.name host) d).1;
        })
        (All-filter (λ r. Mem r records) direct records (All-Mem records))
        (filter-All direct records))
      (All-map (Owned records qtype end) (Vouched records qtype qname end) _
        (λ r h. record { member = h.0; right_type = h.1; owner = inl h.2 })
        (owned records qtype end))

-- What the answer of a server rests on.
pub record Supported (records : List DnsRecord) (qname qtype : Text) (e : Extracted) : Type 0 where
  pub end : Text
  pub linked : Linked records (normalize_host qname) e.chain end
  pub bounded : length e.chain ≤ 10
  pub vouched : All (Vouched records qtype qname end) e.answers
  pub counted : e.answers_count ≡ length e.answers

-- Whatever a server sends: the chain is a chain of CNAME records of the response that starts at the name, with
-- at most 10 targets; and every answer is a record of the response, of the type that was asked for,
-- whose owner is the end of that chain or the name itself.
pub normalize_and_extract-Supported :
    (rt : Runtime) (qname qtype : Text) (json : DohBody)
    → Supported (records_of rt json) qname qtype (normalize_and_extract rt qname qtype json)
unfolding normalize_and_extract extract_answers
normalize_and_extract-Supported rt qname qtype json =
    let records = records_of rt json in
    let code = number_given rt json.status (units 2) in
    let chained = follow 10 (group_onto name_of [] records) [] (normalize_host qname) in
    let nothing = λ (status : Status) (ttl : Double) (hash : Text).
      let p : Supported records qname qtype (no_answers rt status ttl hash) = record {
        end = normalize_host qname;
        linked = refl;
        bounded = omega arith;
        vouched = tt;
        counted = refl;
      } in
      p in
    if_both (Supported records qname qtype) (is_number 3 code) (nothing _ _ _) (
      if_both (Supported records qname qtype) (not (is_number 0 code)) (nothing _ _ _) (record {
        end = chained.1;
        linked = follow-Linked records 10 [] (normalize_host qname);
        bounded = follow-bound 10 (group_onto name_of [] records) [] (normalize_host qname);
        vouched = usable_of-Vouched records qname qtype chained.1;
        counted = refl;
      }))
