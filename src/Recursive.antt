-- ===== src/Recursive.antt =====
-- gateway/src/adapters/recursive.ts: the adapter that asks several DNS-over-HTTPS servers, weighs their
-- answers and keeps the outcome in a cache; here its data types and helpers. A number of seconds or
-- a ratio is a `Double` in thousandths; texts are lists of code units.
pub mod Extract
pub mod Select
pub mod Cache
pub mod Workers
mod Tests
use decentralized_dns.Prelude.{
  ℕ, zero, ◌-◌, ◌*◌, Bool, true, false, ◌&&◌, ◌||◌, not, List, [], ◌∷◌, map, reverse, leb, ◌==◌, ℤ,
  pos, Text, codes, text_eq, trim, to_lower_case, if◌then◌else◌,
}
use decentralized_dns.Prelude.Doubles.{
  Double, finite, nan, infinity, neg_infinity, less, less_or_equal, truthy, maximum, minimum,
  minimum_of,
}

-- What the code takes from the language's runtime and from punycode: SHA-256 of a text in hexadecimal, whether
-- `a.localeCompare(b)` is negative, numbers printed and read, the quotient of two counts, the floor
-- of a product, and `punycode.toASCII`.
pub record Runtime : Type 0 where
  pub hash_hex : Text → Text
  pub locale_before : Text → Text → Bool
  pub print_number : Double → Text
  pub parse_number : Text → Double
  pub quotient : ℕ → ℕ → Double
  pub floor_times : Double → Double → Double
  pub to_ascii : Text → Text

-- A whole number.
abbrev pub units : ℕ → Double
units n = finite (pos (n * 1000))

pub data ConfidenceLevel : Type 0 where
  high medium low : ConfidenceLevel

pub data Status : Type 0 where
  no_error nx_domain failed : Status

pub record DnsRecord : Type 0 where
  pub name : Text
  pub type : Text
  pub rdata : Text
  pub ttl : Double

pub record UpstreamResult : Type 0 where
  pub url : Text
  pub rtt_ms : ℤ
  pub status : Status
  pub chain : List Text
  pub answers : List DnsRecord
  pub ips : List Text
  pub answers_count : ℕ
  pub ttl_s : Double
  pub rrset_hash : Text

-- A value of the JSON body of a server. `object` is an array or an object, with what `String` prints.
pub data Json : Type 0 where
  undefined null : Json
  boolean : (b : Bool) → Json
  number : (d : Double) → Json
  string : (s : Text) → Json
  object : (printed : Text) → Json

-- One element of `Answer`, with its properties.
pub record DohAnswer : Type 0 where
  pub name : Json
  pub type : Json
  pub rdata : Json
  pub ttl : Json

abbrev pub is_empty {ℓ} : {A : Type ℓ} → List A → Bool
is_empty [] = true
is_empty (_ ∷ _) = false

-- `d === n` for a whole number n
abbrev pub is_number : ℕ → Double → Bool
is_number n (finite (pos m)) = m == n * 1000
is_number n _ = false

abbrev pub drop_dot : Text → Text
drop_dot [] = []
drop_dot (c ∷ s) = if c == 46 then s else c ∷ s

-- `value.replace(/\.$/, "")`
unfoldable pub strip_dot : Text → Text
strip_dot s = reverse (drop_dot (reverse s))

unfoldable pub normalize_host : Text → Text
unfolding strip_dot
normalize_host input = strip_dot (to_lower_case (trim input))

-- `toUpperCase` on one code unit of ASCII text; other code units are left alone.
unfoldable pub upper : ℕ → ℕ
upper c = if leb 97 c && leb c 122 then c - 32 else c

unfoldable pub to_upper_case : Text → Text
unfolding upper
to_upper_case s = map upper s

unfoldable pub min_ttl : List DnsRecord → Double → Double
min_ttl [] fallback = fallback
min_ttl (r ∷ records) fallback = maximum (units 1) (minimum_of (map (λ r. r.ttl) (r ∷ records)))

module _ (rt : Runtime) where
  -- `String(value || "")`
  unfoldable pub text_or_empty : Json → Text
  text_or_empty undefined = []
  text_or_empty null = []
  text_or_empty (boolean b) = if b then codes "true" else []
  text_or_empty (number d) = if truthy d then rt.print_number d else []
  text_or_empty (string s) = s
  text_or_empty (object printed) = printed

  unfoldable pub map_type : Json → Text
  unfolding to_upper_case
  map_type (string s) = to_upper_case s
  map_type (number d) =
      if is_number 1 d
      then codes "A"
      else if is_number 28 d
      then codes "AAAA"
      else if is_number 5 d
      then codes "CNAME"
      else if is_number 16 d
      then codes "TXT"
      else rt.print_number d
  map_type undefined = codes "undefined"
  map_type null = codes "null"
  map_type (boolean b) = if b then codes "true" else codes "false"
  map_type (object printed) = printed

  -- `Number(value || default)`
  unfoldable pub number_or : Json → Double → Double
  number_or undefined default = default
  number_or null default = default
  number_or (boolean b) default = if b then units 1 else default
  number_or (number d) default = if truthy d then d else default
  number_or (string s) default = if is_empty s then default else rt.parse_number s
  number_or (object printed) default = rt.parse_number printed

  -- `Number(value ?? default)`
  unfoldable pub number_given : Json → Double → Double
  number_given undefined default = default
  number_given null default = default
  number_given (boolean b) default = if b then units 1 else units 0
  number_given (number d) default = d
  number_given (string s) default = rt.parse_number s
  number_given (object printed) default = rt.parse_number printed

  -- `normalizeNameForHash` of adapters/types.ts
  unfoldable pub normalize_name_for_hash : Text → Text
  unfolding strip_dot
  normalize_name_for_hash name = rt.to_ascii (to_lower_case (strip_dot (trim name)))
