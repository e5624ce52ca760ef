-- ===== src/Names.antt =====
-- core/src/normalize.ts, core/src/dns_name.ts and core/src/name_id.ts: names and their identifiers. `to_ascii`
-- stands for `punycode.toASCII` of a label. Upper-case letters outside ASCII are not lowered, which
-- the texts that `punycode.toASCII` returns do not have.
pub mod Normal
mod Tests
use decentralized_dns.Prelude.{
  ℕ, Bool, true, false, ◌&&◌, ◌||◌, not, List, [], ◌∷◌, ◌++◌, map, reverse, length, any, all, leb,
  ltb, ◌==◌, Number, Text, codes, text_eq, trim, to_lower_case, Result, ok, err, ◌>>=◌, ◌>>◌,
  require, if◌then◌else◌,
}
use decentralized_dns.Bytes.{Bytes, u32le, concat_bytes, ascii}
use decentralized_dns.Wire.{in_range}
use decentralized_dns.Anchor.{Blake3}

abbrev pub dot : ℕ
dot = 46

-- A text with a first character put in front of the first label.
abbrev pub onto_first : ℕ → List Text → List Text
onto_first c [] = (c ∷ []) ∷ []
onto_first c (label ∷ labels) = (c ∷ label) ∷ labels

-- `name.split(".")`
unfoldable pub split : Text → List Text
split [] = [] ∷ []
split (c ∷ s) = let rest = split s in if c == dot then [] ∷ rest else onto_first c rest

-- `labels.join(".")`
unfoldable pub join : List Text → Text
join [] = []
join (label ∷ []) = label
join (label ∷ next ∷ labels) = label ++ (dot ∷ join (next ∷ labels))

-- `name.endsWith(".")`
unfoldable pub ends_with_dot : Text → Bool
ends_with_dot [] = false
ends_with_dot (c ∷ []) = c == dot
ends_with_dot (c ∷ d ∷ s) = ends_with_dot (d ∷ s)

-- `name.slice(0, -1)`
unfoldable pub without_last : Text → Text
without_last [] = []
without_last (c ∷ []) = []
without_last (c ∷ d ∷ s) = c ∷ without_last (d ∷ s)

abbrev pub is_empty : Text → Bool
is_empty [] = true
is_empty (c ∷ s) = false

-- `[a-z0-9-]`
unfoldable pub is_label_char : ℕ → Bool
is_label_char c = (leb 97 c && leb c 122) || (leb 48 c && leb c 57) || c == 45

-- `/^[a-z0-9-]{1,63}$/`
unfoldable pub is_label : Text → Bool
unfolding is_label_char
is_label label = not (is_empty label) && leb (length label) 63 && all is_label_char label

-- The checks in their order; the message about a label does not carry the label.
unfoldable pub validate_normalized_name : Text → Result (Unit {0})
validate_normalized_name normalized = do
  require (not (is_empty normalized)) "empty normalized name"
  require (not (ends_with_dot normalized)) "normalized name must not end with dot"
  require (not (any is_empty (split normalized))) "empty label"
  require (all is_label (split normalized)) "invalid label"
  require (leb (length normalized) 253) "name too long"

unfoldable pub normalize_name : (Text → Text) → Text → Result Text
normalize_name to_ascii input = do
  let trimmed = trim input
  let name = if ends_with_dot trimmed then without_last trimmed else trimmed
  require (not (is_empty name)) "empty name"
  require (not (any is_empty (split name))) "empty label"
  let normalized = to_lower_case (join (map to_ascii (split name)))
  validate_normalized_name normalized
  ok normalized

abbrev pub reserved : List Text
reserved = codes "fuck" ∷ codes "shit" ∷ codes "cunt" ∷ codes "bitch" ∷ codes "ass" ∷ []

abbrev pub dash : ℕ
dash = 45

abbrev pub first_is : ℕ → Text → Bool
first_is c [] = false
first_is c (d ∷ s) = d == c

unfoldable pub validate_dns_label : Text → Result (Unit {0})
unfolding is_label_char to_lower_case
validate_dns_label label = do
  let lower = to_lower_case label
  require (not (ltb (length lower) 4 || ltb 13 (length lower))) "invalid length"
  require (all is_label_char lower && not (is_empty lower)) "invalid characters"
  require (not (first_is dash lower || first_is dash (reverse lower))) "invalid hyphen position"
  require (not (any (text_eq lower) reserved)) "reserved label"

unfoldable pub normalize_dns_label : Text → Result Text
unfolding validate_dns_label
normalize_dns_label label = do validate_dns_label label; ok (to_lower_case label)

-- The identifier of a name: the hash of the namespace and the name.
unfoldable pub derive_name_id : Blake3 → Number → Text → Result Bytes
derive_name_id blake3 ns_id normalized_name = do
  ns ← in_range 0xffffffff ns_id "nsId out of range"
  ok (blake3.hash (concat_bytes (u32le ns ∷ ascii normalized_name ∷ [])))
