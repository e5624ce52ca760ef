-- ===== src/Bytes/Hex.antt =====
-- `hex` and `fromHex` of core/src/bytes.ts.
pub mod RoundTrip
use decentralized_dns.Prelude.{
  ℕ, zero, suc, ◌+◌, ◌-◌, ◌*◌, ◌/◌, ◌%◌, ◌≡◌, Bool, true, false, ◌&&◌, ◌||◌, Option, none, some,
  List, [], ◌∷◌, ◌++◌, length, take, drop, leb, ltb, ◌==◌, Result, ok, err, ◌>>=◌, ◌>>◌, require, ℤ,
  pos, negsuc, wrap, Text, codes, text_eq, trim_start, if◌then◌else◌,
}
use decentralized_dns.Bytes.{Bytes}

-- The digits of `toString(16)`.
unfoldable pub digit : ℕ → ℕ
digit n = if ltb n 10 then 48 + n else 87 + n

-- `b.toString(16).padStart(2, "0")` of a byte
unfoldable pub hex_byte : ℕ → Text
unfolding digit
hex_byte b = digit (b / 16) ∷ digit (b % 16) ∷ []

unfoldable pub hex : Bytes → Text
unfolding hex_byte
hex [] = []
hex (b ∷ bytes) = hex_byte b ++ hex bytes

unfoldable pub hex_value : ℕ → Option ℕ
hex_value c =
    if leb 48 c && leb c 57
    then some (c - 48)
    else if leb 97 c && leb c 102
    then some (c - 87)
    else if leb 65 c && leb c 70
    then some (c - 55)
    else none

-- The longest run of digits at the front; `none` before the first digit.
unfoldable pub parse_digits : Option ℕ → Text → Option ℕ
unfolding hex_value
parse_digits acc [] = acc
parse_digits acc (c ∷ s) = elim (hex_value c) [
  | none ↦ acc
  | some d ↦ parse_digits (some (elim acc [ none ↦ d | some n ↦ 16 * n + d ])) s
]

abbrev negate : Option ℕ → Option ℤ
negate none = none
negate (some zero) = some (pos 0)
negate (some (suc n)) = some (negsuc n)

abbrev positive : Option ℕ → Option ℤ
positive none = none
positive (some n) = some (pos n)

-- `0x` and `0X` in front of the digits are skipped.
unfoldable pub strip_prefix : Text → Text
strip_prefix (c ∷ d ∷ s) = if c == 48 && (d == 120 || d == 88) then s else c ∷ d ∷ s
strip_prefix s = s

unfoldable pub parse_signed : Text → Option ℤ
unfolding parse_digits strip_prefix
parse_signed [] = none
parse_signed (c ∷ s) =
    if c == 45
    then negate (parse_digits none (strip_prefix s))
    else if c == 43
    then positive (parse_digits none (strip_prefix s))
    else positive (parse_digits none (strip_prefix (c ∷ s)))

-- `parseInt(s, 16)`, `none` for NaN
unfoldable pub parse_int_16 : Text → Option ℤ
unfolding parse_signed trim_start
parse_int_16 s = parse_signed (trim_start s)

-- What a byte array keeps of a number: NaN becomes 0.
abbrev to_uint8 : Option ℤ → ℕ
to_uint8 none = 0
to_uint8 (some z) = wrap 8 z

-- The loop over the pairs of characters.
unfoldable pub from_pairs : Text → Bytes
from_pairs (c ∷ d ∷ s) = to_uint8 (parse_int_16 (c ∷ d ∷ [])) ∷ from_pairs s
from_pairs s = []

unfoldable pub from_hex : Text → Result Bytes
from_hex hex_str = do
  let s = if text_eq (take 2 hex_str) (codes "0x") then drop 2 hex_str else hex_str
  require (length s % 2 == 0) "hex length must be even"
  ok (from_pairs s)
