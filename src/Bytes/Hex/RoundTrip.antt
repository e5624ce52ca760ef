-- ===== src/Bytes/Hex/RoundTrip.antt =====
-- Lemmas on `hex` and `fromHex` of core/src/bytes.ts.
use mathlib.Core.Path.{ap₂}
use decentralized_dns.Prelude.{
  ℕ, zero, suc, ◌*◌, ◌%◌, ◌<◌, ◌≡◌, refl, Bool, true, false, ◌&&◌, [], ◌∷◌, length, ok, ◌==◌,
  ==_iff, arith, text_eq, codes, take,
}
use decentralized_dns.Bytes.{Bytes, IsBytes}
use decentralized_dns.Bytes.Hex.{digit, hex_byte, hex, to_uint8, parse_int_16, from_pairs, from_hex}

byte_back : ℕ → Bool
byte_back b = to_uint8 (parse_int_16 (hex_byte b)) == b

-- The bytes from 255 down that survive the trip, until the first that does not.
survive : ℕ → Bool
survive zero = true
survive (suc b) = byte_back b && survive b

survive_table : survive 256 ≡ true
unfolding survive byte_back parse_int_16 hex_byte
survive_table = refl

byte_back_below : (n b : ℕ) → survive n ≡ true → b < n → byte_back b ≡ true
unfolding survive
byte_back_below zero b all lt = absurd (omega arith)
byte_back_below (suc n) b all lt = ground (arith, byte_back_below n b)

parse-hex_byte : (b : ℕ) → b < 256 → to_uint8 (parse_int_16 (hex_byte b)) ≡ b
unfolding byte_back
parse-hex_byte b h = (==_iff _ b).0 (byte_back_below 256 b survive_table h)

from_pairs-hex : (bytes : Bytes) → IsBytes bytes → from_pairs (hex bytes) ≡ bytes
unfolding from_pairs hex
from_pairs-hex [] h = refl
from_pairs-hex (b ∷ bytes) (p, h) = ap₂ ◌∷◌ (parse-hex_byte b p) (from_pairs-hex bytes h)

length-hex : (bytes : Bytes) → length (hex bytes) ≡ 2 * length bytes
unfolding hex
length-hex [] = refl
length-hex (b ∷ bytes) = omega (arith, length-hex bytes)

digit-ne-x : (n : ℕ) → n < 16 → (digit n == 120) ≡ false
unfolding digit
digit-ne-x n h = ground arith

-- The digits of a byte never look like the prefix `0x`.
no_prefix : (bytes : Bytes) → text_eq (take 2 (hex bytes)) (codes "0x") ≡ false
unfolding hex text_eq
no_prefix [] = refl
no_prefix (b ∷ bytes) = ground (arith, digit-ne-x (b % 16))

-- `fromHex` gives back the bytes that `hex` was given.
pub from_hex-hex : (bytes : Bytes) → IsBytes bytes → from_hex (hex bytes) ≡ ok bytes
unfolding from_hex
from_hex-hex bytes h =
    let even : (length (hex bytes) % 2) ≡ 0 = omega (arith, length-hex bytes) in
    rw (no_prefix bytes, even, from_pairs-hex bytes h)
