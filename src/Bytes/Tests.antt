-- ===== src/Bytes/Tests.antt =====
-- Runs of the byte helpers, and the property of `fromHex` at a concrete array.
use decentralized_dns.Prelude.{◌≡◌, refl, [], ◌∷◌, ok, err, codes, arith, text_eq}
use decentralized_dns.Bytes.{Bytes, IsBytes}
use decentralized_dns.Bytes.Hex.{hex, from_hex, from_pairs, parse_int_16}

abbrev sample : Bytes
sample = 0 ∷ 255 ∷ 18 ∷ []

sample-IsBytes : IsBytes sample
sample-IsBytes = (omega arith, (omega arith, (omega arith, tt)))

hex_run : hex sample ≡ codes "00ff12"
unfolding hex
hex_run = refl

from_hex_run : from_hex (codes "0xFf1") ≡ err "hex length must be even"
unfolding from_hex text_eq from_pairs parse_int_16
from_hex_run = refl

-- Characters that are no digits are read as 0, and the rest of a pair after its first digit is dropped.
from_hex_lenient : from_hex (codes "zz1g") ≡ ok (0 ∷ 1 ∷ [])
unfolding from_hex text_eq from_pairs parse_int_16
from_hex_lenient = refl
