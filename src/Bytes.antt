-- ===== src/Bytes.antt =====
-- core/src/bytes.ts: a `Uint8Array` is the list of its bytes. A `DataView` read past the end
-- throws; a slice is cut off at the end of the buffer.
pub mod Words
pub mod Cursor
pub mod Parts
pub mod Hex
mod Tests
use decentralized_dns.Prelude.{
  ℕ, zero, suc, ◌+◌, ◌-◌, ◌*◌, ◌/◌, ◌%◌, ◌<◌, List, [], ◌∷◌, ◌++◌, map, length, take, drop, ltb,
  if◌then◌else◌, Result, ok, err, ℤ, wrap, Text,
}
use decentralized_dns.Prelude.All.{All}

abbrev pub Bytes : Type 0
Bytes = List ℕ

abbrev pub IsBytes : Bytes → Type 0
IsBytes bs = All (λ b. b < 256) bs

-- The `k` little-endian bytes of a number, taken modulo 256 ^ k, as `DataView` writes them.
unfoldable pub le : ℕ → ℕ → Bytes
le zero n = []
le (suc k) n = (n % 256) ∷ le k (n / 256)

-- The number that little-endian bytes stand for.
unfoldable pub of_le : Bytes → ℕ
of_le [] = 0
of_le (b ∷ bs) = b + 256 * of_le bs

unfoldable pub u16le : ℕ → Bytes
u16le n = le 2 n

unfoldable pub u32le : ℕ → Bytes
u32le n = le 4 n

-- `setBigUint64` on a bigint, negative ones included.
unfoldable pub u64le : ℤ → Bytes
u64le n = le 8 (wrap 64 n)

unfoldable pub read_le : ℕ → Bytes → ℕ → Result ℕ
read_le k buf off =
    if ltb (length buf) (off + k)
    then err "Offset is outside the bounds of the DataView"
    else ok (of_le (take k (drop off buf)))

unfoldable pub read_u16le : Bytes → ℕ → Result ℕ
read_u16le buf off = read_le 2 buf off

unfoldable pub read_u32le : Bytes → ℕ → Result ℕ
read_u32le buf off = read_le 4 buf off

unfoldable pub read_u64le : Bytes → ℕ → Result ℕ
read_u64le buf off = read_le 8 buf off

-- `bytes.slice(from, to)`
abbrev pub slice : Bytes → ℕ → ℕ → Bytes
slice buf from to = take (to - from) (drop from buf)

unfoldable pub concat_bytes : List Bytes → Bytes
concat_bytes [] = []
concat_bytes (p ∷ parts) = p ++ concat_bytes parts

-- `charCodeAt(i) & 0xff` at each index
unfoldable pub ascii : Text → Bytes
ascii str = map (λ c. c % 256) str

-- `bytes[i]`, read only where a length check has passed; past the end it is 0, as `undefined` is
-- where it is stored into a byte.
abbrev pub byte_at : Bytes → ℕ → ℕ
byte_at [] i = 0
byte_at (b ∷ bs) zero = b
byte_at (b ∷ bs) (suc i) = byte_at bs i
