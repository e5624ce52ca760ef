-- ===== src/RouteSet.antt =====
-- core/src/outeset.ts: RouteSetV1, its canonical order, codec and signature.
pub mod Codec
pub mod Order
pub mod Signed
mod Tests
use decentralized_dns.Prelude.{
  ℕ, zero, suc, ◌+◌, ◌-◌, ◌≡◌, Bool, true, false, not, ◌&&◌, Option, some, none, List, [], ◌∷◌,
  ◌++◌, length, take, drop, leb, ◌==◌, Result, ok, err, ◌>>=◌, ◌>>◌, require, String, Number, int,
  other, ℤ, pos, negsuc, nat, codes, text_eq, sub_ℕ, ◌-ℤ◌, leb_ℤ, if◌then◌else◌,
}
use decentralized_dns.Bytes.{Bytes, ascii, u16le, u32le, u64le, concat_bytes, slice}
use decentralized_dns.Bytes.Cursor.{Reader, next_le, next_slice, next_byte, repeat}
use decentralized_dns.Wire.{in_range}

pub record RecordV1 : Type 0 where
  pub rr_type : Number
  pub rr_class : Number
  pub ttl : Number
  pub rdata : Bytes

pub record RouteSetV1 : Type 0 where
  pub ns_id : Number
  pub name_id : Bytes
  pub seq : ℤ
  pub exp : ℤ
  pub records : List RecordV1
  pub owner_pub : Bytes
  pub sig : Option Bytes

unfoldable pub routeset_magic : Bytes
unfolding ascii
routeset_magic = ascii (codes "RSET")

-- The integer that the comparison of two numbers starts from. A record whose type or TTL is no
-- integer is refused by the encoder after sorting, whatever its place.
abbrev pub as_integer : Number → ℤ
as_integer (int z) = z
as_integer (other z) = z

-- The byte loop of the comparison: the first difference, or that of the lengths.
unfoldable pub compare_bytes : Bytes → Bytes → ℤ
compare_bytes [] [] = pos 0
compare_bytes [] (y ∷ ys) = negsuc (length ys)
compare_bytes (x ∷ xs) [] = pos (length (x ∷ xs))
compare_bytes (x ∷ xs) (y ∷ ys) = if x == y then compare_bytes xs ys else sub_ℕ x y

abbrev is_zero_ℤ : ℤ → Bool
is_zero_ℤ (pos n) = n == 0
is_zero_ℤ (negsuc n) = false

-- `if (d !== 0) return d; …`
unfoldable pub unless_zero : ℤ → ℤ → ℤ
unless_zero d rest = if is_zero_ℤ d then rest else d

-- By type, then TTL, then the bytes of the data.
unfoldable pub compare_records : RecordV1 → RecordV1 → ℤ
compare_records a b =
    unless_zero (as_integer a.rr_type -ℤ as_integer b.rr_type)
      (unless_zero (as_integer a.ttl -ℤ as_integer b.ttl) (compare_bytes a.rdata b.rdata))

-- Array.prototype.sort is stable, which fixes its result for a consistent comparison.
unfoldable pub insert_record : RecordV1 → List RecordV1 → List RecordV1
insert_record r [] = r ∷ []
insert_record r (x ∷ xs) =
    if leb_ℤ (compare_records r x) (pos 0) then r ∷ x ∷ xs else x ∷ insert_record r xs

unfoldable pub sort_records_canonical : List RecordV1 → List RecordV1
unfolding insert_record
sort_records_canonical [] = []
sort_records_canonical (r ∷ rs) = insert_record r (sort_records_canonical rs)

unfoldable pub encode_record : RecordV1 → Result Bytes
encode_record r = do
  rr_type ← in_range 0xffff r.rr_type "rr_type out of range"
  rr_class ← in_range 0xffff r.rr_class "rr_class out of range"
  ttl ← in_range 0xffffffff r.ttl "ttl out of range"
  require (leb (length r.rdata) 0xffff) "rdata too long"
  ok (
      concat_bytes
        (u16le rr_type ∷ u16le rr_class ∷ u32le ttl ∷ u16le (length r.rdata) ∷ r.rdata ∷ []))

-- The loop over the records, which stops at the first that throws.
unfoldable pub encode_records : List RecordV1 → Result Bytes
unfolding encode_record
encode_records [] = ok []
encode_records (r ∷ rs) = do one ← encode_record r; more ← encode_records rs; ok (one ++ more)

-- `if (rs.sig && rs.sig.length !== 64) throw …`
abbrev pub sig_ok : Option Bytes → Bool
sig_ok none = true
sig_ok (some sig) = length sig == 64

abbrev pub sig_bytes : Option Bytes → Bytes
sig_bytes none = []
sig_bytes (some sig) = sig

unfoldable pub encode_routeset : RouteSetV1 → Bool → Result Bytes
unfolding routeset_magic
encode_routeset rs canonicalize = do
  require (length rs.name_id == 32) "name_id must be 32 bytes"
  require (length rs.owner_pub == 32) "owner_pub must be 32 bytes"
  ns_id ← in_range 0xffffffff rs.ns_id "ns_id out of range"
  require (sig_ok rs.sig) "sig must be 64 bytes"
  let records = if canonicalize then sort_records_canonical rs.records else rs.records
  rec_parts ← encode_records records
  let header = concat_bytes (
      routeset_magic
      ∷ (1 ∷ [])
      ∷ u32le ns_id
      ∷ rs.name_id
      ∷ u64le rs.seq
      ∷ u64le rs.exp
      ∷ u32le (length records)
      ∷ [])
  ok ((header ++ (rec_parts ++ rs.owner_pub)) ++ sig_bytes rs.sig)

unfoldable pub decode_record : Reader RecordV1
decode_record rest = do
  rr_type ← next_le 2 rest
  rr_class ← next_le 2 rr_type.1
  ttl ← next_le 4 rr_class.1
  rlen ← next_le 2 ttl.1
  let (rdata, rest') = next_slice rlen.0 rlen.1
  ok (
    record { rr_type = nat rr_type.0; rr_class = nat rr_class.0; ttl = nat ttl.0; rdata = rdata },
    rest',
  )

-- `version !== 1`, where the version may be `undefined`
abbrev pub is_one : Option ℕ → Bool
is_one none = false
is_one (some v) = v == 1

-- `(off + 64 <= bytes.length) ? bytes.slice(off, off + 64) : undefined`
abbrev pub trailing_sig : Bytes → Option Bytes
trailing_sig rest = if leb 64 (length rest) then some (take 64 rest) else none

unfoldable pub decode_routeset : Bytes → Result RouteSetV1
unfolding next_byte routeset_magic
decode_routeset bytes = do
  let (magic, rest1) = next_slice 4 bytes
  require (text_eq magic routeset_magic) "bad magic"
  let (version, rest2) = next_byte rest1
  require (is_one version) "bad version"
  ns_id ← next_le 4 rest2
  let (name_id, rest3) = next_slice 32 ns_id.1
  seq ← next_le 8 rest3
  exp ← next_le 8 seq.1
  record_count ← next_le 4 exp.1
  records ← repeat record_count.0 decode_record record_count.1
  let (owner_pub, rest4) = next_slice 32 records.1
  ok (record {
    ns_id = nat ns_id.0;
    name_id = name_id;
    seq = pos seq.0;
    exp = pos exp.0;
    records = records.0;
    owner_pub = owner_pub;
    sig = trailing_sig rest4;
  })
