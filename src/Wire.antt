-- ===== src/Wire.antt =====
-- core/src/wire.ts: the 24-byte header and the packet. The payload codecs are in Wire.Payload and
-- the limits of core/src/wire_safe.ts in Wire.Safe.
pub mod Header
pub mod Packet
pub mod Payload
pub mod Safe
mod Tests
use decentralized_dns.Prelude.{
  ℕ, ◌+◌, ◌≡◌, Bool, true, false, Option, some, none, List, [], ◌∷◌, ◌++◌, length, take, leb, ◌==◌,
  Result, ok, err, ◌>>=◌, ◌>>◌, require, String, Number, int, other, pos, negsuc, nat, codes,
  text_eq, if◌then◌else◌,
}
use decentralized_dns.Bytes.{
  Bytes, ascii, le, u16le, u32le, read_u16le, read_u32le, concat_bytes, slice, byte_at,
}

unfoldable pub wire_magic : Bytes
unfolding ascii
wire_magic = ascii (codes "DDNS")

abbrev pub wire_version : ℕ
wire_version = 1

abbrev pub wire_header_len : ℕ
wire_header_len = 24

pub record WireHeader : Type 0 where
  pub version : Number
  pub msg_type : Number
  pub flags : Number
  pub req_id : Number
  pub ns_id : Number
  pub payload_len : Number
  pub reserved : Option Number

pub record WirePacket : Type 0 where
  pub header : WireHeader
  pub payload : Bytes

-- `x === k`
unfoldable pub is_nat : ℕ → Number → Bool
is_nat k (int (pos n)) = n == k
is_nat k _ = false

-- `if (!Number.isInteger(x) || x < 0 || x > hi) throw new Error(message)`, and then `x`
unfoldable pub in_range : ℕ → Number → String → Result ℕ
in_range hi (int (pos n)) message = if leb n hi then ok n else err message
in_range hi _ message = err message

-- The bytes that `encodeHeader` joins when its checks have passed.
unfoldable pub header_bytes : ℕ → ℕ → ℕ → ℕ → ℕ → Bytes
unfolding wire_magic u16le u32le concat_bytes le
header_bytes msg_type flags req_id ns_id payload_len = concat_bytes (
    wire_magic
    ∷ (wire_version ∷ [])
    ∷ (msg_type ∷ [])
    ∷ u16le flags
    ∷ u32le req_id
    ∷ u32le ns_id
    ∷ u32le payload_len
    ∷ u32le 0
    ∷ [])

unfoldable pub encode_header : WireHeader → Result Bytes
encode_header h = do
  require (is_nat wire_version h.version) "unsupported wire version"
  msg_type ← in_range 0xff h.msg_type "msg_type out of range"
  flags ← in_range 0xffff h.flags "flags out of range"
  req_id ← in_range 0xffffffff h.req_id "req_id out of range"
  ns_id ← in_range 0xffffffff h.ns_id "ns_id out of range"
  payload_len ← in_range 0xffffffff h.payload_len "payload_len out of range"
  ok (header_bytes msg_type flags req_id ns_id payload_len)

unfoldable pub decode_header : Bytes → Result WireHeader
unfolding wire_magic read_u16le read_u32le text_eq
decode_header bytes = do
  require (leb wire_header_len (length bytes)) "short header"
  require (text_eq (take 4 bytes) wire_magic) "bad magic"
  require (byte_at bytes 4 == wire_version) "bad version"
  flags ← read_u16le bytes 6
  req_id ← read_u32le bytes 8
  ns_id ← read_u32le bytes 12
  payload_len ← read_u32le bytes 16
  reserved ← read_u32le bytes 20
  require (reserved == 0) "reserved must be zero"
  ok (record {
    version = nat (byte_at bytes 4);
    msg_type = nat (byte_at bytes 5);
    flags = nat flags;
    req_id = nat req_id;
    ns_id = nat ns_id;
    payload_len = nat payload_len;
    reserved = some (nat reserved);
  })

unfoldable pub encode_packet : WirePacket → Result Bytes
encode_packet packet = do
  header_bytes ← encode_header (record packet.header { payload_len = nat (length packet.payload) })
  ok (header_bytes ++ packet.payload)

-- The number that a decoded field holds.
abbrev pub value : Number → ℕ
value (int (pos n)) = n
value _ = 0

unfoldable pub decode_packet : Bytes → Result WirePacket
decode_packet bytes = do
  header ← decode_header bytes
  let total = wire_header_len + value header.payload_len
  require (leb total (length bytes)) "packet truncated"
  ok (record { header = header; payload = slice bytes wire_header_len total })
