-- ===== src/Wire/Payload.antt =====
-- The payload codecs of core/src/wire.ts.
pub mod Fixed
pub mod Sized
pub mod RoundTrips
use decentralized_dns.Prelude.{
  ℕ, ◌+◌, ◌≡◌, Bool, true, false, Option, some, none, List, [], ◌∷◌, ◌++◌, length, take, drop, leb,
  ◌==◌, replicate, Result, ok, err, ◌>>=◌, ◌>>◌, require, String, Number, ℤ, pos, nat, Text,
  if◌then◌else◌,
}
use decentralized_dns.Bytes.{
  Bytes, u16le, u32le, u64le, read_u16le, read_u32le, read_u64le, concat_bytes, slice, byte_at,
}
use decentralized_dns.Wire.{in_range}

pub record QryPayload : Type 0 where
  pub name_id : Bytes
  pub qtype : Number
  pub min_seq : ℤ

unfoldable pub encode_qry : QryPayload → Result Bytes
unfolding u16le u64le
encode_qry p = do
  require (length p.name_id == 32) "name_id must be 32 bytes"
  qtype ← in_range 0xffff p.qtype "qtype out of range"
  ok (concat_bytes (p.name_id ∷ u16le qtype ∷ u64le p.min_seq ∷ []))

unfoldable pub decode_qry : Bytes → Result QryPayload
unfolding read_u16le read_u64le
decode_qry bytes = do
  require (length bytes == 32 + 2 + 8) "bad QRY length"
  qtype ← read_u16le bytes 32
  min_seq ← read_u64le bytes 34
  ok (record { name_id = slice bytes 0 32; qtype = nat qtype; min_seq = pos min_seq })

pub record AnsPayload : Type 0 where
  pub status : Number
  pub routeset : Bytes

unfoldable pub encode_ans : AnsPayload → Result Bytes
unfolding u32le
encode_ans p = do
  status ← in_range 0xff p.status "status out of range"
  require (leb (length p.routeset) 0xffffffff) "routeset too large"
  ok (concat_bytes ((status ∷ []) ∷ u32le (length p.routeset) ∷ p.routeset ∷ []))

unfoldable pub decode_ans : Bytes → Result AnsPayload
unfolding read_u32le
decode_ans bytes = do
  require (leb (1 + 4) (length bytes)) "bad ANS length"
  len ← read_u32le bytes 1
  require (length bytes == 1 + 4 + len) "bad routeset_len"
  ok (record { status = nat (byte_at bytes 0); routeset = slice bytes 5 (5 + len) })

pub record AncPayload : Type 0 where
  pub status : Number
  pub anchor : Bytes

unfoldable pub encode_anc : AncPayload → Result Bytes
unfolding u32le
encode_anc p = do
  status ← in_range 0xff p.status "status out of range"
  require (leb (length p.anchor) 0xffffffff) "anchor too large"
  ok (concat_bytes ((status ∷ []) ∷ u32le (length p.anchor) ∷ p.anchor ∷ []))

unfoldable pub decode_anc : Bytes → Result AncPayload
unfolding read_u32le
decode_anc bytes = do
  require (leb (1 + 4) (length bytes)) "bad ANC length"
  len ← read_u32le bytes 1
  require (length bytes == 1 + 4 + len) "bad anchor_len"
  ok (record { status = nat (byte_at bytes 0); anchor = slice bytes 5 (5 + len) })

-- `TextEncoder` and `TextDecoder`, which the platform provides. The decoder need not undo the encoder: a lone
-- surrogate is replaced, and a leading byte order mark is dropped.
pub record Utf8 : Type 0 where
  pub encode : Text → Bytes
  pub decode : Bytes → Text
  pub encode_nil : encode [] ≡ []
  pub encode_cons : (c : ℕ) (text : Text) → (length (encode (c ∷ text)) == 0) ≡ false

pub record NotPayload : Type 0 where
  pub code : Number
  pub retry : Number
  pub msg : Option Text

module _ (utf8 : Utf8) where
  -- `p.msg ? new TextEncoder().encode(p.msg) : new Uint8Array()`: the empty text is falsy.
  unfoldable pub msg_bytes : Option Text → Bytes
  msg_bytes none = []
  msg_bytes (some []) = []
  msg_bytes (some (c ∷ text)) = utf8.encode (c ∷ text)

  unfoldable pub encode_not : NotPayload → Result Bytes
  unfolding u16le u32le
  encode_not p = do
    code ← in_range 0xffff p.code "code out of range"
    retry ← in_range 0xffffffff p.retry "retry out of range"
    let msg = msg_bytes p.msg
    require (leb (length msg) 0xffff) "msg too long"
    ok (concat_bytes (u16le code ∷ u32le retry ∷ u16le (length msg) ∷ msg ∷ []))

  unfoldable pub decode_not : Bytes → Result NotPayload
  unfolding read_u16le read_u32le
  decode_not bytes = do
    require (leb (2 + 4 + 2) (length bytes)) "bad NOT length"
    code ← read_u16le bytes 0
    retry ← read_u32le bytes 2
    msg_len ← read_u16le bytes 6
    require (length bytes == 8 + msg_len) "bad msg_len"
    let msg = if msg_len == 0 then none else some (utf8.decode (slice bytes 8 (8 + msg_len)))
    ok (record { code = nat code; retry = nat retry; msg = msg })

pub record GspPayload : Type 0 where
  pub name_id : Bytes
  pub seq : ℤ
  pub exp : ℤ
  pub routeset_hash : Bytes
  pub hops : Number

-- `new Uint8Array(7)`
abbrev reserved : Bytes
reserved = replicate 7 0

unfoldable pub encode_gsp : GspPayload → Result Bytes
unfolding u64le
encode_gsp p = do
  require (length p.name_id == 32) "name_id must be 32 bytes"
  require (length p.routeset_hash == 32) "routeset_hash must be 32 bytes"
  hops ← in_range 0xff p.hops "hops out of range"
  ok (
      concat_bytes
        (p.name_id ∷ u64le p.seq ∷ u64le p.exp ∷ p.routeset_hash ∷ (hops ∷ []) ∷ reserved ∷ []))

unfoldable pub decode_gsp : Bytes → Result GspPayload
unfolding read_u64le
decode_gsp bytes = do
  require (length bytes == 32 + 8 + 8 + 32 + 1 + 7) "bad GSP length"
  seq ← read_u64le bytes 32
  exp ← read_u64le bytes 40
  ok (record {
    name_id = slice bytes 0 32;
    seq = pos seq;
    exp = pos exp;
    routeset_hash = slice bytes 48 80;
    hops = nat (byte_at bytes 80);
  })

-- `mode: 1` and `mode: 2`
pub data GetPayload : Type 0 where
  by_name_seq : (name_id : Bytes) (seq : ℤ) → GetPayload
  by_hash : (hash : Bytes) → GetPayload

unfoldable pub encode_get : GetPayload → Result Bytes
unfolding u64le
encode_get (by_name_seq name_id seq) = do
  require (length name_id == 32) "name_id must be 32 bytes"
  ok (concat_bytes ((1 ∷ []) ∷ reserved ∷ name_id ∷ u64le seq ∷ replicate 32 0 ∷ []))
encode_get (by_hash hash) = do
  require (length hash == 32) "hash must be 32 bytes"
  ok (concat_bytes ((2 ∷ []) ∷ reserved ∷ replicate 32 0 ∷ u64le (pos 0) ∷ hash ∷ []))

unfoldable pub decode_get : Bytes → Result GetPayload
unfolding read_u64le
decode_get bytes = do
  require (length bytes == 80) "bad GET length"
  let mode = byte_at bytes 0
  (if mode == 1
      then (do seq ← read_u64le bytes 40; ok (by_name_seq (slice bytes 8 40) (pos seq)))
      else if mode == 2
      then ok (by_hash (slice bytes 48 80))
      else err "bad GET mode")

pub record PutPayload : Type 0 where
  pub routeset : Bytes

unfoldable pub encode_put : PutPayload → Result Bytes
unfolding u32le
encode_put p = do
  require (leb (length p.routeset) 0xffffffff) "routeset too large"
  ok (concat_bytes (u32le (length p.routeset) ∷ p.routeset ∷ []))

unfoldable pub decode_put : Bytes → Result PutPayload
unfolding read_u32le
decode_put bytes = do
  require (leb 4 (length bytes)) "bad PUT length"
  len ← read_u32le bytes 0
  require (length bytes == 4 + len) "bad routeset_len"
  ok (record { routeset = slice bytes 4 (4 + len) })
