-- ===== src/Wire/Safe.antt =====
-- core/src/wire_safe.ts and core/src/wire_limits.ts: a packet is parsed only within size limits.
pub mod Accepts
use decentralized_dns.Prelude.{
  ℕ, ◌+◌, ◌*◌, ◌≡◌, Bool, true, Option, none, some, List, [], length, leb, ◌==◌, Result, ok, err,
  ◌>>=◌, ◌>>◌, require, Text, if◌then◌else◌,
}
use decentralized_dns.Bytes.{Bytes}
use decentralized_dns.Wire.{WirePacket, decode_packet, is_nat, value}
use decentralized_dns.Wire.Payload.{
  Utf8, NotPayload, decode_ans, decode_anc, decode_not, decode_put,
}

-- The limits in force; `none` is `undefined`, which no size is greater than.
pub record Limits : Type 0 where
  pub max_packet_bytes : Option ℕ
  pub max_payload_bytes : Option ℕ
  pub max_routeset_bytes : Option ℕ
  pub max_anchor_bytes : Option ℕ
  pub max_not_msg_bytes : Option ℕ

abbrev pub default_limits : Limits
default_limits = record {
  max_packet_bytes = some (64 * 1024);
  max_payload_bytes = some (60 * 1024);
  max_routeset_bytes = some (48 * 1024);
  max_anchor_bytes = some 1024;
  max_not_msg_bytes = some 1024;
}

-- A property of the caller's object: left out, `undefined`, or a number.
pub data Setting : Type 0 where
  absent undefined : Setting
  limit : (n : ℕ) → Setting

-- `Partial<typeof DEFAULT_LIMITS>`
pub record WireLimits : Type 0 where
  pub max_packet_bytes : Setting
  pub max_payload_bytes : Setting
  pub max_routeset_bytes : Setting
  pub max_anchor_bytes : Setting
  pub max_not_msg_bytes : Setting

-- A property that is there replaces the default, also if it is `undefined`.
abbrev pub given_or : Setting → Option ℕ → Option ℕ
given_or absent d = d
given_or undefined d = none
given_or (limit n) d = some n

-- `!(size > limit)`
abbrev pub within : ℕ → Option ℕ → Bool
within size none = true
within size (some most) = leb size most

-- `{ ...DEFAULT_LIMITS, ...limits }`
unfoldable pub merge_limits : WireLimits → Limits
merge_limits l = record {
  max_packet_bytes = given_or l.max_packet_bytes default_limits.max_packet_bytes;
  max_payload_bytes = given_or l.max_payload_bytes default_limits.max_payload_bytes;
  max_routeset_bytes = given_or l.max_routeset_bytes default_limits.max_routeset_bytes;
  max_anchor_bytes = given_or l.max_anchor_bytes default_limits.max_anchor_bytes;
  max_not_msg_bytes = given_or l.max_not_msg_bytes default_limits.max_not_msg_bytes;
}

module _ (utf8 : Utf8) where
  -- The UTF-8 size of an optional message; a missing or empty one passes the test.
  abbrev pub msg_size : Option Text → ℕ
  msg_size none = 0
  msg_size (some []) = 0
  msg_size (some text) = length (utf8.encode text)

  -- The `switch` on the message type.
  unfoldable pub check_message : Limits → WirePacket → Result (Unit {0})
  unfolding is_nat
  check_message l pkt =
      if is_nat 2 pkt.header.msg_type
      then (do
        ans ← decode_ans pkt.payload
        require (within (length ans.routeset) l.max_routeset_bytes)
            "routeset exceeds maxRouteSetBytes")
      else if is_nat 3 pkt.header.msg_type
      then (do
        anc ← decode_anc pkt.payload
        require (within (length anc.anchor) l.max_anchor_bytes) "anchor exceeds maxAnchorBytes")
      else if is_nat 4 pkt.header.msg_type
      then (do
        notp ← decode_not utf8 pkt.payload
        require (within (msg_size notp.msg) l.max_not_msg_bytes) "NOT msg exceeds maxNotMsgBytes")
      else if is_nat 7 pkt.header.msg_type
      then (do
        put ← decode_put pkt.payload
        require (within (length put.routeset) l.max_routeset_bytes)
            "PUT routeset exceeds maxRouteSetBytes")
      else ok tt

  unfoldable pub parse_packet_safe : Bytes → WireLimits → Result WirePacket
  unfolding merge_limits check_message
  parse_packet_safe bytes limits = do
    let l = merge_limits limits
    require (within (length bytes) l.max_packet_bytes) "packet exceeds maxPacketBytes"
    pkt ← decode_packet bytes
    require (within (value pkt.header.payload_len) l.max_payload_bytes)
        "payload_len exceeds maxPayloadBytes"
    require (length pkt.payload == value pkt.header.payload_len) "payload length mismatch"
    check_message l pkt
    ok pkt
