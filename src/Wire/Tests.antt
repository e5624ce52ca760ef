-- ===== src/Wire/Tests.antt =====
-- Runs of the wire codec, and the properties of Wire at concrete packets.
use decentralized_dns.Prelude.{
  ℕ, ◌≡◌, refl, ◌↔◌, some, none, List, [], ◌∷◌, ◌++◌, length, take, replicate, ok, err, nat, negsuc,
  pos, arith, Text, false, ◌==◌,
}
use decentralized_dns.Bytes.{Bytes, le, of_le, read_le, concat_bytes}
use decentralized_dns.Wire.{
  WirePacket, encode_header, decode_header, encode_packet, decode_packet, is_nat, in_range,
  header_bytes,
}
use decentralized_dns.Wire.Packet.{sent, decode_packet-encode_packet}
use decentralized_dns.Wire.Payload.{
  QryPayload, GspPayload, AnsPayload, Utf8, NotPayload, msg_bytes, encode_ans, decode_ans,
  encode_anc, decode_anc, encode_put, decode_put, encode_not,
}
use decentralized_dns.Wire.Payload.RoundTrips.{sized_payloads}
use decentralized_dns.Wire.Safe.{absent, undefined, limit, WireLimits, parse_packet_safe}
use decentralized_dns.Wire.Safe.Accepts.{in_force, Accepts, parse_packet_safe_iff}

wire : Unit {0}
unfolding is_nat encode_packet decode_packet encode_header decode_header in_range header_bytes
    read_le of_le
wire = tt

abbrev query : WirePacket
query = record {
  header = record {
    version = nat 1;
    msg_type = nat 1;
    flags = nat 0x102;
    req_id = nat 7;
    ns_id = nat 53;
    payload_len = nat 99;
    reserved = none;
  };
  payload = 10 ∷ 11 ∷ [];
}

abbrev query_bytes : Bytes
query_bytes =
    68 ∷ 68 ∷ 78 ∷ 83 ∷ 1 ∷ 1 ∷ 2 ∷ 1 ∷ 7 ∷ 0 ∷ 0 ∷ 0 ∷ 53 ∷ 0 ∷ 0 ∷ 0 ∷ 2 ∷ 0 ∷ 0 ∷ 0 ∷ 0 ∷ 0 ∷ 0
    ∷ 0 ∷ 10 ∷ 11 ∷ []

query_runs : encode_packet query ≡ ok query_bytes
unfolding wire
query_runs = refl

query_decodes : decode_packet query_bytes ≡ ok (sent query)
unfolding wire
query_decodes = refl

truncated : decode_packet (take 25 query_bytes) ≡ err "packet truncated"
unfolding wire
truncated = refl

decode_packet-encode_packet_example : decode_packet (query_bytes ++ 9 ∷ []) ≡ ok (sent query)
decode_packet-encode_packet_example =
    decode_packet-encode_packet query query_bytes (9 ∷ []) query_runs

abbrev id32 : Bytes
id32 = replicate 32 5

abbrev qry : QryPayload
qry = record { name_id = id32; qtype = nat 28; min_seq = pos 300 }

abbrev gsp : GspPayload
gsp = record { name_id = id32; seq = pos 3; exp = negsuc 0; routeset_hash = id32; hops = nat 2 }

abbrev gsp_parts : List Bytes
gsp_parts = id32 ∷ le 8 3 ∷ le 8 18446744073709551615 ∷ id32 ∷ (2 ∷ []) ∷ replicate 7 0 ∷ []

abbrev get_parts : List Bytes
get_parts = (2 ∷ []) ∷ replicate 7 0 ∷ replicate 32 0 ∷ le 8 0 ∷ id32 ∷ []

abbrev ans : AnsPayload
ans = record { status = nat 0; routeset = 1 ∷ 2 ∷ 3 ∷ [] }

abbrev ans_bytes : Bytes
ans_bytes = 0 ∷ 3 ∷ 0 ∷ 0 ∷ 0 ∷ 1 ∷ 2 ∷ 3 ∷ []

ans_runs : encode_ans ans ≡ ok ans_bytes
unfolding encode_ans in_range concat_bytes le
ans_runs = refl

ans_decodes : decode_ans ans_bytes ≡ ok ans
unfolding decode_ans read_le of_le
ans_decodes = refl

sized_payloads_example :
    (decode_ans ans_bytes ≡ ok ans)
    × (decode_anc ans_bytes ≡ ok (record { status = nat 0; anchor = 1 ∷ 2 ∷ 3 ∷ [] }))
    × (decode_put (2 ∷ 0 ∷ 0 ∷ 0 ∷ 8 ∷ 9 ∷ []) ≡ ok (record { routeset = 8 ∷ 9 ∷ [] }))
unfolding encode_anc encode_put in_range concat_bytes le
sized_payloads_example =
    sized_payloads ans (record { status = nat 0; anchor = 1 ∷ 2 ∷ 3 ∷ [] })
      (record { routeset = 8 ∷ 9 ∷ [] }) ans_bytes ans_bytes (2 ∷ 0 ∷ 0 ∷ 0 ∷ 8 ∷ 9 ∷ []) ans_runs
      refl refl

length-cons-ne_zero : (c : ℕ) (text : Text) → (length (c ∷ text) == 0) ≡ false
length-cons-ne_zero c text = ground arith

-- A text encoder for which the assumption holds: code units as they are.
abbrev plain_utf8 : Utf8
plain_utf8 = record {
  encode = λ text. text;
  decode = λ bytes. bytes;
  encode_nil = refl;
  encode_cons = length-cons-ne_zero;
}

abbrev notice : NotPayload
notice = record { code = nat 404; retry = nat 5; msg = some (104 ∷ 105 ∷ []) }

abbrev notice_bytes : Bytes
notice_bytes = 148 ∷ 1 ∷ 5 ∷ 0 ∷ 0 ∷ 0 ∷ 2 ∷ 0 ∷ 104 ∷ 105 ∷ []

notice_runs : encode_not plain_utf8 notice ≡ ok notice_bytes
unfolding encode_not msg_bytes in_range concat_bytes le
notice_runs = refl

abbrev no_limits : WireLimits
no_limits = record {
  max_packet_bytes = absent;
  max_payload_bytes = absent;
  max_routeset_bytes = undefined;
  max_anchor_bytes = limit 10;
  max_not_msg_bytes = absent;
}

oversized :
    parse_packet_safe plain_utf8 query_bytes (record no_limits { max_payload_bytes = limit 1 })
    ≡ err "payload_len exceeds maxPayloadBytes"
unfolding parse_packet_safe wire
oversized = refl

parse_packet_safe_iff_example :
    (parse_packet_safe plain_utf8 query_bytes no_limits ≡ ok (sent query))
    ↔ Accepts plain_utf8 query_bytes (in_force no_limits) (sent query)
parse_packet_safe_iff_example = parse_packet_safe_iff plain_utf8 query_bytes no_limits (sent query)
