-- ===== src/Wire/Payload/RoundTrips.antt =====
-- The payload codecs of core/src/wire.ts, side by side.
use decentralized_dns.Prelude.{◌≡◌, ok}
use decentralized_dns.Bytes.{Bytes}
use decentralized_dns.Wire.Payload.{
  QryPayload, GspPayload, GetPayload, AnsPayload, AncPayload, PutPayload, encode_qry, decode_qry,
  encode_gsp, decode_gsp, encode_get, decode_get, encode_ans, decode_ans, encode_anc, decode_anc,
  encode_put, decode_put,
}
use decentralized_dns.Wire.Payload.Fixed.{
  u64, asked, decode_qry-encode_qry, decode_gsp-encode_gsp, decode_get-encode_get,
}
use decentralized_dns.Wire.Payload.Sized.{
  decode_ans-encode_ans, decode_anc-encode_anc, decode_put-encode_put,
}

-- The payloads of fixed size, QRY, GSP and GET of either mode, are decoded to what was encoded, with
-- each 64-bit field (sequence numbers and expiry) modulo 2 ^ 64.
pub fixed_payloads :
    (q : QryPayload) (g : GspPayload) (t : GetPayload) (q_bytes g_bytes t_bytes : Bytes)
    → encode_qry q ≡ ok q_bytes
    → encode_gsp g ≡ ok g_bytes
    → encode_get t ≡ ok t_bytes
    → (decode_qry q_bytes ≡ ok (record q { min_seq = u64 q.min_seq }))
      × (decode_gsp g_bytes ≡ ok (record g { seq = u64 g.seq; exp = u64 g.exp }))
      × (decode_get t_bytes ≡ ok (asked t))
fixed_payloads q g t q_bytes g_bytes t_bytes eq eg et = (
  decode_qry-encode_qry q q_bytes eq,
  decode_gsp-encode_gsp g g_bytes eg,
  decode_get-encode_get t t_bytes et,
)

-- The payloads that carry a length, ANS, ANC and PUT, are decoded to what was encoded.
pub sized_payloads :
    (a : AnsPayload) (c : AncPayload) (p : PutPayload) (a_bytes c_bytes p_bytes : Bytes)
    → encode_ans a ≡ ok a_bytes
    → encode_anc c ≡ ok c_bytes
    → encode_put p ≡ ok p_bytes
    → (decode_ans a_bytes ≡ ok a) × (decode_anc c_bytes ≡ ok c) × (decode_put p_bytes ≡ ok p)
sized_payloads a c p a_bytes c_bytes p_bytes ea ec ep = (
  decode_ans-encode_ans a a_bytes ea,
  decode_anc-encode_anc c c_bytes ec,
  decode_put-encode_put p p_bytes ep,
)
