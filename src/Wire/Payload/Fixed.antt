-- ===== src/Wire/Payload/Fixed.antt =====
-- Round trips of the payloads of fixed size (QRY, GSP, GET) of core/src/wire.ts.
use decentralized_dns.Prelude.{
  ℕ, ◌^◌, ◌<◌, ◌≤◌, ◌≡◌, refl, [], ◌∷◌, length, arith, replicate, ok, ℤ, pos, nat, wrap,
}
use decentralized_dns.Bytes.{Bytes, le, concat_bytes}
use decentralized_dns.Bytes.Words.{length-le, wrap-lt}
use decentralized_dns.Bytes.Parts.{part_at, byte_part_at, word_at, length-concat_bytes}
use decentralized_dns.Wire.{in_range}
use decentralized_dns.Wire.Payload.{
  QryPayload, encode_qry, decode_qry, GspPayload, encode_gsp, decode_gsp, GetPayload, by_name_seq,
  by_hash, encode_get, decode_get,
}

-- A 64-bit field as the receiver sees it.
abbrev pub u64 : ℤ → ℤ
u64 z = pos (wrap 64 z)

encode_qry-eq-ok :
    (p : QryPayload) (bs : Bytes)
    → encode_qry p ≡ ok bs
    → (q : ℕ) × (length p.name_id ≡ 32)
      × (p.qtype ≡ nat q)
      × (q ≤ 0xffff)
      × (bs ≡ concat_bytes (p.name_id ∷ le 2 q ∷ le 8 (wrap 64 p.min_seq) ∷ []))
unfolding encode_qry in_range
encode_qry-eq-ok p bs e = ground arith

qry_back :
    (name_id : Bytes) (q s : ℕ)
    → length name_id ≡ 32
    → q ≤ 0xffff
    → s < 256 ^ 8
    → decode_qry (concat_bytes (name_id ∷ le 2 q ∷ le 8 s ∷ []))
      ≡ ok (record { name_id = name_id; qtype = nat q; min_seq = pos s })
unfolding decode_qry
qry_back name_id q s long small fits =
    let bs = concat_bytes (name_id ∷ le 2 q ∷ le 8 s ∷ []) in
    let size : length bs ≡ 42 =
      omega (
        arith,
        length-concat_bytes (name_id ∷ le 2 q ∷ le 8 s ∷ []),
        length-le 2 q,
        length-le 8 s,
      ) in
    rw (
      size,
      word_at (name_id ∷ []) (le 8 s ∷ []) 32 (omega arith) 2 q (omega arith),
      word_at (name_id ∷ le 2 q ∷ []) [] 34 (omega (arith, length-le 2 q)) 8 s fits,
      part_at [] (le 2 q ∷ le 8 s ∷ []) 0 refl name_id 32 long,
    )

-- A QRY payload that is encoded is decoded again; the sequence number arrives modulo 2 ^ 64.
pub decode_qry-encode_qry :
    (p : QryPayload) (bs : Bytes)
    → encode_qry p ≡ ok bs
    → decode_qry bs ≡ ok (record p { min_seq = u64 p.min_seq })
decode_qry-encode_qry p bs e =
    let (q, long, is_q, small, same) = encode_qry-eq-ok p bs e in
    cc (same, is_q, qry_back p.name_id q (wrap 64 p.min_seq) long small (wrap-lt p.min_seq))

encode_gsp-eq-ok :
    (p : GspPayload) (bs : Bytes)
    → encode_gsp p ≡ ok bs
    → (h : ℕ) × (length p.name_id ≡ 32)
      × (length p.routeset_hash ≡ 32)
      × (p.hops ≡ nat h)
      × (bs
          ≡ concat_bytes (
              p.name_id
              ∷ le 8 (wrap 64 p.seq)
              ∷ le 8 (wrap 64 p.exp)
              ∷ p.routeset_hash
              ∷ (h ∷ [])
              ∷ replicate 7 0
              ∷ []))
unfolding encode_gsp in_range
encode_gsp-eq-ok p bs e = ground arith

gsp_back :
    (name_id : Bytes) (s x : ℕ) (hash : Bytes) (h : ℕ) (tail : Bytes)
    → length name_id ≡ 32
    → length hash ≡ 32
    → length tail ≡ 7
    → s < 256 ^ 8
    → x < 256 ^ 8
    → decode_gsp (concat_bytes (name_id ∷ le 8 s ∷ le 8 x ∷ hash ∷ (h ∷ []) ∷ tail ∷ []))
      ≡ ok (record {
        name_id = name_id;
        seq = pos s;
        exp = pos x;
        routeset_hash = hash;
        hops = nat h;
      })
unfolding decode_gsp
gsp_back name_id s x hash h tail long long' long7 fit fit' =
    let parts = name_id ∷ le 8 s ∷ le 8 x ∷ hash ∷ (h ∷ []) ∷ tail ∷ [] in
    let size : length (concat_bytes parts) ≡ 88 =
      omega (arith, length-concat_bytes parts, length-le 8 s, length-le 8 x) in
    rw (
      size,
      word_at (name_id ∷ []) (le 8 x ∷ hash ∷ (h ∷ []) ∷ tail ∷ []) 32 (omega arith) 8 s fit,
      word_at (name_id ∷ le 8 s ∷ []) (hash ∷ (h ∷ []) ∷ tail ∷ []) 40
          (omega (arith, length-le 8 s)) 8 x fit',
      part_at [] (le 8 s ∷ le 8 x ∷ hash ∷ (h ∷ []) ∷ tail ∷ []) 0 refl name_id 32 long,
      part_at (name_id ∷ le 8 s ∷ le 8 x ∷ []) ((h ∷ []) ∷ tail ∷ []) 48
          (omega (arith, length-le 8 s, length-le 8 x)) hash 32 long',
      byte_part_at (name_id ∷ le 8 s ∷ le 8 x ∷ hash ∷ []) (tail ∷ []) 80
          (omega (arith, length-le 8 s, length-le 8 x)) h,
    )

-- A GSP payload that is encoded is decoded again, its two 64-bit fields modulo 2 ^ 64.
pub decode_gsp-encode_gsp :
    (p : GspPayload) (bs : Bytes)
    → encode_gsp p ≡ ok bs
    → decode_gsp bs ≡ ok (record p { seq = u64 p.seq; exp = u64 p.exp })
decode_gsp-encode_gsp p bs e =
    let (h, long, long', is_h, same) = encode_gsp-eq-ok p bs e in
    cc (
      same,
      is_h,
      gsp_back p.name_id (wrap 64 p.seq) (wrap 64 p.exp) p.routeset_hash h (replicate 7 0) long
          long' refl (wrap-lt p.seq) (wrap-lt p.exp),
    )

-- A GET payload as the receiver sees it.
abbrev pub asked : GetPayload → GetPayload
asked (by_name_seq name_id seq) = by_name_seq name_id (u64 seq)
asked (by_hash hash) = by_hash hash

encode_by_name_seq-eq-ok :
    (name_id : Bytes) (seq : ℤ) (bs : Bytes)
    → encode_get (by_name_seq name_id seq) ≡ ok bs
    → (length name_id ≡ 32)
      × (bs
          ≡ concat_bytes
              ((1 ∷ []) ∷ replicate 7 0 ∷ name_id ∷ le 8 (wrap 64 seq) ∷ replicate 32 0 ∷ []))
unfolding encode_get
encode_by_name_seq-eq-ok name_id seq bs e = ground arith

encode_by_hash-eq-ok :
    (hash bs : Bytes)
    → encode_get (by_hash hash) ≡ ok bs
    → (length hash ≡ 32)
      × (bs ≡ concat_bytes ((2 ∷ []) ∷ replicate 7 0 ∷ replicate 32 0 ∷ le 8 0 ∷ hash ∷ []))
unfolding encode_get
encode_by_hash-eq-ok hash bs e = ground arith

by_name_seq_back :
    (name_id : Bytes) (s : ℕ)
    → length name_id ≡ 32
    → s < 256 ^ 8
    → decode_get (concat_bytes ((1 ∷ []) ∷ replicate 7 0 ∷ name_id ∷ le 8 s ∷ replicate 32 0 ∷ []))
      ≡ ok (by_name_seq name_id (pos s))
unfolding decode_get
by_name_seq_back name_id s long fits =
    let parts = (1 ∷ []) ∷ replicate 7 0 ∷ name_id ∷ le 8 s ∷ replicate 32 0 ∷ [] in
    let size : length (concat_bytes parts) ≡ 80 =
      omega (arith, length-concat_bytes parts, length-le 8 s) in
    rw (
      size,
      byte_part_at [] (replicate 7 0 ∷ name_id ∷ le 8 s ∷ replicate 32 0 ∷ []) 0 refl 1,
      word_at ((1 ∷ []) ∷ replicate 7 0 ∷ name_id ∷ []) (replicate 32 0 ∷ []) 40 (omega arith) 8 s
          fits,
      part_at ((1 ∷ []) ∷ replicate 7 0 ∷ []) (le 8 s ∷ replicate 32 0 ∷ []) 8 refl name_id 32 long,
    )

by_hash_back :
    (hash : Bytes)
    → length hash ≡ 32
    → decode_get (concat_bytes ((2 ∷ []) ∷ replicate 7 0 ∷ replicate 32 0 ∷ le 8 0 ∷ hash ∷ []))
      ≡ ok (by_hash hash)
unfolding decode_get
by_hash_back hash long =
    let parts = (2 ∷ []) ∷ replicate 7 0 ∷ replicate 32 0 ∷ le 8 0 ∷ hash ∷ [] in
    let size : length (concat_bytes parts) ≡ 80 =
      omega (arith, length-concat_bytes parts, length-le 8 0) in
    rw (
      size,
      byte_part_at [] (replicate 7 0 ∷ replicate 32 0 ∷ le 8 0 ∷ hash ∷ []) 0 refl 2,
      part_at ((2 ∷ []) ∷ replicate 7 0 ∷ replicate 32 0 ∷ le 8 0 ∷ []) [] 48
          (omega (arith, length-le 8 0)) hash 32 long,
    )

-- A GET payload of either mode that is encoded is decoded again.
pub decode_get-encode_get :
    (p : GetPayload) (bs : Bytes) → encode_get p ≡ ok bs → decode_get bs ≡ ok (asked p)
decode_get-encode_get (by_name_seq name_id seq) bs e =
    let (long, same) = encode_by_name_seq-eq-ok name_id seq bs e in
    cc (same, by_name_seq_back name_id (wrap 64 seq) long (wrap-lt seq))
decode_get-encode_get (by_hash hash) bs e =
    let (long, same) = encode_by_hash-eq-ok hash bs e in cc (same, by_hash_back hash long)
