-- ===== src/RouteSet/Signed/Verified.antt =====
-- What signing and verifying route sets establish (core/src/outeset.ts).
use decentralized_dns.Prelude.{
  ℕ, ◌-◌, ◌≤◌, ◌≡◌, refl, sym, ap, ◌∙◌, Bool, true, false, Option, some, none, ◌++◌, length, take,
  text_eq, text_eq_refl, text_eq_iff, Result, ok, >>=-eq-ok, if◌then◌else◌, arith, length-append,
  take-append, wrap, append-nil, Number, subst, ==_iff,
}
use decentralized_dns.Bytes.{Bytes}
use decentralized_dns.Bytes.Words.{wrap-lt, wrap-pos}
use decentralized_dns.Wire.{value}
use decentralized_dns.Crypto.{Ed25519, ed25519_sign, ed25519_verify, ed25519_verify-ed25519_sign}
use decentralized_dns.RouteSet.{
  RouteSetV1, encode_routeset, decode_routeset, sort_records_canonical,
}
use decentralized_dns.RouteSet.Codec.{
  received, encode_routeset-Encoded, decode_routeset-Encoded, encode_routeset_of_Encoded,
}
use decentralized_dns.RouteSet.Order.Canonical.{sort_records_canonical_idempotent}
use decentralized_dns.RouteSet.Signed.{sign_routeset, verify_decoded, verify_routeset}

-- The signed bytes are the unsigned ones with the signature behind them.
signed_layout :
    (rs : RouteSetV1) (sig plain bs : Bytes)
    → encode_routeset (record rs { sig = none }) true ≡ ok plain
    → encode_routeset (record rs { sig = some sig }) true ≡ ok bs
    → (bs ≡ plain ++ sig) × (length sig ≡ 64)
signed_layout rs sig plain bs e e' =
    let (n, x) = encode_routeset-Encoded (record rs { sig = none }) true plain e in
    let (m, y) = encode_routeset-Encoded (record rs { sig = some sig }) true bs e' in
    let same : n ≡ m = ap value' (sym x.ns_id_is ∙ y.ns_id_is) in
    let plain_is = x.laid_out ∙ append-nil _ in
    (cc (plain_is, y.laid_out, same), (==_iff (length sig) 64).0 y.sig_64)
  where
    value' : Number → ℕ
    value' x = value x

-- Encoding what a receiver decoded gives the canonical bytes again.
encode-received :
    (rs : RouteSetV1) (bs : Bytes)
    → encode_routeset rs true ≡ ok bs
    → encode_routeset (received rs (sort_records_canonical rs.records)) true ≡ ok bs
encode-received rs bs e =
    let (n, x) = encode_routeset-Encoded rs true bs e in
    let again = sort_records_canonical_idempotent rs.records in
    encode_routeset_of_Encoded (received rs (sort_records_canonical rs.records)) true n bs (record {
      name_id_32 = x.name_id_32;
      owner_pub_32 = x.owner_pub_32;
      ns_id_is = x.ns_id_is;
      ns_id_le = x.ns_id_le;
      sig_64 = x.sig_64;
      records_fit = rw again x.records_fit;
      laid_out =
          rw
            (
              again,
              wrap-pos 64 (wrap 64 rs.seq) (wrap-lt rs.seq),
              wrap-pos 64 (wrap 64 rs.exp) (wrap-lt rs.exp),
            )
            x.laid_out;
    })

branch :
    (bs b : Bytes) (r : Result Bool)
    → (if text_eq b bs then r else ok false) ≡ ok true
    → (b ≡ bs) × (r ≡ ok true)
branch bs b r h = ground (arith, text_eq_iff b bs)

module _ (ed : Ed25519) where
  sign_routeset-eq-ok :
      (rs signed : RouteSetV1) (seed : Bytes)
      → sign_routeset ed rs seed ≡ ok signed
      → (plain : Bytes) × (sig : Bytes) × (encode_routeset rs true ≡ ok plain)
        × (ed25519_sign ed seed plain ≡ ok sig)
        × (signed ≡ record rs { sig = some sig })
  unfolding sign_routeset
  sign_routeset-eq-ok rs signed seed e = ground arith

  verify_routeset_of_check :
      (bs : Bytes) (r : RouteSetV1) (sig : Bytes) (c : Bool)
      → decode_routeset bs ≡ ok r
      → r.sig ≡ some sig
      → encode_routeset r true ≡ ok bs
      → ed25519_verify ed r.owner_pub (take (length bs - 64) bs) sig ≡ ok true
      → verify_routeset ed bs c ≡ ok true
  unfolding verify_routeset
  verify_routeset_of_check bs r sig true d s e v = rw (d, s, verify_decoded, e, text_eq_refl bs, v)
  verify_routeset_of_check bs r sig false d s e v = rw (d, s, verify_decoded, v)

  -- A route set without a signature that is signed with the seed of its owner's key, and encoded, verifies,
  -- with and without the demand for the canonical encoding.
  pub verify_routeset-sign_routeset :
      (rs signed : RouteSetV1) (seed bs : Bytes) (require_canonical : Bool)
      → rs.sig ≡ none
      → sign_routeset ed rs seed ≡ ok signed
      → rs.owner_pub ≡ ed.get_public_key seed
      → encode_routeset signed true ≡ ok bs
      → length (sort_records_canonical rs.records) ≤ 0xffffffff
      → verify_routeset ed bs require_canonical ≡ ok true
  verify_routeset-sign_routeset rs signed seed bs canonical bare e owner enc few =
      let (plain, sig, eplain, esig, is_signed) = sign_routeset-eq-ok rs signed seed e in
      let signed' = record rs { sig = some sig } in
      let enc' : encode_routeset signed' true ≡ ok bs =
        subst (λ r. encode_routeset r true ≡ ok bs) is_signed enc in
      let unsigned : record rs { sig = none } ≡ rs = rw bare refl in
      let eplain' : encode_routeset (record rs { sig = none }) true ≡ ok plain =
        subst (λ r. encode_routeset r true ≡ ok plain) (sym unsigned) eplain in
      let (laid, sig64) = signed_layout rs sig plain bs eplain' enc' in
      let (n, x) = encode_routeset-Encoded signed' true bs enc' in
      let back = decode_routeset-Encoded signed' (sort_records_canonical rs.records) n bs x few in
      let again = encode-received signed' bs enc' in
      let cut : take (length bs - 64) bs ≡ plain =
        subst (λ (b : Bytes). take (length b - 64) b ≡ plain) (sym laid)
          (take-append (length (plain ++ sig) - 64) plain sig
            (omega (arith, length-append plain sig))) in
      let check = ed25519_verify-ed25519_sign ed seed plain sig esig in
      verify_routeset_of_check bs (received signed' (sort_records_canonical rs.records)) sig
        canonical back refl again (rw (cut, owner) check)

  verify_decoded_canonical :
      (bs : Bytes) (r : RouteSetV1) (o : Option Bytes)
      → verify_decoded ed bs true r o ≡ ok true
      → (sig : Bytes) × (o ≡ some sig)
        × (encode_routeset r true ≡ ok bs)
        × (ed25519_verify ed r.owner_pub (take (length bs - 64) bs) sig ≡ ok true)
  unfolding verify_decoded
  verify_decoded_canonical bs r none v = cc
  verify_decoded_canonical bs r (some sig) v =
      let (recoded, e, w) =
        >>=-eq-ok (encode_routeset r true)
          (λ (b : Bytes).
            if text_eq b bs
            then ed25519_verify ed r.owner_pub (take (length bs - 64) bs) sig
            else ok false)
          v in
      let (same, check) =
        branch bs recoded (ed25519_verify ed r.owner_pub (take (length bs - 64) bs) sig) w in
      (sig, refl, cc (e, same), check)

  -- When the canonical encoding is demanded, a buffer that verifies is the canonical encoding of
  -- the signed route set that it decodes to, and its signature passes for that owner.
  pub verify_routeset_canonical :
      (bs : Bytes)
      → verify_routeset ed bs true ≡ ok true
      → (r : RouteSetV1) × (sig : Bytes) × (decode_routeset bs ≡ ok r)
        × (r.sig ≡ some sig)
        × (encode_routeset r true ≡ ok bs)
        × (ed25519_verify ed r.owner_pub (take (length bs - 64) bs) sig ≡ ok true)
  unfolding verify_routeset
  verify_routeset_canonical bs e =
      let (r, d, v) =
        >>=-eq-ok (decode_routeset bs) (λ (r : RouteSetV1). verify_decoded ed bs true r r.sig) e in
      let (sig, is_sig, canonical, check) = verify_decoded_canonical bs r r.sig v in
      (r, sig, d, is_sig, canonical, check)
