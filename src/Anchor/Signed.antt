-- ===== src/Anchor/Signed.antt =====
-- Building, verifying and matching anchors (core/src/anchor.ts).
use decentralized_dns.Prelude.{
  ◌-◌, ◌≡◌, refl, sym, ap, ◌∙◌, ◌↔◌, Bool, true, false, some, none, ◌++◌, length, take, ok,
  text_eq_iff, arith, length-append, take-append, append-nil, take_all, ==_iff, subst,
}
use decentralized_dns.Bytes.{Bytes}
use decentralized_dns.Wire.{value}
use decentralized_dns.Crypto.{Ed25519, ed25519_sign, ed25519_verify, ed25519_verify-ed25519_sign}
use decentralized_dns.Anchor.{
  AnchorV1, encode_anchor, decode_anchor, build_anchor, check_anchor, verify_anchor, Blake3,
  routeset_hash, anchor_matches_routeset,
}
use decentralized_dns.Anchor.Codec.{
  encode_anchor-Encoded, length-Encoded, decode_anchor-Encoded, received,
}

signed_layout :
    (a : AnchorV1) (sig plain bs : Bytes)
    → encode_anchor (record a { sig = none }) ≡ ok plain
    → encode_anchor (record a { sig = some sig }) ≡ ok bs
    → (bs ≡ plain ++ sig) × (length sig ≡ 64)
signed_layout a sig plain bs e e' =
    let (n, x) = encode_anchor-Encoded (record a { sig = none }) plain e in
    let (m, y) = encode_anchor-Encoded (record a { sig = some sig }) bs e' in
    let same : n ≡ m = ap value (sym x.ns_id_is ∙ y.ns_id_is) in
    let plain_is = x.laid_out ∙ append-nil _ in
    (cc (plain_is, y.laid_out, same), (==_iff (length sig) 64).0 y.sig_64)

module _ (ed : Ed25519) where
  build_anchor-eq-ok :
      (params : AnchorV1) (seed bs : Bytes)
      → build_anchor ed params seed ≡ ok bs
      → (plain : Bytes) × (sig : Bytes) × (encode_anchor params ≡ ok plain)
        × (ed25519_sign ed seed plain ≡ ok sig)
        × (encode_anchor (record params { sig = some sig }) ≡ ok bs)
  unfolding build_anchor
  build_anchor-eq-ok params seed bs e = ground arith

  verify_anchor_of_check :
      (bs : Bytes) (c : Bool) (a : AnchorV1) (sig : Bytes)
      → length bs ≡ 185
      → decode_anchor bs ≡ ok a
      → a.sig ≡ some sig
      → ed25519_verify ed a.owner_pub (take (length bs - 64) bs) sig ≡ ok true
      → verify_anchor ed bs c ≡ ok true
  unfolding verify_anchor
  verify_anchor_of_check bs true a sig long d s v = rw (long, d, s, check_anchor) v
  verify_anchor_of_check bs false a sig long d s v = rw (d, s, check_anchor, v)

  -- An anchor without a signature that `buildAnchorV1` signs with the seed of its owner's key is 185 bytes long, decodes
  -- to the anchor with a signature, and verifies, with and without the check of the length.
  pub verify_anchor-build_anchor :
      (params : AnchorV1) (seed bs : Bytes) (require_length : Bool)
      → params.sig ≡ none
      → build_anchor ed params seed ≡ ok bs
      → params.owner_pub ≡ ed.get_public_key seed
      → (length bs ≡ 185)
        × (verify_anchor ed bs require_length ≡ ok true)
        × ((sig : Bytes) × (decode_anchor bs ≡ ok (received (record params { sig = some sig }))))
  verify_anchor-build_anchor params seed bs c bare e owner =
      let (plain, sig, eplain, esig, enc) = build_anchor-eq-ok params seed bs e in
      let signed = record params { sig = some sig } in
      let unsigned : record params { sig = none } ≡ params = rw bare refl in
      let eplain' : encode_anchor (record params { sig = none }) ≡ ok plain =
        subst (λ a. encode_anchor a ≡ ok plain) (sym unsigned) eplain in
      let (laid, sig64) = signed_layout params sig plain bs eplain' enc in
      let (n, x) = encode_anchor-Encoded signed bs enc in
      let long : length bs ≡ 185 = omega (arith, length-Encoded signed n bs x) in
      let back = decode_anchor-Encoded signed n bs x in
      let cut : take (length bs - 64) bs ≡ plain =
        subst (λ (b : Bytes). take (length b - 64) b ≡ plain) (sym laid)
          (take-append (length (plain ++ sig) - 64) plain sig
            (omega (arith, length-append plain sig))) in
      let check = ed25519_verify-ed25519_sign ed seed plain sig esig in
      (
        long,
        verify_anchor_of_check bs c (received signed) sig long back refl (rw (cut, owner) check),
        (sig, back),
      )

-- An encoded anchor matches a route set exactly when the hash that it carries is the route set's.
pub anchor_matches_routeset_iff :
    (blake3 : Blake3) (a : AnchorV1) (anchor_bytes routeset_bytes : Bytes)
    → encode_anchor a ≡ ok anchor_bytes
    → (anchor_matches_routeset blake3 anchor_bytes routeset_bytes ≡ ok true)
      ↔ (a.routeset_hash ≡ routeset_hash blake3 routeset_bytes)
unfolding anchor_matches_routeset
anchor_matches_routeset_iff blake3 a anchor_bytes routeset_bytes e =
    let (n, x) = encode_anchor-Encoded a anchor_bytes e in
    let h = blake3.hash routeset_bytes in
    let whole = take_all 32 a.routeset_hash (omega (arith, x.routeset_hash_32)) in
    let whole' = take_all 32 h (omega (arith, blake3.hash_32 routeset_bytes)) in
    rw (decode_anchor-Encoded a n anchor_bytes x, whole, whole')
      (ground (arith, text_eq_iff a.routeset_hash h))
