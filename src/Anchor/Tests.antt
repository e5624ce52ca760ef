-- ===== src/Anchor/Tests.antt =====
-- Runs of the anchor codec, and the properties of Anchor at concrete anchors.
use decentralized_dns.Prelude.{
  ◌≡◌, refl, true, false, none, ◌∷◌, ◌++◌, length, replicate, ok, pos, nat, text_eq, text_eq_refl,
}
use decentralized_dns.Bytes.{Bytes, le, of_le, read_le, u32le, u64le, concat_bytes}
use decentralized_dns.Bytes.Cursor.{next_le, next_slice}
use decentralized_dns.Wire.{in_range}
use decentralized_dns.Crypto.{Ed25519, ed25519_sign, ed25519_verify}
use decentralized_dns.Anchor.{
  AnchorV1, encode_anchor, decode_anchor, build_anchor, verify_anchor, Blake3,
  anchor_matches_routeset,
}
use decentralized_dns.Anchor.Codec.{received, decode_anchor-encode_anchor}

codec : Unit {0}
unfolding encode_anchor decode_anchor in_range u32le u64le le of_le read_le next_le next_slice
    concat_bytes text_eq build_anchor verify_anchor ed25519_sign ed25519_verify
    anchor_matches_routeset
codec = tt

abbrev anchor : AnchorV1
anchor = record {
  ns_id = nat 1;
  name_id = replicate 32 2;
  seq = pos 7;
  exp = pos 256;
  routeset_hash = replicate 32 4;
  owner_pub = replicate 32 3;
  sig = none;
}

abbrev anchor_bytes : Bytes
anchor_bytes =
    65
    ∷ 78
    ∷ 67
    ∷ 72
    ∷ 1
    ∷ 1
    ∷ 0
    ∷ 0
    ∷ 0
    ∷ (replicate 32 2
        ++ (7
            ∷ 0
            ∷ 0
            ∷ 0
            ∷ 0
            ∷ 0
            ∷ 0
            ∷ 0
            ∷ 0
            ∷ 1
            ∷ 0
            ∷ 0
            ∷ 0
            ∷ 0
            ∷ 0
            ∷ 0
            ∷ (replicate 32 4 ++ replicate 32 3)))

anchor_runs : encode_anchor anchor ≡ ok anchor_bytes
unfolding codec
anchor_runs = refl

decode_anchor-encode_anchor_example :
    (length anchor_bytes ≡ 121) × (decode_anchor anchor_bytes ≡ ok (received anchor))
decode_anchor-encode_anchor_example = decode_anchor-encode_anchor anchor anchor_bytes anchor_runs

abbrev toy_sig : Bytes
toy_sig = replicate 64 9

-- A signature scheme for which the assumptions hold: every signature is the same 64 bytes.
abbrev toy_ed25519 : Ed25519
toy_ed25519 = record {
  get_public_key = λ seed. replicate 32 3;
  sign = λ payload seed. toy_sig;
  verify = λ sig payload key. text_eq sig toy_sig;
  public_key_32 = λ seed. refl;
  signature_64 = λ payload seed. refl;
  verify-sign = λ payload seed. text_eq_refl toy_sig;
}

build_runs : build_anchor toy_ed25519 anchor (replicate 32 1) ≡ ok (anchor_bytes ++ toy_sig)
unfolding codec
build_runs = refl

too_long : verify_anchor toy_ed25519 (anchor_bytes ++ 0 ∷ toy_sig) true ≡ ok false
unfolding codec
too_long = refl

-- A hash for which the assumption holds: every payload has the same 32 bytes.
abbrev toy_blake3 : Blake3
toy_blake3 = record { hash = λ payload. replicate 32 4; hash_32 = λ payload. refl }
