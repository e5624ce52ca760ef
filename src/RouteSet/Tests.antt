-- ===== src/RouteSet/Tests.antt =====
-- Runs of the route set codec, and the properties of RouteSet at concrete route sets.
use mathlib.Core.List.Perm
use decentralized_dns.Prelude.{
  ◌≡◌, ◌≢◌, refl, true, false, some, none, [], ◌∷◌, ◌++◌, replicate, ok, pos, negsuc, nat, text_eq,
  text_eq_refl, arith, ◌-ℤ◌,
}
use decentralized_dns.Bytes.{Bytes, le, of_le, read_le, u16le, u32le, u64le, concat_bytes}
use decentralized_dns.Bytes.Cursor.{next_le, next_slice, repeat}
use decentralized_dns.Wire.{in_range}
use decentralized_dns.Crypto.{Ed25519, ed25519_sign, ed25519_verify}
use decentralized_dns.RouteSet.{
  RecordV1, RouteSetV1, compare_bytes, compare_records, unless_zero, encode_routeset,
  encode_records, decode_routeset, decode_record, sort_records_canonical,
}
use decentralized_dns.RouteSet.Codec.{received, written, decode_routeset-encode_routeset}
use decentralized_dns.RouteSet.Order.Canonical.{sort_records_canonical_unique}
use decentralized_dns.RouteSet.Signed.{sign_routeset, verify_routeset}
use decentralized_dns.RouteSet.Signed.Verified.{
  verify_routeset-sign_routeset, verify_routeset_canonical,
}

codec : Unit {0}
unfolding encode_routeset encode_records decode_routeset decode_record sort_records_canonical
    compare_records compare_bytes unless_zero ◌-ℤ◌ in_range u16le u32le u64le le of_le read_le
    next_le next_slice repeat concat_bytes text_eq sign_routeset verify_routeset ed25519_sign
    ed25519_verify
codec = tt

abbrev a_record : RecordV1
a_record = record { rr_type = nat 1; rr_class = nat 1; ttl = nat 300; rdata = 10 ∷ 0 ∷ 0 ∷ 1 ∷ [] }

abbrev txt_record : RecordV1
txt_record = record { rr_type = nat 16; rr_class = nat 1; ttl = nat 60; rdata = 104 ∷ 105 ∷ [] }

abbrev site : RouteSetV1
site = record {
  ns_id = nat 1;
  name_id = replicate 32 2;
  seq = pos 7;
  exp = negsuc 0;
  records = txt_record ∷ a_record ∷ [];
  owner_pub = replicate 32 3;
  sig = none;
}

abbrev wire_front : Bytes
wire_front =
    82
    ∷ 83
    ∷ 69
    ∷ 84
    ∷ 1
    ∷ 1
    ∷ 0
    ∷ 0
    ∷ 0
    ∷ (replicate 32 2
        ++ (7
            ∷ 0
            ∷ 0
            ∷ 0
            ∷ 0
            ∷ 0
            ∷ 0
            ∷ 0
            ∷ 255
            ∷ 255
            ∷ 255
            ∷ 255
            ∷ 255
            ∷ 255
            ∷ 255
            ∷ 255
            ∷ 2
            ∷ 0
            ∷ 0
            ∷ 0
            ∷ 1
            ∷ 0
            ∷ 1
            ∷ 0
            ∷ 44
            ∷ 1
            ∷ 0
            ∷ 0
            ∷ 4
            ∷ 0
            ∷ 10
            ∷ 0
            ∷ 0
            ∷ 1
            ∷ 16
            ∷ 0
            ∷ 1
            ∷ 0
            ∷ 60
            ∷ 0
            ∷ 0
            ∷ 0
            ∷ 2
            ∷ 0
            ∷ 104
            ∷ 105
            ∷ replicate 32 3))

site_runs : encode_routeset site true ≡ ok wire_front
unfolding codec
site_runs = refl

site_decodes : decode_routeset wire_front ≡ ok (received site (a_record ∷ txt_record ∷ []))
unfolding codec
site_decodes = refl

decode_routeset-encode_routeset_example :
    decode_routeset wire_front ≡ ok (received site (written true site))
unfolding sort_records_canonical compare_records unless_zero ◌-ℤ◌
decode_routeset-encode_routeset_example =
    decode_routeset-encode_routeset site true wire_front site_runs (omega arith)

sort_records_canonical_unique_example :
    sort_records_canonical (txt_record ∷ a_record ∷ [])
    ≡ sort_records_canonical (a_record ∷ txt_record ∷ [])
sort_records_canonical_unique_example =
    sort_records_canonical_unique (nat 1) (txt_record ∷ a_record ∷ []) (a_record ∷ txt_record ∷ [])
      (Perm.swap a_record txt_record []) ((refl, refl, refl), ((refl, refl, refl), tt))

abbrev chaos_record : RecordV1
chaos_record = record a_record { rr_class = nat 3 }

chaos_class : a_record.rr_class ≢ chaos_record.rr_class
chaos_class e = ground arith

-- A signature scheme for which the assumptions hold: every signature is the same 64 bytes.
abbrev toy_sig : Bytes
toy_sig = replicate 64 9

abbrev toy_ed25519 : Ed25519
toy_ed25519 = record {
  get_public_key = λ seed. replicate 32 3;
  sign = λ payload seed. toy_sig;
  verify = λ sig payload key. text_eq sig toy_sig;
  public_key_32 = λ seed. refl;
  signature_64 = λ payload seed. refl;
  verify-sign = λ payload seed. text_eq_refl toy_sig;
}

abbrev signed_site : RouteSetV1
signed_site = record site { sig = some toy_sig }

sign_runs : sign_routeset toy_ed25519 site (replicate 32 1) ≡ ok signed_site
unfolding codec
sign_runs = refl

signed_runs : encode_routeset signed_site true ≡ ok (wire_front ++ toy_sig)
unfolding codec
signed_runs = refl

verify_routeset-sign_routeset_example :
    verify_routeset toy_ed25519 (wire_front ++ toy_sig) true ≡ ok true
unfolding sort_records_canonical compare_records unless_zero ◌-ℤ◌
verify_routeset-sign_routeset_example =
    verify_routeset-sign_routeset toy_ed25519 site signed_site (replicate 32 1)
      (wire_front ++ toy_sig) true refl sign_runs refl signed_runs (omega arith)

site_verifies : verify_routeset toy_ed25519 (wire_front ++ toy_sig) true ≡ ok true
unfolding codec
site_verifies = refl

tampered : verify_routeset toy_ed25519 (wire_front ++ (8 ∷ replicate 63 9)) true ≡ ok false
unfolding codec
tampered = refl

verify_routeset_canonical_example :
    (r : RouteSetV1) × (sig : Bytes) × (decode_routeset (wire_front ++ toy_sig) ≡ ok r)
    × (r.sig ≡ some sig)
    × (encode_routeset r true ≡ ok (wire_front ++ toy_sig))
    × (ed25519_verify toy_ed25519 r.owner_pub wire_front sig ≡ ok true)
verify_routeset_canonical_example =
    verify_routeset_canonical toy_ed25519 (wire_front ++ toy_sig) site_verifies
