-- ===== src/Anchor/Codec.antt =====
-- The AnchorV1 codec of core/src/anchor.ts: what is encoded, its size, and that it is decoded again.
use decentralized_dns.Prelude.{
  ℕ, ◌+◌, ◌≤◌, ◌≡◌, refl, ap, ◌∙◌, true, List, [], ◌∷◌, ◌++◌, length, arith, text_eq_refl, ok, pos,
  nat, wrap, le→leb, length-append,
}
use decentralized_dns.Bytes.{Bytes, le, u32le, u64le, concat_bytes}
use decentralized_dns.Bytes.Words.{wrap-lt, length-le}
use decentralized_dns.Bytes.Parts.{concat_bytes-front, concat_bytes-end, length-concat_bytes}
use decentralized_dns.Bytes.Cursor.{next_le-le, next_slice-append}
use decentralized_dns.Wire.{in_range}
use decentralized_dns.RouteSet.{sig_ok, sig_bytes}
use decentralized_dns.RouteSet.Codec.{trailing_sig-sig_bytes}
use decentralized_dns.Anchor.{AnchorV1, anchor_magic, encode_anchor, decode_anchor}

abbrev anchor_parts : ℕ → AnchorV1 → List Bytes
anchor_parts n a =
    anchor_magic
    ∷ (1 ∷ [])
    ∷ le 4 n
    ∷ a.name_id
    ∷ le 8 (wrap 64 a.seq)
    ∷ le 8 (wrap 64 a.exp)
    ∷ a.routeset_hash
    ∷ a.owner_pub
    ∷ []

-- What holds of an anchor that is encoded, and the bytes that it is encoded to.
pub record Encoded (a : AnchorV1) (n : ℕ) (bs : Bytes) : Type 0 where
  pub name_id_32 : length a.name_id ≡ 32
  pub routeset_hash_32 : length a.routeset_hash ≡ 32
  pub owner_pub_32 : length a.owner_pub ≡ 32
  pub ns_id_is : a.ns_id ≡ nat n
  pub ns_id_le : n ≤ 0xffffffff
  pub sig_64 : sig_ok a.sig ≡ true
  pub laid_out : bs ≡ concat_bytes (anchor_parts n a) ++ sig_bytes a.sig

pub encode_anchor-Encoded :
    (a : AnchorV1) (bs : Bytes) → encode_anchor a ≡ ok bs → (n : ℕ) × Encoded a n bs
unfolding encode_anchor in_range u32le u64le
encode_anchor-Encoded a bs e =
    let (n, h1, h2, h3, h4, h5, h6, h7) = fields in
    (
      n,
      record {
        name_id_32 = h1;
        routeset_hash_32 = h2;
        owner_pub_32 = h3;
        ns_id_is = h4;
        ns_id_le = h5;
        sig_64 = h6;
        laid_out = h7;
      },
    )
  where
    fields :
        (n : ℕ) × (length a.name_id ≡ 32)
        × (length a.routeset_hash ≡ 32)
        × (length a.owner_pub ≡ 32)
        × (a.ns_id ≡ nat n)
        × (n ≤ 0xffffffff)
        × (sig_ok a.sig ≡ true)
        × (bs ≡ concat_bytes (anchor_parts n a) ++ sig_bytes a.sig)
    fields = ground (arith, e)

-- The anchor as the receiver sees it.
abbrev pub received : AnchorV1 → AnchorV1
received a = record a { seq = pos (wrap 64 a.seq); exp = pos (wrap 64 a.exp) }

module _ (a : AnchorV1) (n : ℕ) (bs : Bytes) (x : Encoded a n bs) where
  pub length-Encoded : length bs ≡ 121 + length (sig_bytes a.sig)
  unfolding anchor_magic
  length-Encoded =
      ap length x.laid_out
      ∙ omega (
        arith,
        length-append (concat_bytes (anchor_parts n a)) (sig_bytes a.sig),
        length-concat_bytes (anchor_parts n a),
        length-le 4 n,
        length-le 8 (wrap 64 a.seq),
        length-le 8 (wrap 64 a.exp),
        x.name_id_32,
        x.routeset_hash_32,
        x.owner_pub_32,
      )

  pub decode_anchor-Encoded : decode_anchor bs ≡ ok (received a)
  unfolding decode_anchor
  decode_anchor-Encoded =
      let rest = sig_bytes a.sig in
      rw
        (
          le→leb 121 (length bs) (omega (arith, length-Encoded)),
          x.laid_out,
          concat_bytes-front anchor_magic _ rest,
          next_slice-append 4 anchor_magic _ (unfold anchor_magic in refl),
          text_eq_refl anchor_magic,
          concat_bytes-front (1 ∷ []) _ rest,
          concat_bytes-front (le 4 n) _ rest,
          next_le-le 4 n _ (omega (arith, x.ns_id_le)),
          concat_bytes-front a.name_id _ rest,
          next_slice-append 32 a.name_id _ x.name_id_32,
          concat_bytes-front (le 8 (wrap 64 a.seq)) _ rest,
          next_le-le 8 (wrap 64 a.seq) _ (wrap-lt a.seq),
          concat_bytes-front (le 8 (wrap 64 a.exp)) _ rest,
          next_le-le 8 (wrap 64 a.exp) _ (wrap-lt a.exp),
          concat_bytes-front a.routeset_hash _ rest,
          next_slice-append 32 a.routeset_hash _ x.routeset_hash_32,
          concat_bytes-front a.owner_pub _ rest,
          next_slice-append 32 a.owner_pub _ x.owner_pub_32,
          concat_bytes-end rest,
        )
        (cc (trailing_sig-sig_bytes a.sig x.sig_64, x.ns_id_is))

-- Whatever `encodeAnchorV1` returns is 121 bytes, or 185 with a signature, and is decoded to the
-- anchor with its two 64-bit fields modulo 2 ^ 64.
pub decode_anchor-encode_anchor :
    (a : AnchorV1) (bs : Bytes)
    → encode_anchor a ≡ ok bs
    → (length bs ≡ 121 + length (sig_bytes a.sig)) × (decode_anchor bs ≡ ok (received a))
decode_anchor-encode_anchor a bs e =
    let (n, x) = encode_anchor-Encoded a bs e in
    (length-Encoded a n bs x, decode_anchor-Encoded a n bs x)
