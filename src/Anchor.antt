-- ===== src/Anchor.antt =====
-- core/src/anchor.ts: AnchorV1, the signed 185-byte summary of a route set.
pub mod Codec
pub mod Signed
mod Tests
use decentralized_dns.Prelude.{
  ℕ, ◌+◌, ◌-◌, ◌≡◌, Bool, true, false, not, ◌&&◌, Option, some, none, List, [], ◌∷◌, ◌++◌, length,
  take, leb, ltb, ◌==◌, Result, ok, err, ◌>>=◌, ◌>>◌, require, Number, ℤ, pos, nat, codes, text_eq,
  if◌then◌else◌,
}
use decentralized_dns.Bytes.{Bytes, ascii, u32le, u64le, concat_bytes}
use decentralized_dns.Bytes.Cursor.{next_le, next_slice, next_byte}
use decentralized_dns.Wire.{in_range}
use decentralized_dns.Crypto.{Ed25519, ed25519_sign, ed25519_verify}
use decentralized_dns.RouteSet.{is_one, trailing_sig, sig_ok, sig_bytes}

pub record AnchorV1 : Type 0 where
  pub ns_id : Number
  pub name_id : Bytes
  pub seq : ℤ
  pub exp : ℤ
  pub routeset_hash : Bytes
  pub owner_pub : Bytes
  pub sig : Option Bytes

unfoldable pub anchor_magic : Bytes
unfolding ascii
anchor_magic = ascii (codes "ANCH")

abbrev pub anchor_v1_len : ℕ
anchor_v1_len = 185

unfoldable pub encode_anchor : AnchorV1 → Result Bytes
unfolding anchor_magic
encode_anchor a = do
  ns_id ← in_range 0xffffffff a.ns_id "ns_id out of range"
  require (length a.name_id == 32) "name_id must be 32 bytes"
  require (length a.routeset_hash == 32) "routeset_hash must be 32 bytes"
  require (length a.owner_pub == 32) "owner_pub must be 32 bytes"
  require (sig_ok a.sig) "sig must be 64 bytes"
  let without_sig = concat_bytes (
      anchor_magic
      ∷ (1 ∷ [])
      ∷ u32le ns_id
      ∷ a.name_id
      ∷ u64le a.seq
      ∷ u64le a.exp
      ∷ a.routeset_hash
      ∷ a.owner_pub
      ∷ [])
  ok (without_sig ++ sig_bytes a.sig)

unfoldable pub decode_anchor : Bytes → Result AnchorV1
unfolding next_byte anchor_magic
decode_anchor bytes = do
  require (leb (anchor_v1_len - 64) (length bytes)) "anchor too short"
  let (magic, rest1) = next_slice 4 bytes
  require (text_eq magic anchor_magic) "bad magic"
  let (version, rest2) = next_byte rest1
  require (is_one version) "bad version"
  ns_id ← next_le 4 rest2
  let (name_id, rest3) = next_slice 32 ns_id.1
  seq ← next_le 8 rest3
  exp ← next_le 8 seq.1
  let (routeset_hash, rest4) = next_slice 32 exp.1
  let (owner_pub, rest5) = next_slice 32 rest4
  ok (record {
    ns_id = nat ns_id.0;
    name_id = name_id;
    seq = pos seq.0;
    exp = pos exp.0;
    routeset_hash = routeset_hash;
    owner_pub = owner_pub;
    sig = trailing_sig rest5;
  })

module _ (ed : Ed25519) where
  unfoldable pub build_anchor : AnchorV1 → Bytes → Result Bytes
  build_anchor params priv_seed = do
    no_sig_bytes ← encode_anchor params
    sig ← ed25519_sign ed priv_seed no_sig_bytes
    encode_anchor (record params { sig = some sig })

  unfoldable pub check_anchor : Bytes → AnchorV1 → Option Bytes → Result Bool
  check_anchor anchor_bytes a none = ok false
  check_anchor anchor_bytes a (some sig) =
      ed25519_verify ed a.owner_pub (take (length anchor_bytes - 64) anchor_bytes) sig

  unfoldable pub verify_anchor : Bytes → Bool → Result Bool
  unfolding check_anchor
  verify_anchor anchor_bytes require_length =
      if require_length && not (length anchor_bytes == anchor_v1_len)
      then ok false
      else (do a ← decode_anchor anchor_bytes; check_anchor anchor_bytes a a.sig)

-- BLAKE3 with 32 bytes of output, of @noble/hashes.
pub record Blake3 : Type 0 where
  pub hash : Bytes → Bytes
  pub hash_32 : (payload : Bytes) → length (hash payload) ≡ 32

module _ (blake3 : Blake3) where
  -- `routesetHash` of core/src/outeset.ts
  unfoldable pub routeset_hash : Bytes → Bytes
  routeset_hash routeset_bytes = blake3.hash routeset_bytes

  unfoldable pub anchor_hash : Bytes → Bytes
  anchor_hash anchor_bytes = blake3.hash anchor_bytes

  -- The loop compares the first 32 bytes.
  unfoldable pub anchor_matches_routeset : Bytes → Bytes → Result Bool
  unfolding routeset_hash
  anchor_matches_routeset anchor_bytes routeset_bytes = do
    a ← decode_anchor anchor_bytes
    ok (text_eq (take 32 a.routeset_hash) (take 32 (routeset_hash routeset_bytes)))
