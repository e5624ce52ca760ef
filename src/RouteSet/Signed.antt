-- ===== src/RouteSet/Signed.antt =====
-- Signing and verifying route sets: `signRouteSetV1` and `verifyRouteSetV1` of core/src/outeset.ts.
pub mod Verified
use decentralized_dns.Prelude.{
  ℕ, ◌-◌, Bool, true, false, Option, some, none, List, length, take, text_eq, Result, ok, err,
  ◌>>=◌, if◌then◌else◌,
}
use decentralized_dns.Bytes.{Bytes}
use decentralized_dns.Crypto.{Ed25519, ed25519_sign, ed25519_verify}
use decentralized_dns.RouteSet.{RouteSetV1, encode_routeset, decode_routeset}

module _ (ed : Ed25519) where
  -- The type of the argument leaves the signature out; one that is there all the same is signed with the rest.
  unfoldable pub sign_routeset : RouteSetV1 → Bytes → Result RouteSetV1
  sign_routeset unsigned priv_seed = do
    bytes_no_sig ← encode_routeset unsigned true
    sig ← ed25519_sign ed priv_seed bytes_no_sig
    ok (record unsigned { sig = some sig })

  -- The signed part is the buffer without its last 64 bytes.
  unfoldable pub check_signature : Bytes → RouteSetV1 → Bytes → Result Bool
  check_signature routeset_bytes rs sig =
      ed25519_verify ed rs.owner_pub (take (length routeset_bytes - 64) routeset_bytes) sig

  unfoldable pub verify_decoded : Bytes → Bool → RouteSetV1 → Option Bytes → Result Bool
  unfolding check_signature
  verify_decoded routeset_bytes require_canonical rs none = ok false
  verify_decoded routeset_bytes true rs (some sig) = do
    recoded ← encode_routeset rs true
    if text_eq recoded routeset_bytes then check_signature routeset_bytes rs sig else ok false
  verify_decoded routeset_bytes false rs (some sig) = check_signature routeset_bytes rs sig

  unfoldable pub verify_routeset : Bytes → Bool → Result Bool
  unfolding verify_decoded
  verify_routeset routeset_bytes require_canonical = do
    rs ← decode_routeset routeset_bytes
    verify_decoded routeset_bytes require_canonical rs rs.sig
