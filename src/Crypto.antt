-- ===== src/Crypto.antt =====
-- core/src/crypto_ed25519.ts: the wrappers around @noble/ed25519. The library itself is not in the
-- repository: `Ed25519` names its operations and what the code relies on.
use decentralized_dns.Prelude.{◌≡◌, Bool, true, length, ◌==◌, Result, ok, ◌>>◌, require, arith}
use decentralized_dns.Bytes.{Bytes}

pub record Ed25519 : Type 0 where
  pub get_public_key : Bytes → Bytes
  pub sign : Bytes → Bytes → Bytes
  pub verify : Bytes → Bytes → Bytes → Bool
  pub public_key_32 : (seed : Bytes) → length (get_public_key seed) ≡ 32
  pub signature_64 : (payload seed : Bytes) → length (sign payload seed) ≡ 64
  pub verify-sign :
      (payload seed : Bytes) → verify (sign payload seed) payload (get_public_key seed) ≡ true

module _ (ed : Ed25519) where
  unfoldable pub ed25519_keypair_from_seed : Bytes → Result (Bytes × Bytes)
  ed25519_keypair_from_seed seed = do
    require (length seed == 32) "seed must be 32 bytes"
    ok (ed.get_public_key seed, seed)

  unfoldable pub ed25519_sign : Bytes → Bytes → Result Bytes
  ed25519_sign seed payload = do
    require (length seed == 32) "priv seed must be 32 bytes"
    ok (ed.sign payload seed)

  unfoldable pub ed25519_verify : Bytes → Bytes → Bytes → Result Bool
  ed25519_verify key payload sig = do
    require (length key == 32) "pub must be 32 bytes"
    require (length sig == 64) "sig must be 64 bytes"
    ok (ed.verify sig payload key)

  pub ed25519_sign-eq-ok :
      (seed payload sig : Bytes)
      → ed25519_sign seed payload ≡ ok sig
      → (sig ≡ ed.sign payload seed) × (length seed ≡ 32)
  unfolding ed25519_sign
  ed25519_sign-eq-ok seed payload sig e = ground arith

  -- A signature made by the wrapper passes the wrapper's verification under the seed's key.
  pub ed25519_verify-ed25519_sign :
      (seed payload sig : Bytes)
      → ed25519_sign seed payload ≡ ok sig
      → ed25519_verify (ed.get_public_key seed) payload sig ≡ ok true
  unfolding ed25519_verify
  ed25519_verify-ed25519_sign seed payload sig e =
      let (same, _) = ed25519_sign-eq-ok seed payload sig e in
      rw (same, ed.public_key_32 seed, ed.signature_64 payload seed, ed.verify-sign payload seed)
