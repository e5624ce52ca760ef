-- ===== src/Escrow/Vouchers.antt =====
-- labs/escrow/src/vouchers.ts: `VoucherVerifierMemory`, the check of signed vouchers. The functions of
-- the platform are parameters: `stringify` is `JSON.stringify` of a payload, `hmac_hex` the HMAC with
-- SHA-256 of a secret and a body, `sha256_hex` the hash, and `big_int` is `BigInt` of a text, `none` where it throws.
pub mod Replay
use decentralized_dns.Prelude.{
  Bool, true, false, ◌&&◌, not, Option, none, some, List, [], ◌∷◌, ℤ, pos, leb_ℤ, Text, text_eq,
  Result, ok, err, ◌>>=◌, ◌>>◌, require, if◌then◌else◌,
}
use decentralized_dns.Prelude.Doubles.{Double, less, truthy, given}
use decentralized_dns.Prelude.Maps.{lookup, assign}
use decentralized_dns.Escrow.{has, add, zero_bigint}

pub record VoucherScope : Type 0 where
  pub max_amount : Text
  pub exp : Double
  pub resolver : Option Text

pub record VoucherPayload : Type 0 where
  pub user : Text
  pub nonce : Text
  pub scope : VoucherScope

pub record SignedVoucher : Type 0 where
  pub payload : VoucherPayload
  pub signature : Text

pub record VoucherVerifierMemory : Type 0 where
  pub last_nonce : List (Text × ℤ)
  pub used : List Text

-- The answers of `verify`: `{ ok: true }`, or `{ ok: false, reason }`.
pub data Verdict : Type 0 where
  accepted bad_signature nonce_too_low replay expired : Verdict

-- `constructor`: the secret is kept, and nothing was seen.
unfoldable pub new_verifier : Text → Result (Text × VoucherVerifierMemory)
new_verifier [] = err "secret_required"
new_verifier (c ∷ secret) = ok (c ∷ secret, record { last_nonce = []; used = [] })

abbrev pub last_of : VoucherVerifierMemory → Text → ℤ
last_of s user = given (lookup user s.last_nonce) zero_bigint

-- `voucher.payload.scope.exp && now > voucher.payload.scope.exp`
abbrev pub is_expired : Double → VoucherPayload → Bool
is_expired now payload = truthy payload.scope.exp && less payload.scope.exp now

module _ (stringify : VoucherPayload → Text) (hmac_hex : Text → Text → Text)
    (sha256_hex : Text → Text) (big_int : Text → Option ℤ) (secret : Text) where
  unfoldable pub sign : VoucherPayload → SignedVoucher
  sign payload = record { payload = payload; signature = hmac_hex secret (stringify payload) }

  unfoldable pub voucher_id : VoucherPayload → Text
  voucher_id payload = sha256_hex (stringify payload)

  -- `verify` from the nonce on.
  unfoldable pub check_nonce :
      VoucherPayload → ℤ → Double → VoucherVerifierMemory → Verdict × VoucherVerifierMemory
  check_nonce payload nonce now s =
      if leb_ℤ nonce (last_of s payload.user)
      then (nonce_too_low, s)
      else if has (voucher_id payload) s.used
      then (replay, s)
      else if is_expired now payload
      then (expired, s)
      else (
        accepted,
        record {
          last_nonce = assign payload.user nonce s.last_nonce;
          used = add (voucher_id payload) s.used;
        },
      )

  unfoldable pub with_nonce :
      VoucherPayload
      → Option ℤ
      → Double
      → VoucherVerifierMemory
      → Result (Verdict × VoucherVerifierMemory)
  with_nonce payload none now s = err "SyntaxError"
  with_nonce payload (some nonce) now s = ok (check_nonce payload nonce now s)

  unfoldable pub verify :
      SignedVoucher → Double → VoucherVerifierMemory → Result (Verdict × VoucherVerifierMemory)
  unfolding with_nonce check_nonce
  verify voucher now s =
      if text_eq voucher.signature (hmac_hex secret (stringify voucher.payload))
      then with_nonce voucher.payload (big_int voucher.payload.nonce) now s
      else ok (bad_signature, s)

  -- The memory after a call: a call that throws leaves it.
  abbrev pub memory_after :
      Result (Verdict × VoucherVerifierMemory) → VoucherVerifierMemory → VoucherVerifierMemory
  memory_after (ok (verdict, s')) s = s'
  memory_after (err message) s = s

  unfoldable pub verify_all :
      List (SignedVoucher × Double) → VoucherVerifierMemory → VoucherVerifierMemory
  verify_all [] s = s
  verify_all ((voucher, now) ∷ later) s = verify_all later (memory_after (verify voucher now s) s)
