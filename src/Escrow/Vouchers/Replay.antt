-- ===== src/Escrow/Vouchers/Replay.antt =====
-- Which vouchers are accepted, and how often (labs/escrow/src/vouchers.ts).
use decentralized_dns.Prelude.{
  ◌≡◌, ◌↔◌, ◌&&◌, inl, inr, ap, if_both, true, false, Bool-cases, Option, some, Option-cases, List,
  [], ◌∷◌, ℤ, ◌≤ℤ◌, ◌<ℤ◌, leb_ℤ, Text, text_eq, text_eq_iff, text_eq_refl, Result, ok, arith,
}
use decentralized_dns.Prelude.Doubles.{Double, less, truthy}
use decentralized_dns.Prelude.Maps.{assign, given-lookup-assign}
use decentralized_dns.Escrow.{has, add, zero_bigint}
use decentralized_dns.Escrow.Vouchers.{
  VoucherPayload, SignedVoucher, VoucherVerifierMemory, Verdict, accepted, nonce_too_low, last_of,
  is_expired, voucher_id, check_nonce, with_nonce, verify, memory_after, verify_all,
}

module _ (stringify : VoucherPayload → Text) (hmac_hex : Text → Text → Text)
    (sha256_hex : Text → Text) (big_int : Text → Option ℤ) (secret : Text) where
  -- What a voucher needs to be accepted at the time `now`.
  pub record Valid (v : SignedVoucher) (now : Double) (s : VoucherVerifierMemory) (nonce : ℤ)
      : Type 0 where
    pub signed : v.signature ≡ hmac_hex secret (stringify v.payload)
    pub nonce_is : big_int v.payload.nonce ≡ some nonce
    pub above_last : last_of s v.payload.user <ℤ nonce
    pub unused :
        has (voucher_id stringify hmac_hex sha256_hex big_int secret v.payload) s.used ≡ false
    pub in_time : (truthy v.payload.scope.exp && less v.payload.scope.exp now) ≡ false

  abbrev pub recorded : SignedVoucher → ℤ → VoucherVerifierMemory → VoucherVerifierMemory
  recorded v nonce s = record {
    last_nonce = assign v.payload.user nonce s.last_nonce;
    used = add (voucher_id stringify hmac_hex sha256_hex big_int secret v.payload) s.used;
  }

  abbrev verify_here :
      SignedVoucher → Double → VoucherVerifierMemory → Result (Verdict × VoucherVerifierMemory)
  verify_here = verify stringify hmac_hex sha256_hex big_int secret

  abbrev expected : SignedVoucher → Text
  expected v = hmac_hex secret (stringify v.payload)

  check_nonce_iff :
      (v : SignedVoucher) (nonce : ℤ) (now : Double) (s s' : VoucherVerifierMemory)
      → (check_nonce stringify hmac_hex sha256_hex big_int secret v.payload nonce now s
          ≡ (accepted, s'))
        ↔ ((last_of s v.payload.user <ℤ nonce)
            × (has (voucher_id stringify hmac_hex sha256_hex big_int secret v.payload) s.used
                ≡ false)
            × ((truthy v.payload.scope.exp && less v.payload.scope.exp now) ≡ false)
            × (s' ≡ recorded v nonce s))
  unfolding check_nonce
  check_nonce_iff v nonce now s s' =
      (λ e. ground arith, λ (above, unused, in_time, same). ground arith)

  -- A voucher is accepted exactly when its signature is the one that the secret gives, its nonce is a
  -- number above the last one of its user, it was not used, and it is not expired; then the nonce
  -- and the voucher are remembered.
  pub verify_iff :
      (v : SignedVoucher) (now : Double) (s s' : VoucherVerifierMemory)
      → (verify stringify hmac_hex sha256_hex big_int secret v now s ≡ ok (accepted, s'))
        ↔ ((nonce : ℤ) × Valid v now s nonce × (s' ≡ recorded v nonce s))
  unfolding verify
  verify_iff v now s s' = (
    (λ e. elim (Bool-cases (text_eq v.signature (expected v))) [
      | inl signed ↦ elim (Option-cases (big_int v.payload.nonce)) [
        | inl none_read ↦ let stopped = rw (signed, none_read) at e in cc
        | inr (nonce, read) ↦
            let checked = rw (signed, read) at e in
            let (above, unused, in_time, same) = (check_nonce_iff v nonce now s s').0 cc in
            (
              nonce,
              record {
                signed = (text_eq_iff _ _).0 signed;
                nonce_is = read;
                above_last = above;
                unused = unused;
                in_time = in_time;
              },
              same,
            )
      ]
      | inr unsigned ↦ let stopped = rw unsigned at e in cc
    ]),
    (λ (nonce, h, same).
        rw ((text_eq_iff v.signature (expected v)).1 h.signed, h.nonce_is)
          (ap ok ((check_nonce_iff v nonce now s s').1 (h.above_last, h.unused, h.in_time, same)))),
  )

  -- The last nonce of a user never falls.
  abbrev Grows : VoucherVerifierMemory → VoucherVerifierMemory → Type 0
  Grows s t = (user : Text) → last_of s user ≤ℤ last_of t user

  abbrev NotBelow : VoucherVerifierMemory → Text → Verdict × VoucherVerifierMemory → Type 0
  NotBelow s user r = last_of s user ≤ℤ last_of r.1 user

  recorded-Grows :
      (v : SignedVoucher) (nonce : ℤ) (s : VoucherVerifierMemory)
      → leb_ℤ nonce (last_of s v.payload.user) ≡ false
      → Grows s (recorded v nonce s)
  recorded-Grows v nonce s high user = elim (Bool-cases (text_eq v.payload.user user)) [
    | inl e ↦
        let here = (text_eq_iff v.payload.user user).0 e in
        let above = rw here at high in
        rw (given-lookup-assign v.payload.user user nonce zero_bigint s.last_nonce, e)
          (ground (arith, above))
    | inr e ↦
        rw (given-lookup-assign v.payload.user user nonce zero_bigint s.last_nonce, e) (omega arith)
  ]

  check_nonce-Grows :
      (v : SignedVoucher) (nonce : ℤ) (now : Double) (s : VoucherVerifierMemory)
      → Grows s (check_nonce stringify hmac_hex sha256_hex big_int secret v.payload nonce now s).1
  unfolding check_nonce
  check_nonce-Grows v nonce now s user =
      elim (Bool-cases (leb_ℤ nonce (last_of s v.payload.user))) [
        | inl low ↦ rw low (omega arith)
        | inr high ↦ rw high (
            if_both (NotBelow s user)
              (has (voucher_id stringify hmac_hex sha256_hex big_int secret v.payload) s.used)
              (omega arith)
              (if_both (NotBelow s user) (is_expired now v.payload) (omega arith)
                (recorded-Grows v nonce s high user)))
      ]

  verify-Grows :
      (v : SignedVoucher) (now : Double) (s : VoucherVerifierMemory)
      → Grows s (memory_after stringify hmac_hex sha256_hex big_int secret (verify_here v now s) s)
  unfolding verify
  verify-Grows v now s user = elim (Bool-cases (text_eq v.signature (expected v))) [
    | inl signed ↦ elim (Option-cases (big_int v.payload.nonce)) [
      | inl none_read ↦ rw (signed, none_read) (omega arith)
      | inr (nonce, read) ↦ rw (signed, read) (check_nonce-Grows v nonce now s user)
    ]
    | inr unsigned ↦ rw unsigned (omega arith)
  ]

  verify_all-Grows :
      (later : List (SignedVoucher × Double)) (s : VoucherVerifierMemory)
      → Grows s (verify_all stringify hmac_hex sha256_hex big_int secret later s)
  unfolding verify_all
  verify_all-Grows [] s user = omega arith
  verify_all-Grows ((v, now) ∷ later) s user = omega (
    arith,
    verify-Grows v now s user,
    verify_all-Grows later
        (memory_after stringify hmac_hex sha256_hex big_int secret (verify_here v now s) s) user,
  )

  -- A voucher that was accepted is refused for its nonce ever after, whatever vouchers are verified
  -- in between and whatever the time is.
  pub verify_once :
      (v : SignedVoucher) (now : Double) (s s' : VoucherVerifierMemory)
      (later : List (SignedVoucher × Double)) (then_now : Double)
      → verify stringify hmac_hex sha256_hex big_int secret v now s ≡ ok (accepted, s')
      → verify stringify hmac_hex sha256_hex big_int secret v then_now
          (verify_all stringify hmac_hex sha256_hex big_int secret later s')
        ≡ ok (nonce_too_low, verify_all stringify hmac_hex sha256_hex big_int secret later s')
  unfolding verify with_nonce check_nonce
  verify_once v now s s' later then_now e =
      let (nonce, h, same) = (verify_iff v now s s').0 e in
      let set : last_of s' v.payload.user ≡ nonce = rw (
        same,
        given-lookup-assign v.payload.user v.payload.user nonce zero_bigint s.last_nonce,
        text_eq_refl v.payload.user,
      ) in
      let grown = verify_all-Grows later s' v.payload.user in
      let low : leb_ℤ nonce (
            last_of (verify_all stringify hmac_hex sha256_hex big_int secret later s')
              v.payload.user)
          ≡ true =
        ground (arith, set, grown) in
      rw ((text_eq_iff v.signature (expected v)).1 h.signed, h.nonce_is, low)
