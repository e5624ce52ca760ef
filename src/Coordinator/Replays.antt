-- ===== src/Coordinator/Replays.antt =====
-- What the coordinator (coordinator/src/routes and coordinator/src/server.ts) pays more than once, and what bounds it.
use decentralized_dns.Prelude.{
  ℕ, zero, suc, ◌≡◌, refl, ap, ◌∙◌, Bool, true, false, ◌&&◌, ◌||◌, not, Option, some, none, inr, ℤ,
  Text, ok, arith, ◌+ℤ◌, ◌-ℤ◌, pos, negsuc, if_both, leb,
}
use decentralized_dns.Prelude.Doubles.{Double, finite, nan, infinity, neg_infinity, less}
use decentralized_dns.Prelude.Floats.{overflow, round, rounded, plus, minus}
use decentralized_dns.Prelude.Maps.{lookup, lookup-assign}
use decentralized_dns.Coordinator.{
  store, ReceiptEnvelope, CreditsState, or_zero_number, get_balance, set_credits, credit,
}
use decentralized_dns.Continuity.{includes}
use decentralized_dns.Coordinator.Comments.{
  approved, CommentHold, CommentState, Outcome, trimmed, is_blank, status_of, conclude,
  finalize_status, finalize_found, finalize_hold,
}
use decentralized_dns.Coordinator.Receipts.{
  Checks, ReceiptConfig, validate_receipt_shape, rate_receipt, admit_receipt,
  validate_and_apply_receipt, pay_receipt, pay_checked, apply_admitted, apply_receipt,
}

-- Any number but NaN.
abbrev pub IsNumber : Double → Type 0
IsNumber nan = ⊥
IsNumber _ = Unit {0}

-- `value || 0` of a number is the number.
or_zero-IsNumber : (d : Double) → IsNumber d → or_zero_number d ≡ d
or_zero-IsNumber (finite (pos n)) h = ground arith
or_zero-IsNumber (finite (negsuc n)) h = refl
or_zero-IsNumber infinity h = refl
or_zero-IsNumber neg_infinity h = refl
or_zero-IsNumber nan h = absurd h

-- What a wallet has after its credits were set.
pub get_balance-set_number :
    (s : CreditsState) (wallet : Text) (d : Double)
    → IsNumber d
    → get_balance (set_credits wallet d s) wallet ≡ d
unfolding get_balance
get_balance-set_number s wallet d h = rw (lookup-assign wallet d s.credits, or_zero-IsNumber d h)

pub get_balance-set_credits :
    (s : CreditsState) (wallet : Text) (z : ℤ)
    → get_balance (set_credits wallet (finite z) s) wallet ≡ finite z
get_balance-set_credits s wallet z = get_balance-set_number s wallet (finite z) tt

rounded-IsNumber : (den : ℕ) (z : ℤ) → IsNumber (rounded den z)
unfolding rounded
rounded-IsNumber den (pos n) = if_both IsNumber (leb overflow (round den n)) tt tt
rounded-IsNumber den (negsuc n) = if_both IsNumber (leb overflow (round den (suc n))) tt tt

pub plus-IsNumber : (d : Double) (z : ℤ) → IsNumber d → IsNumber (plus d (finite z))
unfolding plus
plus-IsNumber (finite a) z h = rounded-IsNumber 1 (a +ℤ z)
plus-IsNumber infinity z h = tt
plus-IsNumber neg_infinity z h = tt
plus-IsNumber nan z h = absurd h

pub minus-IsNumber : (a b : ℤ) → IsNumber (minus (finite a) (finite b))
unfolding minus
minus-IsNumber a b = rounded-IsNumber 1 (a -ℤ b)

module _ (ticket result : Option Text) (now : Double) (h : CommentHold)
    (named : (is_blank (trimmed ticket) || is_blank (trimmed result)) ≡ false)
    (valid : less h.expires_at now ≡ false)
    (verdict : status_of (trimmed result) ≡ some approved) where
  -- An approval pays the wallet, whatever the hold's status was.
  pub finalize_approved :
      (credits : CreditsState) (c : CommentState)
      → lookup (trimmed ticket) c.holds ≡ some h
      → finalize_hold credits c ticket result now ≡ conclude credits c (trimmed ticket) h approved
  unfolding finalize_hold finalize_found finalize_status
  finalize_approved credits c found = rw (named, found, valid, verdict)

pub get_balance-conclude :
    (credits : CreditsState) (c : CommentState) (k : Text) (h : CommentHold) (balance : Double)
    (amount : ℤ)
    → IsNumber balance
    → get_balance credits h.wallet ≡ balance
    → h.amount ≡ finite amount
    → get_balance (conclude credits c k h approved).credits h.wallet ≡ plus balance (finite amount)
unfolding conclude
get_balance-conclude credits c k h balance amount number has held =
    rw (has, held)
      (get_balance-set_number credits h.wallet (plus balance (finite amount))
        (plus-IsNumber balance amount number))

-- A hold that has not expired is paid again by every approval: two approvals of one ticket leave the wallet with its
-- balance plus twice the amount that was held, each sum rounded, and both calls succeed.
pub finalize_hold_twice :
    (credits : CreditsState) (c : CommentState) (ticket result : Option Text) (now : Double)
    (h : CommentHold) (balance amount : ℤ)
    → (is_blank (trimmed ticket) || is_blank (trimmed result)) ≡ false
    → lookup (trimmed ticket) c.holds ≡ some h
    → less h.expires_at now ≡ false
    → status_of (trimmed result) ≡ some approved
    → get_balance credits h.wallet ≡ finite balance
    → h.amount ≡ finite amount
    → let once = finalize_hold credits c ticket result now in
      let twice = finalize_hold once.credits once.comments ticket result now in
      (once.answer ≡ inr (record h { status = approved }))
      × (twice.answer ≡ inr (record h { status = approved }))
      × (get_balance twice.credits h.wallet
          ≡ plus (plus (finite balance) (finite amount)) (finite amount))
unfolding conclude
finalize_hold_twice credits c ticket result now h balance amount named found valid verdict has
      held =
    let first = finalize_approved ticket result now h named valid verdict credits c found in
    let paid : Outcome CommentHold = conclude credits c (trimmed ticket) h approved in
    let found' : lookup (trimmed ticket) paid.comments.holds
        ≡ some (record h { status = approved }) =
      lookup-assign (trimmed ticket) _ c.holds in
    let second =
      finalize_approved ticket result now (record h { status = approved }) named valid verdict
        paid.credits paid.comments found' in
    let balance' =
      get_balance-conclude credits c (trimmed ticket) h (finite balance) amount tt has held in
    let h' : CommentHold = record h { status = approved } in
    (
      ap (λ (o : Outcome CommentHold). o.answer) first,
      rw first (ap (λ (o : Outcome CommentHold). o.answer) second),
      rw (first, second)
          (get_balance-conclude paid.credits paid.comments (trimmed ticket) h'
            (plus (finite balance) (finite amount)) amount
            (plus-IsNumber (finite balance) amount tt) balance' held),
    )

neither : (a b : Bool) → (a || b) ≡ true → (not a && not b) ≡ false
neither a b h = ground arith

-- The node is allowed to send receipts.
abbrev pub allowed : CreditsState → Text → Bool
allowed s node = includes s.passports node || includes s.node_pubkeys node

-- The same receipt, given to `applyReceipt` so many times.
pub send : Checks → ReceiptConfig → ReceiptEnvelope → Double → ℕ → CreditsState → CreditsState
send checks cfg e now zero s = s
send checks cfg e now (suc n) s = send checks cfg e now n (apply_receipt checks cfg e now s).1

-- A balance with an amount added so many times, each sum rounded.
pub add_times : ℕ → Double → Double → Double
add_times zero balance amount = balance
add_times (suc n) balance amount = add_times n (plus balance amount) amount

module _ (checks : Checks) (cfg : ReceiptConfig) (e : ReceiptEnvelope) (now : Double)
    (shaped : validate_receipt_shape e ≡ none) (signed : checks.receipt_signature e ≡ ok true)
    (stored : e.receipt.type ≡ some store) where
  -- A known receipt is let through again, without counting its rate.
  repeat_receipt :
      (s : CreditsState) (known : ReceiptEnvelope)
      → allowed s e.receipt.node_id ≡ true
      → lookup (checks.receipt_id e.receipt) s.receipts ≡ some known
      → apply_receipt checks cfg e now s ≡ (ok none, pay_receipt checks cfg e s)
  unfolding apply_receipt validate_and_apply_receipt admit_receipt rate_receipt apply_admitted
      pay_checked
  repeat_receipt s known member found = rw (
    shaped,
    neither (includes s.passports e.receipt.node_id) (includes s.node_pubkeys e.receipt.node_id)
        member,
    found,
    signed,
    stored,
  )

  get_balance-pay_receipt :
      (s : CreditsState) (balance : Double) (amount : ℤ)
      → IsNumber balance
      → get_balance s e.receipt.node_id ≡ balance
      → cfg.store_credits ≡ finite amount
      → get_balance (pay_receipt checks cfg e s) e.receipt.node_id ≡ plus balance (finite amount)
  unfolding pay_receipt credit
  get_balance-pay_receipt s balance amount number has pays =
      rw (stored, has, pays)
        (get_balance-set_number s e.receipt.node_id (plus balance (finite amount))
          (plus-IsNumber balance amount number))

  receipts-pay_receipt :
      (s : CreditsState)
      → lookup (checks.receipt_id e.receipt) (pay_receipt checks cfg e s).receipts ≡ some e
  unfolding pay_receipt
  receipts-pay_receipt s = lookup-assign (checks.receipt_id e.receipt) e _

  allowed-pay_receipt :
      (s : CreditsState) (node : Text) → allowed (pay_receipt checks cfg e s) node ≡ allowed s node
  unfolding pay_receipt credit
  allowed-pay_receipt s node = rw stored

  -- `applyReceipt` pays a receipt of type STORE that was paid before again: if it has the right shape and
  -- signature, its node is allowed and its hash is among the receipts, then n more calls of `applyReceipt`, without
  -- the daily cap that POST /receipts applies after it, add the credits of a STORE receipt n times to
  -- the node's balance, each sum rounded.
  pub get_balance-send :
      (n : ℕ) (s : CreditsState) (known : ReceiptEnvelope) (balance : Double) (amount : ℤ)
      → IsNumber balance
      → allowed s e.receipt.node_id ≡ true
      → lookup (checks.receipt_id e.receipt) s.receipts ≡ some known
      → get_balance s e.receipt.node_id ≡ balance
      → cfg.store_credits ≡ finite amount
      → get_balance (send checks cfg e now n s) e.receipt.node_id
        ≡ add_times n balance (finite amount)
  unfolding send add_times
  get_balance-send zero s known balance amount number member found has pays = has
  get_balance-send (suc n) s known balance amount number member found has pays =
      rw (repeat_receipt s known member found) (
        get_balance-send n (pay_receipt checks cfg e s) e (plus balance (finite amount)) amount
          (plus-IsNumber balance amount number) (allowed-pay_receipt s e.receipt.node_id ∙ member)
          (receipts-pay_receipt s) (get_balance-pay_receipt s balance amount number has pays) pays)
