-- ===== src/Coordinator/Payouts/Effects.antt =====
-- What applyReceipt of coordinator/src/routes/receipts.ts does to the balances of wallets.
use decentralized_dns.Prelude.{
  Bool, true, false, ◌≡◌, ◌≢◌, refl, ◌&&◌, not, Option, some, none, Text, String, Result, ok, err,
  if_both,
}
use decentralized_dns.Prelude.Doubles.{Double}
use decentralized_dns.Prelude.Maps.{lookup}
use decentralized_dns.Continuity.{includes}
use decentralized_dns.Coordinator.{ReceiptEnvelope, CreditsState, get_balance, credit}
use decentralized_dns.Coordinator.Receipts.{
  Checks, ReceiptConfig, validate_receipt_shape, rate_receipt, admit_receipt, validate_shaped,
  validate_and_apply_receipt, check_type, credits_for, pay_node, pay_receipt, pay_checked,
  pay_signed, apply_admitted, apply_receipt,
}

-- What `applyReceipt` did to the balances: nothing, or it paid the node.
pub data Applied (cfg : ReceiptConfig) (e : ReceiptEnvelope) (s : CreditsState)
    : Result (Option String) × CreditsState → Type 0 where
  unpaid :
      {r : Result (Option String)} {s' : CreditsState}
      → r ≢ ok none
      → s'.credits ≡ s.credits
      → Applied cfg e s (r, s')
  paid :
      {s' : CreditsState}
      → s'.credits ≡ (pay_node e.receipt.node_id (credits_for cfg e.receipt.type) s).credits
      → Applied cfg e s (ok none, s')

module _ (checks : Checks) (cfg : ReceiptConfig) (e : ReceiptEnvelope) (now : Double)
    (s : CreditsState) where
  rate_receipt-credits :
      (known : Option ReceiptEnvelope)
      → (rate_receipt cfg e.receipt.node_id now s known).1.credits ≡ s.credits
  unfolding rate_receipt
  rate_receipt-credits (some _) = refl
  rate_receipt-credits none = refl

  admit_receipt-credits : (admit_receipt checks cfg e now s).1.credits ≡ s.credits
  unfolding admit_receipt
  admit_receipt-credits =
      if_both (λ (p : Option String × CreditsState). p.1.credits ≡ s.credits)
        (not (includes s.passports e.receipt.node_id)
          && not (includes s.node_pubkeys e.receipt.node_id))
        refl (rate_receipt-credits (lookup (checks.receipt_id e.receipt) s.receipts))

  pub validate_shaped-credits :
      (problem : Option String) → (validate_shaped checks cfg e now s problem).1.credits ≡ s.credits
  validate_shaped-credits (some problem) = refl
  validate_shaped-credits none = admit_receipt-credits

pay_node-credits :
    (node : Text) (amount : Option Double) (s s' : CreditsState)
    → s'.credits ≡ s.credits
    → (pay_node node amount s').credits ≡ (pay_node node amount s).credits
unfolding credit get_balance
pay_node-credits node none s s' h = h
pay_node-credits node (some amount) s s' h = rw h

pay_checked-Applied :
    (checks : Checks) (cfg : ReceiptConfig) (e : ReceiptEnvelope) (s s' : CreditsState)
    (checked : Result (Option String))
    → s'.credits ≡ s.credits
    → Applied cfg e s (pay_checked checks cfg e s' checked)
unfolding pay_checked pay_receipt
pay_checked-Applied checks cfg e s s' (err message) h = unpaid (λ k. cc) h
pay_checked-Applied checks cfg e s s' (ok (some problem)) h = unpaid (λ k. cc) h
pay_checked-Applied checks cfg e s s' (ok none) h =
    paid (pay_node-credits e.receipt.node_id (credits_for cfg e.receipt.type) s s' h)

pay_signed-Applied :
    (checks : Checks) (cfg : ReceiptConfig) (e : ReceiptEnvelope) (now : Double)
    (s s' : CreditsState) (signed : Result Bool)
    → s'.credits ≡ s.credits
    → Applied cfg e s (pay_signed checks cfg e now s' signed)
unfolding pay_signed
pay_signed-Applied checks cfg e now s s' (err message) h = unpaid (λ k. cc) h
pay_signed-Applied checks cfg e now s s' (ok false) h = unpaid (λ k. cc) h
pay_signed-Applied checks cfg e now s s' (ok true) h =
    pay_checked-Applied checks cfg e s s' (check_type checks cfg s' e.receipt now e.receipt.type) h

pub apply_admitted-Applied :
    (checks : Checks) (cfg : ReceiptConfig) (e : ReceiptEnvelope) (now : Double)
    (s s' : CreditsState) (problem : Option String)
    → s'.credits ≡ s.credits
    → Applied cfg e s (apply_admitted checks cfg e now problem s')
unfolding apply_admitted
apply_admitted-Applied checks cfg e now s s' (some problem) h = unpaid (λ k. cc) h
apply_admitted-Applied checks cfg e now s s' none h =
    pay_signed-Applied checks cfg e now s s' (checks.receipt_signature e) h

pub apply_receipt-Applied :
    (checks : Checks) (cfg : ReceiptConfig) (e : ReceiptEnvelope) (now : Double) (s : CreditsState)
    → Applied cfg e s (apply_receipt checks cfg e now s)
unfolding apply_receipt validate_and_apply_receipt
apply_receipt-Applied checks cfg e now s =
    apply_admitted-Applied checks cfg e now s _ _
      (validate_shaped-credits checks cfg e now s (validate_receipt_shape e))
