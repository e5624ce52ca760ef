-- ===== src/Coordinator/Interleaved/Undone.antt =====
-- POST /receipts of coordinator/src/server.ts, when the node spends credits while its receipt waits.
use decentralized_dns.Prelude.{
  ◌≡◌, refl, true, false, List, [], ◌∷◌, some, none, Text, ok, arith, ℤ, ◌∙◌, not, text_eq,
}
use decentralized_dns.Prelude.Doubles.{Double, finite, less, less_or_equal, truthy}
use decentralized_dns.Prelude.Floats.{plus, minus}
use decentralized_dns.Prelude.Maps.{lookup}
use decentralized_dns.Prelude.Sorting.{filter}
use decentralized_dns.Coordinator.{
  ReceiptEnvelope, CreditsState, store, get_balance, set_credits, spend_credits,
}
use decentralized_dns.Coordinator.Comments.{is_blank}
use decentralized_dns.Coordinator.Receipts.{
  Checks, validate_receipt_shape, validate_and_apply_receipt, apply_admitted, pay_checked,
  pay_signed, pay_receipt,
}
use decentralized_dns.Coordinator.Handlers.{
  Coordinator, CoordinatorConfig, zero_credits, window_of, apply_cap, credit_delta, cap_receipt,
  begin_receipt, end_receipt, handle_spend,
}
use decentralized_dns.Coordinator.Replays.{
  get_balance-set_credits, get_balance-set_number, minus-IsNumber,
}
use decentralized_dns.Coordinator.Payouts.Effects.{validate_shaped-credits}
use decentralized_dns.Coordinator.Payouts.Balances.{get_balance_same}
use decentralized_dns.Coordinator.Solvent.Calls.{spends, perform}
use decentralized_dns.Coordinator.Interleaved.{
  World, Event, calls, begins, ends, happen, happen_all,
}

positive_truthy : (a : ℤ) → less zero_credits (finite a) ≡ true → truthy (finite a) ≡ true
positive_truthy a h = ground arith

positive_not_below :
    (a : ℤ) → less zero_credits (finite a) ≡ true → less_or_equal (finite a) zero_credits ≡ false
positive_not_below a h = ground arith

-- A spend that the balance covers.
spends_amount :
    (s : Coordinator) (wallet : Text) (balance a : ℤ)
    → less zero_credits (finite a) ≡ true
    → get_balance s.credits wallet ≡ finite balance
    → less (finite balance) (finite a) ≡ false
    → (handle_spend s wallet (finite a)).1
      ≡ record s { credits = set_credits wallet (minus (finite balance) (finite a)) s.credits }
unfolding handle_spend spend_credits
spends_amount s wallet balance a more has covers =
    rw (positive_truthy a more, positive_not_below a more, has, covers)

module _ (checks : Checks) (cfg : CoordinatorConfig) (e : ReceiptEnvelope) (today : Text)
    (later : Double) (signed : checks.receipt_signature e ≡ ok true)
    (stored : e.receipt.type ≡ some store) where
  -- A receipt over the cap puts back the balance that was read before.
  get_balance-cap_receipt :
      (before s : Coordinator) (balance : ℤ)
      → get_balance before.credits e.receipt.node_id ≡ finite balance
      → less cfg.daily_credit_cap (
          plus
            (window_of today (lookup e.receipt.node_id s.credit_windows)).credited
            (credit_delta cfg.receipts e.receipt.type))
        ≡ true
      → get_balance (cap_receipt checks cfg e today before s (ok none)).1.credits e.receipt.node_id
        ≡ finite balance
  unfolding cap_receipt apply_cap
  get_balance-cap_receipt before s balance has over =
      let back = set_credits e.receipt.node_id (finite balance) s.credits in
      let rest = filter (λ r. not (text_eq r.0 (checks.receipt_id e.receipt))) s.credits.receipts in
      rw (over, has)
        (get_balance_same back (record back { receipts = rest }) e.receipt.node_id refl
          ∙ get_balance-set_credits s.credits e.receipt.node_id balance)

  apply_admitted_stored :
      (s : CreditsState)
      → apply_admitted checks cfg.receipts e later none s
        ≡ (ok none, pay_receipt checks cfg.receipts e s)
  unfolding apply_admitted pay_signed pay_checked
  apply_admitted_stored s = rw (signed, stored)

  get_balance-end_receipt :
      (before s : Coordinator) (balance : ℤ)
      → get_balance before.credits e.receipt.node_id ≡ finite balance
      → less cfg.daily_credit_cap (
          plus
            (window_of today (lookup e.receipt.node_id s.credit_windows)).credited
            cfg.receipts.store_credits)
        ≡ true
      → get_balance
          (end_receipt checks cfg today later
            (record { envelope = e; before = before; problem = none })
            s).1.credits
          e.receipt.node_id
        ≡ finite balance
  unfolding end_receipt
  get_balance-end_receipt before s balance has over = rw (apply_admitted_stored s.credits) (
      get_balance-cap_receipt before
        (record s { credits = pay_receipt checks cfg.receipts e s.credits }) balance has
        (rw stored over))

begin_receipt_admitted :
    (checks : Checks) (cfg : CoordinatorConfig) (e : ReceiptEnvelope) (now : Double)
    (s : Coordinator)
    → is_blank e.receipt.node_id ≡ false
    → (validate_and_apply_receipt checks cfg.receipts e now s.credits).0 ≡ none
    → begin_receipt checks cfg e now s ≡ (
      some (record { envelope = e; before = s; problem = none }),
      record s { credits = (validate_and_apply_receipt checks cfg.receipts e now s.credits).1 },
    )
unfolding begin_receipt
begin_receipt_admitted checks cfg e now s named admitted = rw (named, admitted)

get_balance-validated :
    (checks : Checks) (cfg : CoordinatorConfig) (e : ReceiptEnvelope) (now : Double)
    (s : CreditsState) (node : Text)
    → get_balance (validate_and_apply_receipt checks cfg.receipts e now s).1 node
      ≡ get_balance s node
unfolding validate_and_apply_receipt
get_balance-validated checks cfg e now s node =
    get_balance_same s _ node
      (validate_shaped-credits checks cfg.receipts e now s (validate_receipt_shape e))

module _ (checks : Checks) (cfg : CoordinatorConfig) (e : ReceiptEnvelope) (today : Text)
    (later : Double) (signed : checks.receipt_signature e ≡ ok true)
    (stored : e.receipt.type ≡ some store) where
  -- While a receipt of type STORE waits that was admitted and is over the daily cap, its node can spend for nothing: after
  -- the receipt began, the node spent an amount that its balance covers, and the receipt ended, the balance is
  -- the one from before the spend, and so it is although the spend was taken off in between.
  pub spend_undone :
      (now : Double) (s : Coordinator) (balance a : ℤ)
      → is_blank e.receipt.node_id ≡ false
      → (validate_and_apply_receipt checks cfg.receipts e now s.credits).0 ≡ none
      → get_balance s.credits e.receipt.node_id ≡ finite balance
      → less zero_credits (finite a) ≡ true
      → less (finite balance) (finite a) ≡ false
      → less cfg.daily_credit_cap (
          plus
            (window_of today (lookup e.receipt.node_id s.credit_windows)).credited
            cfg.receipts.store_credits)
        ≡ true
      → let spent : List Event = begins e now ∷ calls (spends e.receipt.node_id (finite a)) ∷ [] in
        let ended : List Event =
          begins e now ∷ calls (spends e.receipt.node_id (finite a)) ∷ ends 0 today later ∷ [] in
        let first : World = record { coordinator = s; pending = [] } in
        (get_balance (happen_all checks cfg spent first).coordinator.credits e.receipt.node_id
          ≡ minus (finite balance) (finite a))
        × (get_balance (happen_all checks cfg ended first).coordinator.credits e.receipt.node_id
            ≡ finite balance)
  unfolding happen_all happen perform
  spend_undone now s balance a named admitted has more covers over =
      let node = e.receipt.node_id in
      let pre = validate_and_apply_receipt checks cfg.receipts e now s.credits in
      let begun : Coordinator = record s { credits = pre.1 } in
      let has' : get_balance pre.1 node ≡ finite balance =
        get_balance-validated checks cfg e now s.credits node ∙ has in
      rw
        (
          begin_receipt_admitted checks cfg e now s named admitted,
          spends_amount begun node balance a more has' covers,
        )
        (
          get_balance-set_number pre.1 node (minus (finite balance) (finite a))
              (minus-IsNumber balance a),
          get_balance-end_receipt checks cfg e today later signed stored s
              (record begun {
                credits = set_credits node (minus (finite balance) (finite a)) pre.1;
              })
              balance has over,
        )
