-- ===== src/Coordinator/Payouts/Caps.antt =====
-- One call of POST /receipts (coordinator/src/server.ts) against the window of a node's day.
use decentralized_dns.Prelude.Floats.Whole.{plus-whole, covered-whole}
use decentralized_dns.Prelude.{
  ℕ, ◌+◌, ◌*◌, ◌<◌, ◌≤◌, ◌^◌, ap, pos, arith, ◌≡◌, ◌≢◌, refl, sym, ◌∙◌, false, not, List, Option,
  some, none, inl, inr, Text, String, text_eq, text_eq_iff, Result, ok, err, if_both, Bool-cases,
  subst,
}
use decentralized_dns.Prelude.Doubles.{Double, less}
use decentralized_dns.Prelude.Floats.{plus, whole, one}
use decentralized_dns.Prelude.Maps.{lookup, lookup-assign, lookup-assign_other}
use decentralized_dns.Prelude.Sorting.{filter}
use decentralized_dns.Coordinator.{ReceiptEnvelope, CreditsState, get_balance, set_credits}
use decentralized_dns.Coordinator.Comments.{is_blank}
use decentralized_dns.Coordinator.Receipts.{Checks, credits_for, pay_node, apply_receipt}
use decentralized_dns.Coordinator.Handlers.{
  Coordinator, CoordinatorConfig, window_of, apply_cap, credit_delta, cap_receipt, handle_receipt,
}
use decentralized_dns.Coordinator.Replays.{get_balance-set_credits}
use decentralized_dns.Coordinator.Payouts.Effects.{Applied, apply_receipt-Applied, paid, unpaid}
use decentralized_dns.Coordinator.Payouts.Balances.{
  Pays, given-Pays, get_balance-pay_node, get_balance-pay_node_other, get_balance_restored,
  get_balance_same, lookup-touched_other, window_of-touched, window_today,
}

add_regroup : (a b c : ℕ) → a + b + c ≡ a + (b + c)
add_regroup a b c = omega arith

-- A node's balance and what it was credited today, against the balance before today's receipts.
pub record Kept (today node : Text) (first cap_of_day : ℕ) (s : Coordinator) : Type 0 where
  pub amount : ℕ
  pub credited : (window_of today (lookup node s.credit_windows)).credited ≡ whole amount
  pub balance : get_balance s.credits node ≡ whole (first + amount)
  pub within : amount ≤ cap_of_day

module _ (checks : Checks) (cfg : CoordinatorConfig) (today : Text) (cap_of_day : ℕ)
    (daily : cfg.daily_credit_cap ≡ whole cap_of_day) where
  module _ (e : ReceiptEnvelope) (node : Text) (first : ℕ) (s : Coordinator)
      (credits : CreditsState) where
    applied_state : Coordinator
    applied_state = record s { credits = credits }

    abbrev forgotten : CreditsState → List (Text × ReceiptEnvelope)
    forgotten c = filter (λ r. not (text_eq r.0 (checks.receipt_id e.receipt))) c.receipts

    unpaid-Kept :
        (r : Result (Option String))
        → r ≢ ok none
        → credits.credits ≡ s.credits.credits
        → Kept today node first cap_of_day s
        → Kept today node first cap_of_day (cap_receipt checks cfg e today s applied_state r).1
    unfolding cap_receipt applied_state
    unpaid-Kept (ok none) ne same k = absurd (ne refl)
    unpaid-Kept (err message) ne same k = record {
      amount = k.amount;
      credited = k.credited;
      balance = get_balance_same s.credits credits node same ∙ k.balance;
      within = k.within;
    }
    unpaid-Kept (ok (some problem)) ne same k = record {
      amount = k.amount;
      credited = k.credited;
      balance = get_balance_same s.credits credits node same ∙ k.balance;
      within = k.within;
    }

    -- A receipt of another node.
    other-Kept :
        text_eq e.receipt.node_id node ≡ false
        → credits.credits
          ≡ (pay_node e.receipt.node_id (credits_for cfg.receipts e.receipt.type) s.credits).credits
        → Kept today node first cap_of_day s
        → Kept today node first cap_of_day
            (cap_receipt checks cfg e today s applied_state (ok none)).1
    unfolding cap_receipt applied_state apply_cap
    other-Kept other same k =
        let own = e.receipt.node_id in
        let w = window_of today (lookup own s.credit_windows) in
        let delta = credit_delta cfg.receipts e.receipt.type in
        let before =
          get_balance_same (pay_node own (credits_for cfg.receipts e.receipt.type) s.credits)
            credits node same
          ∙ get_balance-pay_node_other s.credits own node _ other
          ∙ k.balance in
        elim (Bool-cases (less cfg.daily_credit_cap (plus w.credited delta))) [
          | inl over ↦ rw over (record {
            amount = k.amount;
            credited =
                rw
                  (lookup-touched_other own today node s.credit_windows
                    (lookup own s.credit_windows) other)
                  k.credited;
            balance =
                get_balance_restored credits own node (get_balance s.credits own)
                  (forgotten credits) other
                ∙ before;
            within = k.within;
          })
          | inr below ↦ rw below (record {
            amount = k.amount;
            credited = rw (lookup-assign_other own node _ s.credit_windows other) k.credited;
            balance = before;
            within = k.within;
          })
        ]

    own_restored :
        (c : CreditsState) (z : ℕ)
        → get_balance
            (record (set_credits e.receipt.node_id (whole z) c) { receipts = forgotten c })
            e.receipt.node_id
          ≡ whole z
    own_restored c z =
        get_balance_same (set_credits e.receipt.node_id (whole z) c)
          (record (set_credits e.receipt.node_id (whole z) c) { receipts = forgotten c })
          e.receipt.node_id refl
        ∙ get_balance-set_credits c e.receipt.node_id (pos (z * one))

    -- A receipt of the node itself.
    own-Kept :
        (d : ℕ)
        → Pays (credits_for cfg.receipts e.receipt.type) d
        → first + cap_of_day + d < 2 ^ 53
        → credits.credits
          ≡ (pay_node e.receipt.node_id (credits_for cfg.receipts e.receipt.type) s.credits).credits
        → Kept today e.receipt.node_id first cap_of_day s
        → Kept today e.receipt.node_id first cap_of_day
            (cap_receipt checks cfg e today s applied_state (ok none)).1
    unfolding cap_receipt applied_state apply_cap
    own-Kept d pays small same k =
        let own = e.receipt.node_id in
        let delta = given-Pays (credits_for cfg.receipts e.receipt.type) d pays in
        let le = k.within in
        let credited_sum = plus-whole k.amount d (omega arith) in
        let paid_balance =
          get_balance_same (pay_node own (credits_for cfg.receipts e.receipt.type) s.credits)
            credits own same
          ∙ get_balance-pay_node s.credits own _ (first + k.amount) d pays (omega arith)
              k.balance in
        elim (Bool-cases (less (whole cap_of_day) (whole (k.amount + d)))) [
          | inl over ↦
              rw (daily, k.credited, delta, credited_sum, over)
                (record {
                  amount = k.amount;
                  credited =
                      rw
                        (window_of-touched today own s.credit_windows (lookup own s.credit_windows)
                          refl)
                        k.credited;
                  balance = rw k.balance (own_restored credits (first + k.amount));
                  within = k.within;
                })
          | inr below ↦
              rw (daily, k.credited, delta, credited_sum, below)
                (record {
                  amount = k.amount + d;
                  credited = rw (lookup-assign own) (window_today today (whole (k.amount + d)));
                  balance = paid_balance ∙ ap whole (add_regroup first k.amount d);
                  within = covered-whole (k.amount + d) cap_of_day below;
                })
        ]

    cap_receipt-Kept :
        (d : ℕ)
        → Pays (credits_for cfg.receipts e.receipt.type) d
        → first + cap_of_day + d < 2 ^ 53
        → (r : Result (Option String)) → Applied cfg.receipts e s.credits (r, credits)
        → Kept today node first cap_of_day s
        → Kept today node first cap_of_day (cap_receipt checks cfg e today s applied_state r).1
    cap_receipt-Kept d pays small r (unpaid ne same) k = unpaid-Kept r ne same k
    cap_receipt-Kept d pays small r (paid same) k =
        elim (Bool-cases (text_eq e.receipt.node_id node)) [
          | inl own ↦
              let same_node = (text_eq_iff e.receipt.node_id node).0 own in
              subst
                (λ n.
                  Kept today n first cap_of_day
                    (cap_receipt checks cfg e today s applied_state (ok none)).1)
                same_node
                (own-Kept d pays small same
                  (subst (λ n. Kept today n first cap_of_day s) (sym same_node) k))
          | inr other ↦ other-Kept other same k
        ]

  pub handle_receipt-Kept :
      (e : ReceiptEnvelope) (now : Double) (node : Text) (first : ℕ) (s : Coordinator) (d : ℕ)
      → Pays (credits_for cfg.receipts e.receipt.type) d
      → first + cap_of_day + d < 2 ^ 53
      → Kept today node first cap_of_day s
      → Kept today node first cap_of_day (handle_receipt checks cfg e today now s).1
  unfolding handle_receipt applied_state
  handle_receipt-Kept e now node first s d pays small k =
      let applied = apply_receipt checks cfg.receipts e now s.credits in
      if_both (λ (p : Result (Option String) × Coordinator). Kept today node first cap_of_day p.1)
        (is_blank e.receipt.node_id) k
        (cap_receipt-Kept e node first s applied.1 d pays small applied.0
          (apply_receipt-Applied checks cfg.receipts e now s.credits) k)
