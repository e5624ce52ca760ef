-- ===== src/Coordinator/Solvent/Calls.antt =====
-- The handlers of coordinator/src/server.ts that move credits, as calls, each of which keeps the credits solvent.
use decentralized_dns.Prelude.{
  ◌≡◌, refl, ◌||◌, Option, some, none, Text, String, Result, ok, err, if_both,
}
use decentralized_dns.Prelude.Doubles.{Double, less}
use decentralized_dns.Prelude.Maps.{lookup, All-assign, All-lookup}
use decentralized_dns.Coordinator.{ReceiptType, ReceiptEnvelope, CreditsState, credit}
use decentralized_dns.Coordinator.Comments.{
  CommentHold, CommentState, HoldRequest, trimmed, is_blank, submit_found, submit_hold,
}
use decentralized_dns.Coordinator.Receipts.{Checks, credits_for, pay_node, apply_receipt}
use decentralized_dns.Coordinator.Handlers.{
  Coordinator, CoordinatorConfig, credit_delta, apply_cap, cap_receipt, handle_receipt,
  handle_spend, handle_hold, handle_submit,
}
use decentralized_dns.Coordinator.Handlers.Finalize.{FinalizeRequest, handle_finalize}
use decentralized_dns.Coordinator.Payouts.Effects.{Applied, unpaid, paid, apply_receipt-Applied}
use decentralized_dns.Coordinator.Solvent.{
  NotNegative, Balances, Amounts, Solvent, get_balance-NotNegative, set-Balances, given-Balances,
}
use decentralized_dns.Coordinator.Solvent.Holds.{spend-Solvent, hold-Solvent}
use decentralized_dns.Coordinator.Solvent.Finalize.{finalize-Solvent}

submit_found-Amounts :
    (ticket_id hash : Text) (now : Double) (c : CommentState) (found : Option CommentHold)
    → lookup ticket_id c.holds ≡ found
    → Amounts c.holds
    → Amounts (submit_found ticket_id hash now c found).1.holds
submit_found-Amounts ticket_id hash now c none e h = h
submit_found-Amounts ticket_id hash now c (some x) e h =
    if_both (λ (r : Option String × CommentState). Amounts r.1.holds) (less x.expires_at now) h
      (All-assign (λ _ y. NotNegative y.amount) ticket_id _ c.holds
        (All-lookup (λ _ y. NotNegative y.amount) ticket_id c.holds x h e) h)

submit-Solvent :
    (ticket hash : Option Text) (now : Double) (s : Coordinator)
    → Solvent s
    → Solvent (handle_submit ticket hash now s).1
unfolding handle_submit submit_hold
submit-Solvent ticket hash now s v = record {
  balances = v.balances;
  holds =
      if_both (λ (r : Option String × CommentState). Amounts r.1.holds)
        (is_blank (trimmed ticket) || is_blank (trimmed hash)) v.holds
        (submit_found-Amounts (trimmed ticket) (trimmed hash) now s.comments _ refl v.holds);
  pools = v.pools;
}

-- What receipts pay is not negative.
pub record PaysNotNegative (cfg : CoordinatorConfig) : Type 0 where
  pub serves : NotNegative cfg.receipts.serve_credits
  pub verifies : NotNegative cfg.receipts.verify_credits
  pub stores : NotNegative cfg.receipts.store_credits

pay_node-Balances :
    (cfg : CoordinatorConfig) (node : Text) (type : Option ReceiptType) (s : CreditsState)
    → PaysNotNegative cfg
    → Balances s.credits
    → Balances (pay_node node (credits_for cfg.receipts type) s).credits
unfolding credit
pay_node-Balances cfg node none s n h = h
pay_node-Balances cfg node (some ReceiptType.serve) s n h = given-Balances s node _ h n.serves
pay_node-Balances cfg node (some ReceiptType.verify) s n h = given-Balances s node _ h n.verifies
pay_node-Balances cfg node (some ReceiptType.store) s n h = given-Balances s node _ h n.stores
pay_node-Balances cfg node (some (ReceiptType.other_type t)) s n h = h

pub cap_receipt-Solvent :
    (checks : Checks) (cfg : CoordinatorConfig) (e : ReceiptEnvelope) (today : Text)
    (before s : Coordinator) (r : Result (Option String))
    → Balances before.credits.credits
    → Solvent s
    → Solvent (cap_receipt checks cfg e today before s r).1
unfolding cap_receipt
cap_receipt-Solvent checks cfg e today before s (err message) b v = v
cap_receipt-Solvent checks cfg e today before s (ok (some problem)) b v = v
cap_receipt-Solvent checks cfg e today before s (ok none) b v =
    let capped =
      apply_cap cfg.daily_credit_cap today e.receipt.node_id
        (credit_delta cfg.receipts e.receipt.type) s.credit_windows in
    if_both (λ (r : Result (Option String) × Coordinator). Solvent r.1) capped.0
      (record { balances = v.balances; holds = v.holds; pools = v.pools })
      (record {
        balances =
            set-Balances e.receipt.node_id _ s.credits.credits
              (get_balance-NotNegative before.credits e.receipt.node_id b) v.balances;
        holds = v.holds;
        pools = v.pools;
      })

pub Applied-Balances :
    (cfg : CoordinatorConfig) (e : ReceiptEnvelope) (s : CreditsState)
    (p : Result (Option String) × CreditsState)
    → PaysNotNegative cfg
    → Balances s.credits
    → Applied cfg.receipts e s p
    → Balances p.1.credits
Applied-Balances cfg e s p n h (unpaid _ same) = rw same h
Applied-Balances cfg e s p n h (paid same) =
    rw same (pay_node-Balances cfg e.receipt.node_id e.receipt.type s n h)

receipt-Solvent :
    (checks : Checks) (cfg : CoordinatorConfig) (e : ReceiptEnvelope) (today : Text) (now : Double)
    (s : Coordinator)
    → PaysNotNegative cfg
    → Solvent s
    → Solvent (handle_receipt checks cfg e today now s).1
unfolding handle_receipt
receipt-Solvent checks cfg e today now s n v =
    let applied = apply_receipt checks cfg.receipts e now s.credits in
    if_both (λ (r : Result (Option String) × Coordinator). Solvent r.1) (is_blank e.receipt.node_id)
      v
      (cap_receipt-Solvent checks cfg e today s (record s { credits = applied.1 }) applied.0
        v.balances
        (record {
          balances =
              Applied-Balances cfg e s.credits applied n v.balances
                (apply_receipt-Applied checks cfg.receipts e now s.credits);
          holds = v.holds;
          pools = v.pools;
        }))

-- The calls that move credits, whose session or token was checked.
pub data Call : Type 0 where
  spends : (wallet : Text) (amount : Double) → Call
  receipts : (e : ReceiptEnvelope) (today : Text) (now : Double) → Call
  holds : (p : HoldRequest) (ticket_id : Text) (now : Double) → Call
  submits : (ticket hash : Option Text) (now : Double) → Call
  finalizes : (p : FinalizeRequest) (today : Text) (now : Double) → Call

unfoldable pub perform : Checks → CoordinatorConfig → Call → Coordinator → Coordinator
unfolding handle_spend handle_receipt handle_hold handle_submit handle_finalize
perform checks cfg (spends wallet amount) s = (handle_spend s wallet amount).1
perform checks cfg (receipts e today now) s = (handle_receipt checks cfg e today now s).1
perform checks cfg (holds p ticket_id now) s = (handle_hold cfg p ticket_id now s).1
perform checks cfg (submits ticket hash now) s = (handle_submit ticket hash now s).1
perform checks cfg (finalizes p today now) s = (handle_finalize cfg p today now s).1

pub perform-Solvent :
    (checks : Checks) (cfg : CoordinatorConfig) (call : Call) (s : Coordinator)
    → PaysNotNegative cfg
    → Solvent s
    → Solvent (perform checks cfg call s)
unfolding perform
perform-Solvent checks cfg (spends wallet amount) s n v = spend-Solvent s wallet amount v
perform-Solvent checks cfg (receipts e today now) s n v =
    receipt-Solvent checks cfg e today now s n v
perform-Solvent checks cfg (holds p ticket_id now) s n v = hold-Solvent cfg p ticket_id now s v
perform-Solvent checks cfg (submits ticket hash now) s n v = submit-Solvent ticket hash now s v
perform-Solvent checks cfg (finalizes p today now) s n v = finalize-Solvent cfg p today now s v
