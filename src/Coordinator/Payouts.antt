-- ===== src/Coordinator/Payouts.antt =====
-- POST /receipts of coordinator/src/server.ts over a day: the daily cap on what receipts pay to a node.
pub mod Caps
pub mod Balances
pub mod Effects
use decentralized_dns.Prelude.Floats.Whole.{whole_zero}
use decentralized_dns.Prelude.{
  ℕ, ◌+◌, ◌<◌, ◌≤◌, ◌^◌, ap, ◌≡◌, ◌≢◌, refl, sym, ◌∙◌, Bool, true, false, ◌&&◌, not, List, [], ◌∷◌,
  Option, some, none, inl, inr, ℤ, Text, String, text_eq, text_eq_refl, text_eq_iff, Result, ok,
  err, if_both, Bool-cases, arith, ◌+ℤ◌, ◌≤ℤ◌, int_laws, pos, subst,
}
use decentralized_dns.Prelude.Doubles.{Double, finite, less, given}
use decentralized_dns.Prelude.Floats.{whole}
use decentralized_dns.Prelude.Maps.{lookup, lookup-assign, lookup-assign_other}
use decentralized_dns.Prelude.Sorting.{filter}
use decentralized_dns.Continuity.{includes}
use decentralized_dns.Coordinator.{
  ReceiptType, serve, verify, store, ReceiptEnvelope, CreditsState, get_balance, set_credits,
  credit,
}
use decentralized_dns.Coordinator.Comments.{is_blank}
use decentralized_dns.Coordinator.Receipts.{
  Checks, ReceiptConfig, validate_receipt_shape, rate_receipt, admit_receipt, validate_shaped,
  validate_and_apply_receipt, check_type, credits_for, pay_node, pay_receipt, pay_checked,
  apply_admitted, apply_receipt,
}
use decentralized_dns.Coordinator.Handlers.{
  Coordinator, CoordinatorConfig, Window, zero_credits, window_of, touched, apply_cap, credit_delta,
  cap_receipt, handle_receipt,
}
use decentralized_dns.Coordinator.Replays.{get_balance-set_credits}
use decentralized_dns.Coordinator.Payouts.Effects.{Applied, apply_receipt-Applied, paid, unpaid}
use decentralized_dns.Coordinator.Payouts.Balances.{
  Pays, get_balance-pay_node, get_balance-pay_node_other, get_balance_restored, get_balance_same,
  lookup-touched_other, window_of-touched, window_today,
}
use decentralized_dns.Coordinator.Payouts.Caps.{Kept, handle_receipt-Kept}

window_fresh : (today : Text) → (window_of today none).credited ≡ finite (pos 0)
unfolding window_of
window_fresh today = refl

-- The calls of a day, each with its time.
unfoldable pub handle_receipts :
    Checks → CoordinatorConfig → Text → List (ReceiptEnvelope × Double) → Coordinator → Coordinator
unfolding handle_receipt
handle_receipts checks cfg today [] s = s
handle_receipts checks cfg today ((e, now) ∷ calls) s =
    handle_receipts checks cfg today calls (handle_receipt checks cfg e today now s).1

-- What receipts pay, as whole numbers that leave a balance exact.
pub record WholeCredits (cfg : ReceiptConfig) (first cap_of_day : ℕ) : Type 0 where
  pub serve_amount : ℕ
  pub verify_amount : ℕ
  pub store_amount : ℕ
  pub serve_is : cfg.serve_credits ≡ whole serve_amount
  pub verify_is : cfg.verify_credits ≡ whole verify_amount
  pub store_is : cfg.store_credits ≡ whole store_amount
  pub serve_small : first + cap_of_day + serve_amount < 2 ^ 53
  pub verify_small : first + cap_of_day + verify_amount < 2 ^ 53
  pub store_small : first + cap_of_day + store_amount < 2 ^ 53

nothing_more : (n m : ℕ) → n + m < 2 ^ 53 → n + 0 < 2 ^ 53
nothing_more n m h = omega arith

Pays-WholeCredits :
    (cfg : ReceiptConfig) (first cap_of_day : ℕ)
    → WholeCredits cfg first cap_of_day
    → (type : Option ReceiptType)
    → (d : ℕ) × Pays (credits_for cfg type) d × (first + cap_of_day + d < 2 ^ 53)
Pays-WholeCredits cfg first cap_of_day f none =
    (0, refl, nothing_more (first + cap_of_day) f.store_amount f.store_small)
Pays-WholeCredits cfg first cap_of_day f (some serve) = (f.serve_amount, f.serve_is, f.serve_small)
Pays-WholeCredits cfg first cap_of_day f (some verify) =
    (f.verify_amount, f.verify_is, f.verify_small)
Pays-WholeCredits cfg first cap_of_day f (some store) = (f.store_amount, f.store_is, f.store_small)
Pays-WholeCredits cfg first cap_of_day f (some (ReceiptType.other_type t)) =
    (0, refl, nothing_more (first + cap_of_day) f.store_amount f.store_small)

handle_receipts-Kept :
    (checks : Checks) (cfg : CoordinatorConfig) (today node : Text) (first cap_of_day : ℕ)
    (calls : List (ReceiptEnvelope × Double)) (s : Coordinator)
    → cfg.daily_credit_cap ≡ whole cap_of_day
    → WholeCredits cfg.receipts first cap_of_day
    → Kept today node first cap_of_day s
    → Kept today node first cap_of_day (handle_receipts checks cfg today calls s)
unfolding handle_receipts
handle_receipts-Kept checks cfg today node first cap_of_day [] s daily f k = k
handle_receipts-Kept checks cfg today node first cap_of_day ((e, now) ∷ calls) s daily f k =
    let (d, pays, small) = Pays-WholeCredits cfg.receipts first cap_of_day f e.receipt.type in
    handle_receipts-Kept checks cfg today node first cap_of_day calls _ daily f
      (handle_receipt-Kept checks cfg today cap_of_day daily e now node first s d pays small k)

no_credits :
    (today node : Text) (windows : List (Text × Window))
    → lookup node windows ≡ none
    → (window_of today (lookup node windows)).credited ≡ whole 0
no_credits today node windows fresh = rw fresh (window_fresh today ∙ sym whole_zero)

-- For a daily cap, credits of each type of receipt and a first balance that are whole numbers, such that the first
-- balance, the cap and one more receipt stay below 2 ^ 53: whatever receipts are sent on a day, also
-- the same ones again and those of other nodes, a node that was not credited on that day before ends with a
-- whole balance of at most its first balance and the cap.
pub handle_receipts-bound :
    (checks : Checks) (cfg : CoordinatorConfig) (today node : Text) (first cap_of_day : ℕ)
    (calls : List (ReceiptEnvelope × Double)) (s : Coordinator)
    → cfg.daily_credit_cap ≡ whole cap_of_day
    → WholeCredits cfg.receipts first cap_of_day
    → lookup node s.credit_windows ≡ none
    → get_balance s.credits node ≡ whole first
    → (last : ℕ) × (get_balance (handle_receipts checks cfg today calls s).credits node
        ≡ whole last)
      × (last ≤ first + cap_of_day)
handle_receipts-bound checks cfg today node first cap_of_day calls s daily f fresh has =
    let first_and_none : first ≡ first + 0 = omega arith in
    let k = handle_receipts-Kept checks cfg today node first cap_of_day calls s daily f (record {
      amount = 0;
      credited = no_credits today node s.credit_windows fresh;
      balance = has ∙ ap whole first_and_none;
      within = omega arith;
    }) in
    let le = k.within in (first + k.amount, k.balance, omega arith)
