-- ===== src/Coordinator/Payouts/Balances.antt =====
-- Balances and windows of the coordinator (coordinator/src/server.ts) after one of them was set.
use decentralized_dns.Prelude.Floats.{whole}
use decentralized_dns.Prelude.Floats.Whole.{plus-whole, whole_zero}
use decentralized_dns.Prelude.{
  ℕ, ◌+◌, ◌<◌, ◌^◌, ap, sym, ◌≡◌, refl, ◌∙◌, Bool, true, false, List, Option, some, none, Text,
  text_eq, text_eq_refl, arith,
}
use decentralized_dns.Prelude.Doubles.{Double, given}
use decentralized_dns.Prelude.Maps.{lookup, lookup-assign, lookup-assign_other}
use decentralized_dns.Coordinator.{ReceiptEnvelope, CreditsState, get_balance, set_credits, credit}
use decentralized_dns.Coordinator.Receipts.{pay_node}
use decentralized_dns.Coordinator.Handlers.{Window, zero_credits, window_of, touched}
use decentralized_dns.Coordinator.Replays.{get_balance-set_number}

pub get_balance_same :
    (s s' : CreditsState) (node : Text)
    → s'.credits ≡ s.credits
    → get_balance s' node ≡ get_balance s node
unfolding get_balance
get_balance_same s s' node h = rw h

get_balance-set_credits_other :
    (s : CreditsState) (k node : Text) (amount : Double)
    → text_eq k node ≡ false
    → get_balance (set_credits k amount s) node ≡ get_balance s node
unfolding get_balance
get_balance-set_credits_other s k node amount h = rw (lookup-assign_other k node amount s.credits h)

-- An emptied window is the window of today.
pub window_of-touched :
    (today node : Text) (windows : List (Text × Window)) (found : Option Window)
    → lookup node windows ≡ found
    → window_of today (lookup node (touched node today windows found)) ≡ window_of today found
unfolding window_of
window_of-touched today node windows none h = rw h
window_of-touched today node windows (some w) h =
    rw lookup-assign (idle (text_eq w.date today) refl)
  where
    idle :
        (b : Bool)
        → text_eq w.date today ≡ b
        → window_of today (some (window_of today (some w))) ≡ window_of today (some w)
    idle true e = rw (e, e)
    idle false e = rw (e, text_eq_refl today)

-- A receipt pays this whole number of credits.
abbrev pub Pays : Option Double → ℕ → Type 0
Pays none d = d ≡ 0
Pays (some amount) d = amount ≡ whole d

pub given-Pays : (o : Option Double) (d : ℕ) → Pays o d → given o zero_credits ≡ whole d
given-Pays none d e = rw e (sym whole_zero)
given-Pays (some amount) d e = e

pub get_balance-pay_node :
    (s : CreditsState) (node : Text) (o : Option Double) (b d : ℕ)
    → Pays o d
    → b + d < 2 ^ 53
    → get_balance s node ≡ whole b
    → get_balance (pay_node node o s) node ≡ whole (b + d)
unfolding credit
get_balance-pay_node s node none b d e small h = rw e (h ∙ ap whole (sym (add_zero b)))
  where
    add_zero : (b : ℕ) → b + 0 ≡ b
    add_zero b = omega arith
get_balance-pay_node s node (some amount) b d e small h =
    rw (h, e, plus-whole b d small) (get_balance-set_number s node (whole (b + d)) tt)

pub get_balance-pay_node_other :
    (s : CreditsState) (k node : Text) (o : Option Double)
    → text_eq k node ≡ false
    → get_balance (pay_node k o s) node ≡ get_balance s node
unfolding credit
get_balance-pay_node_other s k node none h = refl
get_balance-pay_node_other s k node (some amount) h = get_balance-set_credits_other s k node _ h

-- The balances after a balance was put back and the receipts were cut.
pub get_balance_restored :
    (s : CreditsState) (k node : Text) (amount : Double) (receipts : List (Text × ReceiptEnvelope))
    → text_eq k node ≡ false
    → get_balance (record (set_credits k amount s) { receipts = receipts }) node
      ≡ get_balance s node
get_balance_restored s k node amount receipts h =
    get_balance_same (set_credits k amount s)
      (record (set_credits k amount s) { receipts = receipts }) node refl
    ∙ get_balance-set_credits_other s k node amount h

pub lookup-touched_other :
    (k today node : Text) (windows : List (Text × Window)) (found : Option Window)
    → text_eq k node ≡ false
    → lookup node (touched k today windows found) ≡ lookup node windows
lookup-touched_other k today node windows none h = refl
lookup-touched_other k today node windows (some w) h = lookup-assign_other k node _ windows h

pub window_today :
    (today : Text) (d : Double)
    → (window_of today (some (record { date = today; credited = d }))).credited ≡ d
unfolding window_of
window_today today d = rw (text_eq_refl today)
