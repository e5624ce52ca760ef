-- ===== src/Coordinator/Solvent.antt =====
-- The credits of the coordinator (coordinator/src/server.ts and its routes) over any sequence of calls.
pub mod Holds
pub mod Finalize
pub mod Verdict
pub mod Bonus
pub mod Calls
use decentralized_dns.Prelude.{
  ℕ, zero, suc, ◌+◌, ◌-◌, ◌*◌, ◌≤◌, ◌≡◌, ◌≢◌, refl, sym, ap, ◌∙◌, Bool, true, false, ◌&&◌, ◌||◌,
  not, List, [], ◌∷◌, Option, some, none, inl, inr, ◌⊎◌, ℤ, Text, String, text_eq, Result, ok, err,
  if◌then◌else◌, if_both, Bool-cases, arith, ◌+ℤ◌, ◌-ℤ◌, ◌≤ℤ◌, int_laws, pos, negsuc, subst,
  pos_part, leb,
}
use decentralized_dns.Prelude.All.{All}
use decentralized_dns.Prelude.Doubles.{
  Double, finite, nan, infinity, neg_infinity, less, less_or_equal, truthy, maximum, minimum,
  is_finite, given,
}
use decentralized_dns.Prelude.Floats.{
  one, overflow, round, positive, rounded, infinitely, minus, plus, times,
}
use decentralized_dns.Prelude.Floats.Whole.{add_pos}
use decentralized_dns.Prelude.Maps.{lookup, assign, All-assign, All-lookup}
use decentralized_dns.Coordinator.{
  ReceiptType, Receipt, ReceiptEnvelope, CreditsState, or_zero_number, get_balance, set_credits,
  spend_credits, credit, apply_rate_limit,
}
use decentralized_dns.Coordinator.Comments.{
  HoldStatus, is_approved, CommentHold, CommentState, Outcome, HoldRequest, trimmed, is_blank,
  valid_request, count_rates, cooling_down, take_hold, create_hold, submit_found, submit_hold,
  status_of, conclude, finalize_status, finalize_found, finalize_hold,
}
use decentralized_dns.Coordinator.Receipts.{Checks, credits_for, pay_node, apply_receipt}
use decentralized_dns.Coordinator.Handlers.{
  Coordinator, CoordinatorConfig, zero_credits, apply_cap, cap_receipt, handle_receipt,
  handle_spend, handle_hold, handle_submit,
}
use decentralized_dns.Coordinator.Handlers.Finalize.{
  FinalizeRequest, pool_of, bonus_of, pay_bonus, give_bonus, pool_share, forfeit, log_final, says,
  site_for, with_site, log_unless, settle_final, finish_final, handle_finalize,
}
use decentralized_dns.Coordinator.Payouts.Effects.{Applied, unpaid, paid, apply_receipt-Applied}

-- Not below 0: an amount, an infinity, or NaN, which `value || 0` reads as 0.
abbrev pub NotNegative : Double → Type 0
NotNegative d = less d zero_credits ≡ false

abbrev pub Balances : List (Text × Double) → Type 0
Balances entries = All (λ e. NotNegative e.1) entries

abbrev pub Amounts : List (Text × CommentHold) → Type 0
Amounts holds = All (λ e. NotNegative e.1.amount) holds

pub record Solvent (s : Coordinator) : Type 0 where
  pub balances : Balances s.credits.credits
  pub holds : Amounts s.comments.holds
  pub pools : Balances s.site_pools

given-NotNegative :
    (k : Text) (entries : List (Text × Double)) (found : Option Double)
    → lookup k entries ≡ found
    → Balances entries
    → NotNegative (given found zero_credits)
given-NotNegative k entries none e h = refl
given-NotNegative k entries (some d) e h = All-lookup (λ _ v. NotNegative v) k entries d h e

or_zero-NotNegative : (d : Double) → NotNegative d → NotNegative (or_zero_number d)
or_zero-NotNegative d h = if_both NotNegative (truthy d) h refl

pub get_balance-NotNegative :
    (s : CreditsState) (wallet : Text) → Balances s.credits → NotNegative (get_balance s wallet)
unfolding get_balance
get_balance-NotNegative s wallet h =
    or_zero-NotNegative (given (lookup wallet s.credits) zero_credits)
      (given-NotNegative wallet s.credits (lookup wallet s.credits) refl h)

pub pool_of-NotNegative :
    (s : Coordinator) (site : Text) → Balances s.site_pools → NotNegative (pool_of s site)
pool_of-NotNegative s site h =
    or_zero-NotNegative (given (lookup site s.site_pools) zero_credits)
      (given-NotNegative site s.site_pools (lookup site s.site_pools) refl h)

positive-NotNegative : (n : ℕ) → NotNegative (positive n)
positive-NotNegative n = if_both NotNegative (leb overflow n) refl (ground arith)

pub rounded-NotNegative : (den n : ℕ) → NotNegative (rounded den (pos n))
unfolding rounded
rounded-NotNegative den n = positive-NotNegative (round den n)

covered_difference : (a b : ℤ) → less (finite a) (finite b) ≡ false → (n : ℕ) × (a -ℤ b ≡ pos n)
covered_difference a b h = (pos_part (a -ℤ b), grind int_laws)

-- A sum of two numbers that are not negative.
pub plus-NotNegative : (a b : Double) → NotNegative a → NotNegative b → NotNegative (plus a b)
unfolding plus
plus-NotNegative (finite (pos n)) (finite (pos m)) h k =
    rw (add_pos n m) (rounded-NotNegative 1 (n + m))
plus-NotNegative (finite (negsuc n)) b h k = absurd (ground arith)
plus-NotNegative (finite (pos n)) (finite (negsuc m)) h k = absurd (ground arith)
plus-NotNegative (finite (pos n)) infinity h k = refl
plus-NotNegative (finite (pos n)) nan h k = refl
plus-NotNegative neg_infinity b h k = cc
plus-NotNegative (finite (pos n)) neg_infinity h k = cc
plus-NotNegative infinity neg_infinity h k = cc
plus-NotNegative infinity (finite b) h k = refl
plus-NotNegative infinity infinity h k = refl
plus-NotNegative infinity nan h k = refl
plus-NotNegative nan b h k = refl

-- A difference from an amount that covers it.
pub minus-NotNegative : (a b : Double) → NotNegative a → less a b ≡ false → NotNegative (minus a b)
unfolding minus
minus-NotNegative (finite a) (finite b) h k =
    let (n, e) = covered_difference a b k in rw e (rounded-NotNegative 1 n)
minus-NotNegative (finite a) infinity h k = cc
minus-NotNegative (finite a) neg_infinity h k = refl
minus-NotNegative (finite a) nan h k = refl
minus-NotNegative infinity (finite b) h k = refl
minus-NotNegative infinity infinity h k = refl
minus-NotNegative infinity neg_infinity h k = refl
minus-NotNegative infinity nan h k = refl
minus-NotNegative neg_infinity b h k = cc
minus-NotNegative nan b h k = refl

infinitely-NotNegative :
    (a : Double) → NotNegative a → NotNegative (infinitely infinity neg_infinity a)
infinitely-NotNegative nan h = refl
infinitely-NotNegative infinity h = refl
infinitely-NotNegative neg_infinity h = cc
infinitely-NotNegative (finite (pos zero)) h = refl
infinitely-NotNegative (finite (pos (suc n))) h = rw h refl
infinitely-NotNegative (finite (negsuc n)) h = absurd (ground arith)

-- A product of two numbers that are not negative.
pub times-NotNegative : (a b : Double) → NotNegative a → NotNegative b → NotNegative (times a b)
unfolding times
times-NotNegative (finite (pos n)) (finite (pos m)) h k = rounded-NotNegative one (n * m)
times-NotNegative (finite (negsuc n)) b h k = absurd (ground arith)
times-NotNegative (finite (pos n)) (finite (negsuc m)) h k = absurd (ground arith)
times-NotNegative (finite (pos n)) infinity h k = infinitely-NotNegative (finite (pos n)) h
times-NotNegative (finite (pos n)) neg_infinity h k = cc
times-NotNegative (finite (pos n)) nan h k = refl
times-NotNegative infinity b h k = infinitely-NotNegative b k
times-NotNegative neg_infinity b h k = cc
times-NotNegative nan infinity h k = refl
times-NotNegative nan neg_infinity h k = cc
times-NotNegative nan (finite b) h k = refl
times-NotNegative nan nan h k = refl

pub set-Balances :
    (k : Text) (d : Double) (entries : List (Text × Double))
    → NotNegative d
    → Balances entries
    → Balances (assign k d entries)
set-Balances k d entries h hs = All-assign (λ _ v. NotNegative v) k d entries h hs

-- A wallet's credits, of which a handler takes an amount that they cover.
pub taken-Balances :
    (s : CreditsState) (wallet : Text) (amount : Double)
    → Balances s.credits
    → less (get_balance s wallet) amount ≡ false
    → Balances (set_credits wallet (minus (get_balance s wallet) amount) s).credits
taken-Balances s wallet amount h c =
    set-Balances wallet _ s.credits
      (minus-NotNegative _ amount (get_balance-NotNegative s wallet h) c) h

pub given-Balances :
    (s : CreditsState) (wallet : Text) (amount : Double)
    → Balances s.credits
    → NotNegative amount
    → Balances (set_credits wallet (plus (get_balance s wallet) amount) s).credits
given-Balances s wallet amount h k =
    set-Balances wallet _ s.credits
      (plus-NotNegative _ amount (get_balance-NotNegative s wallet h) k) h
