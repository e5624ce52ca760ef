-- ===== src/Coordinator/Handlers.antt =====
-- coordinator/src/server.ts: the handlers that move credits, from the parsed body on, after the session or the token
-- was checked. A date is the day of the call. The public keys of nodes, which
-- `refreshNodePubkeys` reads from a file, are part of the state that a call starts in.
pub mod Finalize
use decentralized_dns.Prelude.{
  Bool, true, false, ◌||◌, not, List, [], ◌∷◌, take, Option, some, none, ◌⊎◌, inl, inr, ℤ, Text,
  String, codes, text_eq, Result, ok, err, if◌then◌else◌,
}
use decentralized_dns.Prelude.Doubles.{
  Double, finite, less, less_or_equal, truthy, maximum, minimum, is_finite, given,
}
use decentralized_dns.Prelude.Floats.{minus, plus}
use decentralized_dns.Prelude.Maps.{lookup, assign}
use decentralized_dns.Prelude.Sorting.{filter}
use decentralized_dns.Coordinator.{
  ReceiptType, ReceiptEnvelope, CreditsState, or_zero_number, get_balance, set_credits,
  spend_credits,
}
use decentralized_dns.Coordinator.Comments.{
  CommentState, CommentConfig, CommentHold, HoldRequest, is_blank, create_hold, submit_hold,
  finalize_hold,
}
use decentralized_dns.Coordinator.Receipts.{
  validate_and_apply_receipt, apply_admitted, Checks, ReceiptConfig, credits_for, apply_receipt,
}

abbrev pub zero_credits : Double
zero_credits = finite (ℤ.pos 0)

-- What was credited or paid on a day.
pub record Window : Type 0 where
  pub date : Text
  pub credited : Double

pub record SiteReceipt : Type 0 where
  pub ts : Double
  pub ticket_id : Text
  pub result : Option Text
  pub amount : Double
  pub wallet : Text

pub record Coordinator : Type 0 where
  pub credits : CreditsState
  pub comments : CommentState
  pub credit_windows : List (Text × Window)
  pub bonus_windows : List (Text × Window)
  pub site_pools : List (Text × Double)
  pub treasury : Double
  pub site_receipts : List (Text × List SiteReceipt)

pub record CoordinatorConfig : Type 0 where
  pub receipts : ReceiptConfig
  pub comments : CommentConfig
  pub bonus_max : Double
  pub daily_credit_cap : Double
  pub bonus_daily_cap : Double
  pub pool_forfeit_split : Double

-- The window of today; one of an earlier day is emptied.
unfoldable pub window_of : Text → Option Window → Window
window_of today none = record { date = today; credited = zero_credits }
window_of today (some w) =
    if text_eq w.date today then w else record { date = today; credited = zero_credits }

-- An entry of the map is emptied in place, also when the call is refused.
abbrev pub touched : Text → Text → List (Text × Window) → Option Window → List (Text × Window)
touched k today windows none = windows
touched k today windows (some w) = assign k (window_of today (some w)) windows

-- `applyDailyCap` and `applyBonusCap`: whether the amount is within the day's cap, and the windows.
unfoldable pub apply_cap :
    Double → Text → Text → Double → List (Text × Window) → Bool × List (Text × Window)
unfolding window_of
apply_cap cap_of_day today k delta windows =
    let w = window_of today (lookup k windows) in
    if less cap_of_day (plus w.credited delta)
    then (false, touched k today windows (lookup k windows))
    else (true, assign k (record { date = today; credited = plus w.credited delta }) windows)

-- POST /credits/spend
unfoldable pub handle_spend : Coordinator → Text → Double → Option String × Coordinator
unfolding spend_credits
handle_spend s wallet amount =
    let spent = spend_credits s.credits wallet amount in
    if not (truthy amount) || less_or_equal amount zero_credits
    then (some "invalid_amount", s)
    else (spent.0, record s { credits = spent.1 })

-- `creditDelta`
abbrev pub credit_delta : ReceiptConfig → Option ReceiptType → Double
credit_delta cfg type = given (credits_for cfg type) zero_credits

-- The end of POST /receipts: the daily cap, or the balance as it was before and the receipt forgotten. Of the state
-- `before` only the node's balance is used, which the handler keeps.
unfoldable pub cap_receipt :
    Checks
    → CoordinatorConfig
    → ReceiptEnvelope
    → Text
    → Coordinator
    → Coordinator
    → Result (Option String)
    → Result (Option String) × Coordinator
unfolding apply_cap get_balance filter
cap_receipt checks cfg e today before s (err message) = (err message, s)
cap_receipt checks cfg e today before s (ok (some problem)) = (ok (some problem), s)
cap_receipt checks cfg e today before s (ok none) =
    let node = e.receipt.node_id in
    let capped =
      apply_cap cfg.daily_credit_cap today node (credit_delta cfg.receipts e.receipt.type)
        s.credit_windows in
    if capped.0 then (ok none, record s { credit_windows = capped.1 }) else (
      ok (some "credit_cap_exceeded"),
      record s {
        credit_windows = capped.1;
        credits = record (set_credits node (get_balance before.credits node) s.credits) {
          receipts =
              filter (λ r. not (text_eq r.0 (checks.receipt_id e.receipt))) s.credits.receipts;
        };
      },
    )

-- POST /receipts
unfoldable pub handle_receipt :
    Checks
    → CoordinatorConfig
    → ReceiptEnvelope
    → Text
    → Double
    → Coordinator
    → Result (Option String) × Coordinator
unfolding apply_receipt cap_receipt
handle_receipt checks cfg e today now s =
    if is_blank e.receipt.node_id
    then (ok (some "missing_node_id"), s)
    else let applied = apply_receipt checks cfg.receipts e now s.credits in
      cap_receipt checks cfg e today s (record s { credits = applied.1 }) applied.0

-- A receipt between the two pieces of POST /receipts: the state in which its node's balance was read, and the error
-- that it has already.
pub record Pending : Type 0 where
  pub envelope : ReceiptEnvelope
  pub before : Coordinator
  pub problem : Option String

-- The piece up to the `await` of the receipt's signature. Other calls can run before the second piece; the second
-- `await`, of the resolver's signature, comes before anything of the state is read or written.
unfoldable pub begin_receipt :
    Checks
    → CoordinatorConfig
    → ReceiptEnvelope
    → Double
    → Coordinator
    → Option Pending × Coordinator
begin_receipt checks cfg e now s =
    let pre = validate_and_apply_receipt checks cfg.receipts e now s.credits in
    if is_blank e.receipt.node_id
    then (none, s)
    else (some (record { envelope = e; before = s; problem = pre.0 }), record s { credits = pre.1 })

unfoldable pub end_receipt :
    Checks
    → CoordinatorConfig
    → Text
    → Double
    → Pending
    → Coordinator
    → Result (Option String) × Coordinator
unfolding apply_admitted cap_receipt
end_receipt checks cfg today later p s =
    let applied = apply_admitted checks cfg.receipts p.envelope later p.problem s.credits in
    cap_receipt checks cfg p.envelope today p.before (record s { credits = applied.1 }) applied.0

-- POST /comments/hold
unfoldable pub handle_hold :
    CoordinatorConfig → HoldRequest → Text → Double → Coordinator → (String ⊎ Text) × Coordinator
unfolding create_hold
handle_hold cfg p ticket_id now s =
    let made = create_hold cfg.comments p ticket_id now s.credits s.comments in
    (made.answer, record s { credits = made.credits; comments = made.comments })

-- POST /comments/submit
unfoldable pub handle_submit :
    Option Text → Option Text → Double → Coordinator → Option String × Coordinator
unfolding submit_hold
handle_submit ticket hash now s =
    let done = submit_hold s.comments ticket hash now in (done.0, record s { comments = done.1 })
