-- ===== src/Coordinator/Refund.antt =====
-- A comment from its hold to its approval, in coordinator/src/routes/comments.ts.
use decentralized_dns.Prelude.{
  ℕ, ◌-◌, ◌+◌, ◌*◌, pos, ◌<◌, ◌≤◌, ◌^◌, ◌∙◌, ap, arith, ◌≡◌, false, ◌||◌, Option, some, none, ◌⊎◌,
  inl, inr, Text, String, Bool-cases,
}
use decentralized_dns.Prelude.Doubles.{Double, less}
use decentralized_dns.Prelude.Floats.{minus, plus, whole, one}
use decentralized_dns.Prelude.Floats.Whole.{plus-whole, minus-whole, covered-whole}
use decentralized_dns.Prelude.Maps.{lookup, lookup-assign}
use decentralized_dns.Coordinator.{CreditsState, get_balance, set_credits}
use decentralized_dns.Coordinator.Comments.{
  CommentHold, CommentState, CommentConfig, HoldRequest, held, approved, Outcome, trimmed, is_blank,
  valid_request, count_rates, cooling_down, take_hold, create_hold, status_of, finalize_hold,
}
use decentralized_dns.Coordinator.Replays.{
  get_balance-set_number, get_balance-conclude, finalize_approved,
}

-- The hold that `createHold` makes.
abbrev new_hold : CommentConfig → HoldRequest → Text → Double → CommentHold
new_hold cfg p ticket_id now = record {
  ticket_id = ticket_id;
  wallet = trimmed p.wallet;
  site_id = trimmed p.site_id;
  post_id = trimmed p.post_id;
  amount = p.amount;
  status = held;
  created_at = now;
  expires_at = plus now cfg.hold_ttl_ms;
  comment_hash = none;
}

-- An accepted hold is the last branch.
data Accepted (cfg : CommentConfig) (p : HoldRequest) (ticket_id : Text) (now : Double)
    (credits : CreditsState) : Outcome Text → Type 0 where
  accepted :
      (c : CommentState)
      → less (get_balance credits (trimmed p.wallet)) p.amount ≡ false
      → lookup ticket_id c.holds ≡ some (new_hold cfg p ticket_id now)
      → Accepted cfg p ticket_id now credits (record {
        answer = inr ticket_id;
        credits =
            set_credits
              (trimmed p.wallet)
              (minus (get_balance credits (trimmed p.wallet)) p.amount)
              credits;
        comments = c;
      })

refusal_no : (message : String) (t : Text) → ◌≡◌ {A = String ⊎ Text} (inl message) (inr t) → ⊥
refusal_no message t e = cc

take_hold-Accepted :
    (cfg : CommentConfig) (p : HoldRequest) (ticket_id : Text) (now : Double)
    (credits : CreditsState) (c : CommentState) (t : Text)
    → (take_hold cfg p ticket_id now credits c).answer ≡ inr t
    → Accepted cfg p ticket_id now credits (take_hold cfg p ticket_id now credits c)
unfolding take_hold
take_hold-Accepted cfg p ticket_id now credits c t e =
    elim (Bool-cases (less (get_balance credits (trimmed p.wallet)) p.amount)) [
      | inl short ↦ absurd (refusal_no "INSUFFICIENT_CREDITS" t (rw short at e))
      | inr covers ↦
          rw covers
            (accepted _ covers (lookup-assign ticket_id (new_hold cfg p ticket_id now) c.holds))
    ]

create_hold-Accepted :
    (cfg : CommentConfig) (p : HoldRequest) (ticket_id : Text) (now : Double)
    (credits : CreditsState) (c : CommentState) (t : Text)
    → (create_hold cfg p ticket_id now credits c).answer ≡ inr t
    → Accepted cfg p ticket_id now credits (create_hold cfg p ticket_id now credits c)
unfolding create_hold
create_hold-Accepted cfg p ticket_id now credits c t e =
    let rated = count_rates cfg (trimmed p.wallet) (trimmed p.site_id) now c in
    elim (Bool-cases (valid_request p)) [
      | inr invalid ↦ absurd (refusal_no "INVALID_REQUEST" t (rw invalid at e))
      | inl valid ↦ elim (Bool-cases rated.0) [
        | inr limited ↦ absurd (refusal_no "RATE_LIMITED" t (rw (valid, limited) at e))
        | inl free ↦ elim (Bool-cases (cooling_down cfg (trimmed p.wallet) now rated.1)) [
          | inl cooling ↦ absurd (refusal_no "COOLDOWN_ACTIVE" t (rw (valid, free, cooling) at e))
          | inr cool ↦
              rw (valid, free, cool)
                (take_hold-Accepted cfg p ticket_id now credits rated.1 t
                  (rw (valid, free, cool) at e))
        ]
      ]
    ]

restored : (a b : ℕ) → b ≤ a → a - b + b ≡ a
restored a b h = omega arith

refund :
    (cfg : CommentConfig) (p : HoldRequest) (ticket_id : Text) (now later : Double)
    (credits : CreditsState) (o : Outcome Text) (ticket result : Option Text) (balance amount : ℕ)
    → Accepted cfg p ticket_id now credits o
    → trimmed ticket ≡ ticket_id
    → (is_blank (trimmed ticket) || is_blank (trimmed result)) ≡ false
    → less (plus now cfg.hold_ttl_ms) later ≡ false
    → status_of (trimmed result) ≡ some approved
    → balance < 2 ^ 53
    → get_balance credits (trimmed p.wallet) ≡ whole balance
    → p.amount ≡ whole amount
    → get_balance
        (finalize_hold o.credits o.comments ticket result later).credits
        (trimmed p.wallet)
      ≡ whole balance
refund cfg p ticket_id now later credits o ticket result balance amount (accepted c covers found)
      same named valid verdict small has asks =
    let h = new_hold cfg p ticket_id now in
    let enough : amount ≤ balance = covered-whole amount balance (rw (has, asks) at covers) in
    let after =
      set_credits (trimmed p.wallet) (minus (get_balance credits (trimmed p.wallet)) p.amount)
        credits in
    let taken : get_balance after (trimmed p.wallet) ≡ whole (balance - amount) =
      rw (has, asks, minus-whole balance amount enough small)
        (get_balance-set_number credits (trimmed p.wallet) (whole (balance - amount)) tt) in
    let back : plus (whole (balance - amount)) (whole amount) ≡ whole balance =
      plus-whole (balance - amount) amount (rw (restored balance amount enough) small)
      ∙ ap whole (restored balance amount enough) in
    rw (finalize_approved ticket result later h named valid verdict after c (rw same found)) (
      get_balance-conclude after c (trimmed ticket) h (whole (balance - amount))
        (pos (amount * one)) tt taken asks
      ∙ back)

-- A comment that is approved costs nothing, for a balance and an amount that are whole numbers, the balance below
-- 2 ^ 53 (fractions are rounded and can differ by a rounding): if `createHold` accepts a request and the ticket is finalized as
-- approved before it expires, then the wallet has the balance that it had before the request.
pub finalize_hold-create_hold :
    (cfg : CommentConfig) (p : HoldRequest) (ticket_id : Text) (now later : Double)
    (credits : CreditsState) (c : CommentState) (ticket result : Option Text) (balance amount : ℕ)
    → (create_hold cfg p ticket_id now credits c).answer ≡ inr ticket_id
    → trimmed ticket ≡ ticket_id
    → (is_blank (trimmed ticket) || is_blank (trimmed result)) ≡ false
    → less (plus now cfg.hold_ttl_ms) later ≡ false
    → status_of (trimmed result) ≡ some approved
    → balance < 2 ^ 53
    → get_balance credits (trimmed p.wallet) ≡ whole balance
    → p.amount ≡ whole amount
    → let made = create_hold cfg p ticket_id now credits c in
      get_balance
        (finalize_hold made.credits made.comments ticket result later).credits
        (trimmed p.wallet)
      ≡ whole balance
finalize_hold-create_hold cfg p ticket_id now later credits c ticket result balance amount made same
      named valid verdict small has asks =
    refund cfg p ticket_id now later credits _ ticket result balance amount
      (create_hold-Accepted cfg p ticket_id now credits c ticket_id made) same named valid verdict
      small has asks
