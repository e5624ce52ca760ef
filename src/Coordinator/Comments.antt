-- ===== src/Coordinator/Comments.antt =====
-- coordinator/src/routes/comments.ts: credits held for a comment, until it is approved or
-- thrown away. A new ticket is an argument, in place of random bytes.
pub mod Auth
use decentralized_dns.Prelude.{
  Bool, true, false, ◌&&◌, ◌||◌, not, List, [], ◌∷◌, ◌++◌, Option, some, none, ◌⊎◌, inl, inr, ℤ,
  Text, String, codes, trim, text_eq, if◌then◌else◌,
}
use decentralized_dns.Prelude.Doubles.{Double, finite, less, less_or_equal, truthy, given}
use decentralized_dns.Prelude.Floats.{minus, plus}
use decentralized_dns.Prelude.Maps.{lookup, assign}
use decentralized_dns.Prelude.Sorting.{filter}
use decentralized_dns.Coordinator.{
  CreditsState, Rate, or_zero_number, get_balance, set_credits, apply_rate_limit,
}

pub data HoldStatus : Type 0 where
  held submitted approved spam trash : HoldStatus

pub record CommentHold : Type 0 where
  pub ticket_id : Text
  pub wallet : Text
  pub site_id : Text
  pub post_id : Text
  pub amount : Double
  pub status : HoldStatus
  pub created_at : Double
  pub expires_at : Double
  pub comment_hash : Option Text

pub record CommentState : Type 0 where
  pub holds : List (Text × CommentHold)
  pub wallet_rate : List (Text × Rate)
  pub site_rate : List (Text × Rate)
  pub wallet_cooldown : List (Text × Double)

pub record CommentConfig : Type 0 where
  pub hold_ttl_ms : Double
  pub max_per_minute_wallet : Double
  pub max_per_minute_site : Double
  pub wallet_cooldown_ms : Double

-- The error or the value, with both states.
pub record Outcome {ℓ} (A : Type ℓ) : Type ℓ where
  pub answer : String ⊎ A
  pub credits : CreditsState
  pub comments : CommentState

abbrev pub is_blank : Text → Bool
is_blank [] = true
is_blank (_ ∷ _) = false

-- `(payload.field || "").trim()`
abbrev pub trimmed : Option Text → Text
trimmed field = trim (given field [])

pub record HoldRequest : Type 0 where
  pub wallet : Option Text
  pub site_id : Option Text
  pub post_id : Option Text
  pub amount : Double

unfoldable pub valid_request : HoldRequest → Bool
valid_request p =
    not (is_blank (trimmed p.wallet))
    && not (is_blank (trimmed p.site_id))
    && not (is_blank (trimmed p.post_id))
    && truthy p.amount
    && not (less_or_equal p.amount (finite (ℤ.pos 0)))

-- The state with both rates counted, or the first that is over its limit.
unfoldable pub count_rates :
    CommentConfig → Text → Text → Double → CommentState → Bool × CommentState
unfolding apply_rate_limit
count_rates cfg wallet site_id now c =
    let w = apply_rate_limit c.wallet_rate wallet cfg.max_per_minute_wallet now in
    let s = apply_rate_limit c.site_rate site_id cfg.max_per_minute_site now in
    if w.0
    then (s.0, record c { wallet_rate = w.1; site_rate = s.1 })
    else (false, record c { wallet_rate = w.1 })

abbrev pub cooling_down : CommentConfig → Text → Double → CommentState → Bool
cooling_down cfg wallet now c =
    less (minus now (or_zero_number (given (lookup wallet c.wallet_cooldown) (finite (ℤ.pos 0)))))
      cfg.wallet_cooldown_ms

-- The last part of `createHold`, which takes the credits.
unfoldable pub take_hold :
    CommentConfig → HoldRequest → Text → Double → CreditsState → CommentState → Outcome Text
unfolding get_balance
take_hold cfg p ticket_id now credits c =
    let wallet = trimmed p.wallet in
    let balance = get_balance credits wallet in
    if less balance p.amount
    then record { answer = inl "INSUFFICIENT_CREDITS"; credits = credits; comments = c }
    else record {
      answer = inr ticket_id;
      credits = set_credits wallet (minus balance p.amount) credits;
      comments = record c {
        wallet_cooldown = assign wallet now c.wallet_cooldown;
        holds =
            assign ticket_id
              (record {
                ticket_id = ticket_id;
                wallet = wallet;
                site_id = trimmed p.site_id;
                post_id = trimmed p.post_id;
                amount = p.amount;
                status = held;
                created_at = now;
                expires_at = plus now cfg.hold_ttl_ms;
                comment_hash = none;
              })
              c.holds;
      };
    }

unfoldable pub create_hold :
    CommentConfig → HoldRequest → Text → Double → CreditsState → CommentState → Outcome Text
unfolding valid_request count_rates take_hold
create_hold cfg p ticket_id now credits c =
    let wallet = trimmed p.wallet in
    let rated = count_rates cfg wallet (trimmed p.site_id) now c in
    if not (valid_request p)
    then record { answer = inl "INVALID_REQUEST"; credits = credits; comments = c }
    else if not rated.0
    then record { answer = inl "RATE_LIMITED"; credits = credits; comments = rated.1 }
    else if cooling_down cfg wallet now rated.1
    then record { answer = inl "COOLDOWN_ACTIVE"; credits = credits; comments = rated.1 }
    else take_hold cfg p ticket_id now credits rated.1

abbrev pub submit_found :
    Text → Text → Double → CommentState → Option CommentHold → Option String × CommentState
submit_found ticket_id hash now c none = (some "TICKET_NOT_FOUND", c)
submit_found ticket_id hash now c (some h) =
    if less h.expires_at now then (some "TICKET_EXPIRED", c) else (
      none,
      record c {
        holds =
            assign ticket_id (record h { comment_hash = some hash; status = submitted }) c.holds;
      },
    )

unfoldable pub submit_hold :
    CommentState → Option Text → Option Text → Double → Option String × CommentState
submit_hold c ticket hash now =
    let ticket_id = trimmed ticket in
    let comment_hash = trimmed hash in
    if is_blank ticket_id || is_blank comment_hash
    then (some "INVALID_REQUEST", c)
    else submit_found ticket_id comment_hash now c (lookup ticket_id c.holds)

unfoldable pub status_of : Text → Option HoldStatus
status_of result =
    if text_eq result (codes "approved")
    then some approved
    else if text_eq result (codes "spam")
    then some spam
    else if text_eq result (codes "trash")
    then some trash
    else none

abbrev pub is_approved : HoldStatus → Bool
is_approved approved = true
is_approved _ = false

-- The credits and the hold after a verdict.
unfoldable pub conclude :
    CreditsState → CommentState → Text → CommentHold → HoldStatus → Outcome CommentHold
unfolding get_balance
conclude credits c ticket_id h status = record {
  answer = inr (record h { status = status });
  credits =
      if is_approved status
      then set_credits h.wallet (plus (get_balance credits h.wallet) h.amount) credits
      else credits;
  comments = record c { holds = assign ticket_id (record h { status = status }) c.holds };
}

unfoldable pub finalize_status :
    CreditsState → CommentState → Text → CommentHold → Option HoldStatus → Outcome CommentHold
unfolding conclude
finalize_status credits c ticket_id h none = record {
  answer = inl "INVALID_RESULT";
  credits = credits;
  comments = c;
}
finalize_status credits c ticket_id h (some status) = conclude credits c ticket_id h status

unfoldable pub finalize_found :
    CreditsState → CommentState → Text → Text → Double → Option CommentHold → Outcome CommentHold
unfolding finalize_status status_of
finalize_found credits c ticket_id result now none = record {
  answer = inl "TICKET_NOT_FOUND";
  credits = credits;
  comments = c;
}
finalize_found credits c ticket_id result now (some h) =
    if less h.expires_at now
    then record { answer = inl "TICKET_EXPIRED"; credits = credits; comments = c }
    else finalize_status credits c ticket_id h (status_of result)

unfoldable pub finalize_hold :
    CreditsState → CommentState → Option Text → Option Text → Double → Outcome CommentHold
unfolding finalize_found
finalize_hold credits c ticket result now =
    let ticket_id = trimmed ticket in
    let verdict = trimmed result in
    if is_blank ticket_id || is_blank verdict
    then record { answer = inl "INVALID_REQUEST"; credits = credits; comments = c }
    else finalize_found credits c ticket_id verdict now (lookup ticket_id c.holds)
