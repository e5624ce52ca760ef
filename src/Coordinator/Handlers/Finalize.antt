-- ===== src/Coordinator/Handlers/Finalize.antt =====
-- POST /comments/finalize of coordinator/src/server.ts, from the parsed body on, after the token was checked.
use decentralized_dns.Prelude.{
  ℕ, ◌^◌, Bool, false, ◌||◌, not, [], ◌∷◌, take, Option, some, none, ◌⊎◌, inl, inr, ℤ, Text, String,
  codes, text_eq, if◌then◌else◌,
}
use decentralized_dns.Prelude.Doubles.{
  Double, finite, less, less_or_equal, truthy, maximum, minimum, is_finite, given,
}
use decentralized_dns.Prelude.Floats.{whole, times, minus, plus}
use decentralized_dns.Prelude.Maps.{lookup, assign}
use decentralized_dns.Coordinator.{or_zero_number, get_balance, set_credits}
use decentralized_dns.Coordinator.Comments.{CommentState, CommentHold, is_blank, finalize_hold}
use decentralized_dns.Coordinator.Handlers.{Coordinator, CoordinatorConfig, zero_credits, apply_cap}

abbrev pub pool_of : Coordinator → Text → Double
pool_of s site = or_zero_number (given (lookup site s.site_pools) zero_credits)

-- A bonus is paid from the pool of the site, if the pool holds it.
unfoldable pub pay_bonus : Text → Text → Double → Coordinator → Coordinator
unfolding get_balance
pay_bonus wallet site bonus s =
    if less_or_equal bonus (pool_of s site)
    then record s {
      site_pools = assign site (minus (pool_of s site) bonus) s.site_pools;
      credits = set_credits wallet (plus (get_balance s.credits wallet) bonus) s.credits;
    }
    else s

-- The error, if the bonus is over the wallet's cap, and the state.
unfoldable pub give_bonus :
    CoordinatorConfig → Text → Text → Text → Double → Coordinator → Option String × Coordinator
unfolding apply_cap pay_bonus
give_bonus cfg today wallet site bonus s =
    let capped = apply_cap cfg.bonus_daily_cap today wallet bonus s.bonus_windows in
    let counted : Coordinator = record s { bonus_windows = capped.1 } in
    if not (less zero_credits bonus)
    then (none, s)
    else if not capped.0
    then (some "bonus_cap_exceeded", counted)
    else (none, pay_bonus wallet site bonus counted)

unfoldable pub log_final : Text → CommentHold → Option Text → Double → Coordinator → Coordinator
log_final site h result now s = record s {
  site_receipts =
      assign site
        (take 200 (
          record {
            ts = now;
            ticket_id = h.ticket_id;
            result = result;
            amount = h.amount;
            wallet = h.wallet;
          }
          ∷ given (lookup site s.site_receipts) []))
        s.site_receipts;
}

pub record FinalizeRequest : Type 0 where
  pub ticket_id : Option Text
  pub result : Option Text
  pub site_id : Option Text
  pub bonus_multiplier : Double

abbrev pub says : String → Option Text → Bool
says word none = false
says word (some result) = text_eq result (codes word)

-- `body.site_id` overrides the site of the hold.
abbrev pub site_for : Option Text → CommentHold → Text
site_for none h = h.site_id
site_for (some site) h = if is_blank site then h.site_id else site

-- The hold in the map is the object whose site was overridden.
abbrev pub with_site : Text → CommentHold → CommentState → CommentState
with_site site h c = record c { holds = assign h.ticket_id (record h { site_id = site }) c.holds }

abbrev pub log_unless :
    Option String
    → Text
    → CommentHold
    → Option Text
    → Double
    → Coordinator
    → Option String × Coordinator
log_unless (some problem) site h result now s = (some problem, s)
log_unless none site h result now s = (none, log_final site h result now s)

-- The units of 0.5.
unfoldable pub half : ℕ
half = 2 ^ 1073

-- The bonus of an approved comment, or none.
unfoldable pub bonus_of : CoordinatorConfig → Double → Double → Double
bonus_of cfg amount bonus_multiplier =
    let multiplier =
      minimum (if truthy bonus_multiplier then bonus_multiplier else whole 1) cfg.bonus_max in
    if less (whole 1) multiplier then times amount (minus multiplier (whole 1)) else zero_credits

-- The share of the site's pool in a comment that is thrown away; the rest goes to the treasury.
unfoldable pub pool_share : CoordinatorConfig → Double → Double
pool_share cfg amount = times amount (
    maximum zero_credits (
      minimum
        (if is_finite cfg.pool_forfeit_split then cfg.pool_forfeit_split else finite (ℤ.pos half))
        (whole 1)))

unfoldable pub forfeit : CoordinatorConfig → Text → Double → Coordinator → Coordinator
unfolding pool_share
forfeit cfg site amount s = record s {
  site_pools = assign site (plus (pool_of s site) (pool_share cfg amount)) s.site_pools;
  treasury = plus s.treasury (minus amount (pool_share cfg amount));
}

-- What follows a hold that `finalizeHold` concluded.
unfoldable pub settle_final :
    CoordinatorConfig
    → FinalizeRequest
    → Text
    → Double
    → Text
    → CommentHold
    → Coordinator
    → Option String × Coordinator
unfolding bonus_of give_bonus forfeit log_final
settle_final cfg p today now site h s =
    let given_bonus =
      give_bonus cfg today h.wallet site (bonus_of cfg h.amount p.bonus_multiplier) s in
    if says "approved" p.result
    then log_unless given_bonus.0 site h p.result now given_bonus.1
    else if says "spam" p.result || says "trash" p.result
    then (none, log_final site h p.result now (forfeit cfg site h.amount s))
    else (none, log_final site h p.result now s)

abbrev pub finish_final :
    CoordinatorConfig
    → FinalizeRequest
    → Text
    → Double
    → Coordinator
    → String ⊎ CommentHold
    → Option String × Coordinator
finish_final cfg p today now s (inl problem) = (some problem, s)
finish_final cfg p today now s (inr h) =
    let site = site_for p.site_id h in
    settle_final cfg p today now site h (record s { comments = with_site site h s.comments })

-- POST /comments/finalize: the error, if there is one, and the state.
unfoldable pub handle_finalize :
    CoordinatorConfig → FinalizeRequest → Text → Double → Coordinator → Option String × Coordinator
unfolding finalize_hold settle_final
handle_finalize cfg p today now s =
    let done = finalize_hold s.credits s.comments p.ticket_id p.result now in
    finish_final cfg p today now (record s { credits = done.credits; comments = done.comments })
      done.answer
