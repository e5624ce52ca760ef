-- ===== src/Coordinator/Solvent/Finalize.antt =====
-- POST /comments/finalize (coordinator/src/server.ts) keeps the credits solvent, with the bonus and the shares of the pool.
use decentralized_dns.Prelude.{
  ◌≡◌, refl, ◌||◌, Option, some, none, inl, inr, ◌⊎◌, Text, String, if◌then◌else◌, if_both, arith,
  pos, negsuc,
}
use decentralized_dns.Prelude.Doubles.{
  Double, finite, nan, infinity, neg_infinity, maximum, minimum, is_finite,
}
use decentralized_dns.Prelude.Maps.{All-assign}
use decentralized_dns.Coordinator.Comments.{CommentHold}
use decentralized_dns.Coordinator.Handlers.{Coordinator, CoordinatorConfig, zero_credits}
use decentralized_dns.Prelude.Floats.{whole}
use decentralized_dns.Coordinator.Handlers.Finalize.{
  half, FinalizeRequest, bonus_of, give_bonus, pool_share, forfeit, log_final, says, site_for,
  with_site, log_unless, settle_final, finish_final, handle_finalize,
}
use decentralized_dns.Coordinator.Solvent.{
  NotNegative, Solvent, pool_of-NotNegative, plus-NotNegative, times-NotNegative, set-Balances,
}
use decentralized_dns.Coordinator.Solvent.Bonus.{give_bonus-Solvent}
use decentralized_dns.Coordinator.Solvent.Verdict.{finalize_hold-Concluded}

maximum-NotNegative : (d : Double) → NotNegative (maximum zero_credits d)
maximum-NotNegative nan = refl
maximum-NotNegative infinity = refl
maximum-NotNegative neg_infinity = refl
maximum-NotNegative (finite (pos n)) = ground arith
maximum-NotNegative (finite (negsuc n)) = ground arith

pool_share-NotNegative :
    (cfg : CoordinatorConfig) (amount : Double)
    → NotNegative amount
    → NotNegative (pool_share cfg amount)
unfolding pool_share
pool_share-NotNegative cfg amount h = times-NotNegative amount _ h (
    maximum-NotNegative (
      minimum
        (if is_finite cfg.pool_forfeit_split then cfg.pool_forfeit_split else finite (pos half))
        (whole 1)))

forfeit-Solvent :
    (cfg : CoordinatorConfig) (site : Text) (amount : Double) (s : Coordinator)
    → NotNegative amount
    → Solvent s
    → Solvent (forfeit cfg site amount s)
unfolding forfeit
forfeit-Solvent cfg site amount s n v = record {
  balances = v.balances;
  holds = v.holds;
  pools =
      set-Balances site _ s.site_pools
        (plus-NotNegative _ _ (pool_of-NotNegative s site v.pools)
          (pool_share-NotNegative cfg amount n))
        v.pools;
}

log_final-Solvent :
    (site : Text) (h : CommentHold) (result : Option Text) (now : Double) (s : Coordinator)
    → Solvent s
    → Solvent (log_final site h result now s)
unfolding log_final
log_final-Solvent site h result now s v = record {
  balances = v.balances;
  holds = v.holds;
  pools = v.pools;
}

log_unless-Solvent :
    (problem : Option String) (site : Text) (h : CommentHold) (result : Option Text) (now : Double)
    (s : Coordinator)
    → Solvent s
    → Solvent (log_unless problem site h result now s).1
log_unless-Solvent (some problem) site h result now s v = v
log_unless-Solvent none site h result now s v = log_final-Solvent site h result now s v

settle_final-Solvent :
    (cfg : CoordinatorConfig) (p : FinalizeRequest) (today : Text) (now : Double) (site : Text)
    (h : CommentHold) (s : Coordinator)
    → NotNegative h.amount
    → Solvent s
    → Solvent (settle_final cfg p today now site h s).1
unfolding settle_final
settle_final-Solvent cfg p today now site h s n v =
    let bonus = bonus_of cfg h.amount p.bonus_multiplier in
    let given_bonus = give_bonus cfg today h.wallet site bonus s in
    if_both (λ (r : Option String × Coordinator). Solvent r.1) (says "approved" p.result)
      (log_unless-Solvent given_bonus.0 site h p.result now given_bonus.1
        (give_bonus-Solvent cfg today h.wallet site bonus s v))
      (if_both (λ (r : Option String × Coordinator). Solvent r.1)
        (says "spam" p.result || says "trash" p.result)
        (log_final-Solvent site h p.result now _ (forfeit-Solvent cfg site h.amount s n v))
        (log_final-Solvent site h p.result now s v))

finish_final-Solvent :
    (cfg : CoordinatorConfig) (p : FinalizeRequest) (today : Text) (now : Double) (s : Coordinator)
    (answer : String ⊎ CommentHold)
    → ((h : CommentHold) → answer ≡ inr h → NotNegative h.amount)
    → Solvent s
    → Solvent (finish_final cfg p today now s answer).1
finish_final-Solvent cfg p today now s (inl problem) n v = v
finish_final-Solvent cfg p today now s (inr h) n v =
    let site = site_for p.site_id h in
    settle_final-Solvent cfg p today now site h
      (record s { comments = with_site site h s.comments }) (n h refl)
      (record {
        balances = v.balances;
        holds =
            All-assign (λ _ y. NotNegative y.amount) h.ticket_id _ s.comments.holds (n h refl)
              v.holds;
        pools = v.pools;
      })

pub finalize-Solvent :
    (cfg : CoordinatorConfig) (p : FinalizeRequest) (today : Text) (now : Double) (s : Coordinator)
    → Solvent s
    → Solvent (handle_finalize cfg p today now s).1
unfolding handle_finalize
finalize-Solvent cfg p today now s v =
    let done =
      finalize_hold-Concluded s.credits s.comments p.ticket_id p.result now
        (record { balances = v.balances; amounts = v.holds }) in
    finish_final-Solvent cfg p today now _ _ done.amount
      (record { balances = done.both.balances; holds = done.both.amounts; pools = v.pools })
