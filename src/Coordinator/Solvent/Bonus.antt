-- ===== src/Coordinator/Solvent/Bonus.antt =====
-- The bonus of POST /comments/finalize (coordinator/src/server.ts) keeps the credits solvent.
use decentralized_dns.Prelude.{
  ◌≡◌, refl, true, false, inl, inr, Text, Bool-cases, arith, pos, negsuc,
}
use decentralized_dns.Prelude.Doubles.{
  Double, finite, nan, infinity, neg_infinity, less, less_or_equal,
}
use decentralized_dns.Coordinator.Handlers.{Coordinator, CoordinatorConfig, zero_credits, apply_cap}
use decentralized_dns.Coordinator.Handlers.Finalize.{pool_of, pay_bonus, give_bonus}
use decentralized_dns.Coordinator.Solvent.{
  NotNegative, Solvent, pool_of-NotNegative, minus-NotNegative, set-Balances, given-Balances,
}

not_less : (a b : Double) → less_or_equal a b ≡ true → less b a ≡ false
not_less (finite a) (finite b) h = ground arith
not_less (finite a) infinity h = refl
not_less (finite a) neg_infinity h = cc
not_less (finite a) nan h = cc
not_less infinity infinity h = refl
not_less infinity (finite b) h = cc
not_less infinity neg_infinity h = cc
not_less infinity nan h = cc
not_less neg_infinity (finite b) h = refl
not_less neg_infinity infinity h = refl
not_less neg_infinity neg_infinity h = refl
not_less neg_infinity nan h = cc
not_less nan b h = cc

NotNegative-of_above : (d : Double) → less zero_credits d ≡ true → NotNegative d
NotNegative-of_above (finite (pos n)) h = ground arith
NotNegative-of_above (finite (negsuc n)) h = absurd (ground arith)
NotNegative-of_above infinity h = refl
NotNegative-of_above neg_infinity h = cc
NotNegative-of_above nan h = cc

pay_bonus-Solvent :
    (wallet site : Text) (bonus : Double) (s : Coordinator)
    → less zero_credits bonus ≡ true
    → Solvent s
    → Solvent (pay_bonus wallet site bonus s)
unfolding pay_bonus
pay_bonus-Solvent wallet site bonus s p v =
    elim (Bool-cases (less_or_equal bonus (pool_of s site))) [
      | inl covers ↦
          let pool = pool_of-NotNegative s site v.pools in
          let n = NotNegative-of_above bonus p in
          rw covers (record {
            balances = given-Balances s.credits wallet bonus v.balances n;
            holds = v.holds;
            pools =
                set-Balances site _ s.site_pools
                  (minus-NotNegative _ bonus pool (not_less bonus _ covers)) v.pools;
          })
      | inr short ↦ rw short v
    ]

pub give_bonus-Solvent :
    (cfg : CoordinatorConfig) (today wallet site : Text) (bonus : Double) (s : Coordinator)
    → Solvent s
    → Solvent (give_bonus cfg today wallet site bonus s).1
unfolding give_bonus
give_bonus-Solvent cfg today wallet site bonus s v =
    let capped = apply_cap cfg.bonus_daily_cap today wallet bonus s.bonus_windows in
    let counted : Coordinator = record s { bonus_windows = capped.1 } in
    let v' : Solvent counted = record { balances = v.balances; holds = v.holds; pools = v.pools } in
    elim (Bool-cases (less zero_credits bonus)) [
      | inr no_bonus ↦ rw no_bonus v
      | inl some_bonus ↦ elim (Bool-cases capped.0) [
        | inr over ↦ rw (some_bonus, over) v'
        | inl below ↦
            rw (some_bonus, below) (pay_bonus-Solvent wallet site bonus counted some_bonus v')
      ]
    ]
