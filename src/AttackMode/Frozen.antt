-- ===== src/AttackMode/Frozen.antt =====
-- When an evaluation leaves the writes frozen, and what its score says (packages/attack-mode/src/index.ts).
use decentralized_dns.Prelude.{
  ℕ, suc, ◌≡◌, ◌≤◌, ◌↔◌, refl, Bool, true, false, if_both, Option, List, [], ◌∷◌, ◌++◌, arith,
}
use decentralized_dns.Prelude.Doubles.{Double, given}
use decentralized_dns.AttackMode.{
  AttackMode, AttackSignals, AttackThresholds, Reason, Tally, policy_for_mode, add_if, tally,
  AttackModeDecision, decide, evaluate_attack_mode,
}

abbrev pub frozen : AttackMode → Bool
frozen m = (policy_for_mode m).freeze_writes

snoc-ne : (rs : List Reason) (r : Reason) → rs ++ (r ∷ []) ≡ [] → ⊥
snoc-ne [] r e = cc
snoc-ne (x ∷ rs) r e = cc

-- No points without a reason, and no reason without points.
record Balanced (t : Tally) : Type 0 where
  points_iff : (t.points ≡ 0) ↔ (t.reasons ≡ [])

add_if-Balanced :
    (b : Bool) (n : ℕ) (r : Reason) (t : Tally) → Balanced t → Balanced (add_if b (suc n) r t)
unfolding add_if
add_if-Balanced false n r t h = h
add_if-Balanced true n r t h = record {
  points_iff = (λ e. absurd (omega arith), λ e. absurd (snoc-ne t.reasons r e));
}

module _ (unit : ℕ) (prev : AttackMode) (signals : AttackSignals)
    (thresholds : AttackThresholds) where
  tally-Balanced : Balanced (tally unit signals thresholds)
  unfolding tally
  tally-Balanced = add_if-Balanced _ _ _ _ (
      add_if-Balanced _ _ _ _ (
        add_if-Balanced _ _ _ _ (
          add_if-Balanced _ _ _ _
            (add_if-Balanced _ _ _ _ (record { points_iff = (λ e. refl, λ e. refl) })))))

  -- A decision scores at most 100, and it scores 0 exactly when it gives no reason.
  pub score-evaluate_attack_mode :
      (memory : Option Double) (clock : Double)
      → ((evaluate_attack_mode unit prev signals thresholds memory clock).score ≤ 100)
        × (((evaluate_attack_mode unit prev signals thresholds memory clock).score ≡ 0)
            ↔ ((evaluate_attack_mode unit prev signals thresholds memory clock).reasons ≡ []))
  unfolding evaluate_attack_mode decide
  score-evaluate_attack_mode memory clock =
      let law = tally-Balanced.points_iff in
      if_both (λ (d : AttackModeDecision). (d.score ≤ 100) × ((d.score ≡ 0) ↔ (d.reasons ≡ [])))
        (given signals.rpc_disagreement false) (omega arith, (λ e. absurd (omega arith), λ e. cc))
        (omega arith, (λ e. law.0 (omega arith), λ e. omega (arith, law.1 e)))
