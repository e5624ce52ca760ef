-- ===== src/AttackMode/Recovery.antt =====
-- The way back to NORMAL from the severe modes and from RECOVERY (packages/attack-mode/src/index.ts).
use decentralized_dns.Prelude.{
  ℕ, ◌≡◌, refl, Bool, true, false, Bool-cases, inl, inr, Option, none, some, List, [], ◌∷◌,
}
use decentralized_dns.Prelude.Doubles.{Double, less_or_equal, truthy, minus, given}
use decentralized_dns.AttackMode.{
  AttackMode, normal, suspicious, recovery, AttackSignals, AttackThresholds, mode_for_score,
  next_mode_for, tally, decide, evaluate_attack_mode,
}

-- The modes that are left only after a stable time.
unfoldable pub watched : AttackMode → Bool
watched normal = false
watched suspicious = false
watched m = true

-- The last stable time that an evaluation remembers, long enough before `now`.
abbrev pub LongStable : AttackThresholds → Option Double → Double → Type 0
LongStable thresholds none now = ⊥
LongStable thresholds (some last) now =
    (truthy last ≡ true) × (less_or_equal thresholds.recovery_stable_secs (minus now last) ≡ true)

-- Evaluations one after the other, each with the mode and the memory that the one before left.
unfoldable pub evaluate_all :
    ℕ → AttackThresholds → AttackMode → Option Double → List (AttackSignals × Double) → AttackMode
evaluate_all unit thresholds mode memory [] = mode
evaluate_all unit thresholds mode memory ((signals, clock) ∷ later) =
    let d = evaluate_attack_mode unit mode signals thresholds memory clock in
    evaluate_all unit thresholds d.next_mode d.last_stable_unix later

-- Evaluations without a disagreement and without a point, each less than `recoveryStableSecs` after
-- the one before it.
abbrev pub CloseTogether : ℕ → AttackThresholds → Double → List (AttackSignals × Double) → Type 0
CloseTogether unit thresholds last [] = Unit {0}
CloseTogether unit thresholds last ((signals, clock) ∷ later) =
    (given signals.rpc_disagreement false ≡ false)
    × ((tally unit signals thresholds).points ≡ 0)
    × (less_or_equal thresholds.recovery_stable_secs (minus (given signals.now_unix clock) last)
        ≡ false)
    × CloseTogether unit thresholds (given signals.now_unix clock) later

stable_step :
    (unit : ℕ) (thresholds : AttackThresholds) (last : Double) (signals : AttackSignals)
    (clock : Double)
    → given signals.rpc_disagreement false ≡ false
    → (tally unit signals thresholds).points ≡ 0
    → less_or_equal thresholds.recovery_stable_secs (minus (given signals.now_unix clock) last)
      ≡ false
    → ((evaluate_attack_mode unit recovery signals thresholds (some last) clock).next_mode
        ≡ recovery)
      × ((evaluate_attack_mode unit recovery signals thresholds (some last) clock).last_stable_unix
          ≡ some (given signals.now_unix clock))
unfolding evaluate_attack_mode decide next_mode_for mode_for_score
stable_step unit thresholds last signals clock d z soon = elim (Bool-cases (truthy last)) [
  | inl e ↦ rw (d, z, e, soon) (refl, refl)
  | inr e ↦ rw (d, z, e) (refl, refl)
]

-- Evaluations without an alarm that follow each other in less than `recoveryStableSecs` never leave
-- RECOVERY, however many they are: the stable time is counted from the evaluation before.
pub evaluate_all-recovery :
    (unit : ℕ) (thresholds : AttackThresholds) (last : Double)
    (steps : List (AttackSignals × Double))
    → CloseTogether unit thresholds last steps
    → evaluate_all unit thresholds recovery (some last) steps ≡ recovery
unfolding evaluate_all
evaluate_all-recovery unit thresholds last [] h = refl
evaluate_all-recovery unit thresholds last ((signals, clock) ∷ later) (d, z, soon, h) =
    let (mode, memory) = stable_step unit thresholds last signals clock d z soon in
    rw (mode, memory) (evaluate_all-recovery unit thresholds (given signals.now_unix clock) later h)
