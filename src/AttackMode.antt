-- ===== src/AttackMode.antt =====
-- packages/attack-mode/src/index.ts: the attack modes, their policies, and the evaluation that moves
-- from one mode to the next. `unit` is the number of units in 1, so 50 percent is 50 * unit units.
pub mod Frozen
pub mod Recovery
pub mod Quorum
mod Tests
use decentralized_dns.Prelude.{
  ℕ, ◌+◌, ◌*◌, min, Bool, true, false, ◌&&◌, not, Option, some, none, List, [], ◌∷◌, ◌++◌, leb, ltb,
  ◌==◌, ℤ, pos, if◌then◌else◌,
}
use decentralized_dns.Prelude.Doubles.{
  Double, finite, less, less_or_equal, is_finite, truthy, minus, given,
}

pub data AttackMode : Type 0 where
  normal suspicious under_attack isolated recovery : AttackMode

pub record AttackSignals : Type 0 where
  pub rpc_fail_pct : Option Double
  pub rpc_disagreement : Option Bool
  pub invalid_receipt_pct : Option Double
  pub receipt_sample_size : Option Double
  pub canonical_flip_count : Option Double
  pub ipfs_fail_pct : Option Double
  pub gateway_error_pct : Option Double
  pub now_unix : Option Double

pub record AttackPolicy : Type 0 where
  pub min_rpc_quorum : ℕ
  pub require_stake_for_receipts : Bool
  pub max_receipts_per_wallet_per_min : ℕ
  pub max_writes_per_wallet_per_hour : ℕ
  pub freeze_writes : Bool
  pub ttl_clamp_s : ℕ

pub record AttackThresholds : Type 0 where
  pub rpc_fail_pct_suspicious : Double
  pub invalid_receipt_pct_under_attack : Double
  pub invalid_receipt_min_sample : Double
  pub canonical_flip_limit : Double
  pub recovery_stable_secs : Double

-- The texts of the reasons, by the numbers that they print.
pub data Reason : Type 0 where
  rpc_disagreement_seen ipfs_fail_pct_above_50 gateway_error_pct_above_20 : Reason
  rpc_fail_pct_above canonical_flips_above : Double → Reason
  invalid_receipt_pct_above : (limit sample : Double) → Reason

-- The decision with the memory for the next evaluation, `lastStableUnix`.
pub record AttackModeDecision : Type 0 where
  pub next_mode : AttackMode
  pub score : ℕ
  pub reasons : List Reason
  pub last_stable_unix : Option Double

unfoldable pub policy_for_mode : AttackMode → AttackPolicy
policy_for_mode normal = record {
  min_rpc_quorum = 1;
  require_stake_for_receipts = false;
  max_receipts_per_wallet_per_min = 120;
  max_writes_per_wallet_per_hour = 30;
  freeze_writes = false;
  ttl_clamp_s = 0;
}
policy_for_mode suspicious = record {
  min_rpc_quorum = 2;
  require_stake_for_receipts = false;
  max_receipts_per_wallet_per_min = 60;
  max_writes_per_wallet_per_hour = 10;
  freeze_writes = false;
  ttl_clamp_s = 300;
}
policy_for_mode under_attack = record {
  min_rpc_quorum = 3;
  require_stake_for_receipts = true;
  max_receipts_per_wallet_per_min = 20;
  max_writes_per_wallet_per_hour = 0;
  freeze_writes = true;
  ttl_clamp_s = 60;
}
policy_for_mode isolated = record {
  min_rpc_quorum = 2;
  require_stake_for_receipts = true;
  max_receipts_per_wallet_per_min = 10;
  max_writes_per_wallet_per_hour = 0;
  freeze_writes = true;
  ttl_clamp_s = 60;
}
policy_for_mode recovery = record {
  min_rpc_quorum = 2;
  require_stake_for_receipts = false;
  max_receipts_per_wallet_per_min = 60;
  max_writes_per_wallet_per_hour = 10;
  freeze_writes = false;
  ttl_clamp_s = 300;
}

-- `num`: the number that `Number(v)` read, or the default where it is not finite.
unfoldable pub num : Double → ℤ → Double
num n default = if is_finite n then n else finite default

-- The five variables of the environment, as the numbers that `Number` reads from them (NaN for one
-- that is not set).
pub record AttackEnv : Type 0 where
  pub rpc_fail_pct : Double
  pub invalid_receipt_pct : Double
  pub invalid_receipt_min_sample : Double
  pub canonical_flip_limit : Double
  pub recovery_stable_secs : Double

unfoldable pub default_thresholds_from_env : ℕ → AttackEnv → AttackThresholds
default_thresholds_from_env unit env = record {
  rpc_fail_pct_suspicious = num env.rpc_fail_pct (pos (30 * unit));
  invalid_receipt_pct_under_attack = num env.invalid_receipt_pct (pos (5 * unit));
  invalid_receipt_min_sample = num env.invalid_receipt_min_sample (pos (500 * unit));
  canonical_flip_limit = num env.canonical_flip_limit (pos (2 * unit));
  recovery_stable_secs = num env.recovery_stable_secs (pos (600 * unit));
}

-- The score and the reasons so far.
pub record Tally : Type 0 where
  pub points : ℕ
  pub reasons : List Reason

-- `if (test) { score += points; reasons.push(reason); }`
unfoldable pub add_if : Bool → ℕ → Reason → Tally → Tally
add_if false points reason t = t
add_if true points reason t = record {
  points = t.points + points;
  reasons = t.reasons ++ (reason ∷ []);
}

-- The mode that the score alone gives.
unfoldable pub mode_for_score : ℕ → AttackMode → AttackMode
mode_for_score score otherwise =
    if leb 60 score then under_attack else if leb 20 score then suspicious else otherwise

-- `memory.lastStableUnix` as a condition.
abbrev pub remembered : Option Double → Bool
remembered none = false
remembered (some t) = truthy t

-- `isStable && memory.lastStableUnix ? now - memory.lastStableUnix : 0`
abbrev pub stable_for : Bool → Option Double → Double → Double
stable_for true (some last) now = if truthy last then minus now last else finite (pos 0)
stable_for _ _ now = finite (pos 0)

-- Leaving the severe modes: `long` says that the stable time reaches `recoveryStableSecs`.
unfoldable pub leave_severe : AttackMode → Bool → Bool → Bool → AttackMode
leave_severe prev true last_known long =
    if not last_known then recovery else if long then normal else recovery
leave_severe isolated false last_known long = isolated
leave_severe prev false last_known long = under_attack

-- The transition logic.
unfoldable pub next_mode_for : AttackMode → ℕ → Bool → Bool → AttackMode
unfolding mode_for_score leave_severe
next_mode_for under_attack score last_known long =
    leave_severe under_attack (score == 0) last_known long
next_mode_for isolated score last_known long = leave_severe isolated (score == 0) last_known long
next_mode_for recovery score last_known long =
    if (score == 0) && last_known && long then normal else mode_for_score score recovery
next_mode_for prev score last_known long = mode_for_score score normal

module _ (unit : ℕ) where
  unfoldable pub clamp_pct : Double → Double
  clamp_pct (finite v) =
      if less (finite v) (finite (pos 0))
      then finite (pos 0)
      else if less (finite (pos (100 * unit))) (finite v)
      then finite (pos (100 * unit))
      else finite v
  clamp_pct _ = finite (pos 0)

  abbrev pub pct : Option Double → Double
  pct v = clamp_pct (given v (finite (pos 0)))

  -- The five tests in the order of the code.
  unfoldable pub tally : AttackSignals → AttackThresholds → Tally
  tally signals thresholds =
      let none_yet : Tally = record { points = 0; reasons = [] } in
      let sample = given signals.receipt_sample_size (finite (pos 0)) in
      let after_rpc =
        add_if (less thresholds.rpc_fail_pct_suspicious (pct signals.rpc_fail_pct)) 30
          (rpc_fail_pct_above thresholds.rpc_fail_pct_suspicious) none_yet in
      let after_receipts =
        add_if
          (less_or_equal thresholds.invalid_receipt_min_sample sample
            && less thresholds.invalid_receipt_pct_under_attack (pct signals.invalid_receipt_pct))
          70 (invalid_receipt_pct_above thresholds.invalid_receipt_pct_under_attack sample)
          after_rpc in
      let after_flips =
        add_if
          (less thresholds.canonical_flip_limit
            (given signals.canonical_flip_count (finite (pos 0))))
          40 (canonical_flips_above thresholds.canonical_flip_limit) after_receipts in
      let after_ipfs =
        add_if (less (finite (pos (50 * unit))) (pct signals.ipfs_fail_pct)) 10
          ipfs_fail_pct_above_50 after_flips in
      add_if (less (finite (pos (20 * unit))) (pct signals.gateway_error_pct)) 10
        gateway_error_pct_above_20 after_ipfs

  -- The evaluation without disagreement, at the time `now`.
  unfoldable pub decide :
      AttackMode → AttackSignals → AttackThresholds → Option Double → Double → AttackModeDecision
  unfolding tally next_mode_for
  decide prev signals thresholds memory now =
      let counted = tally signals thresholds in
      let score = min 100 counted.points in
      let is_stable = score == 0 in
      let long = less_or_equal thresholds.recovery_stable_secs (stable_for is_stable memory now) in
      record {
        next_mode = next_mode_for prev score (remembered memory) long;
        score = score;
        reasons = counted.reasons;
        last_stable_unix = if is_stable then some now else memory;
      }

  -- `evaluateAttackMode`; `clock` is the time that the system clock shows.
  unfoldable pub evaluate_attack_mode :
      AttackMode → AttackSignals → AttackThresholds → Option Double → Double → AttackModeDecision
  unfolding decide
  evaluate_attack_mode prev signals thresholds memory clock =
      if given signals.rpc_disagreement false
      then record {
        next_mode = isolated;
        score = 100;
        reasons = rpc_disagreement_seen ∷ [];
        last_stable_unix = none;
      }
      else decide prev signals thresholds memory (given signals.now_unix clock)
