-- ===== src/AttackMode/Tests.antt =====
-- Runs of the attack modes, and the properties of AttackMode at concrete signals.
use decentralized_dns.Prelude.{
  ℕ, ◌≡◌, ◌≢◌, ◌≤◌, ◌<◌, ◌↔◌, ◌⊎◌, refl, true, some, none, List, [], ◌∷◌, length, ◌-ℤ◌, pos, Text,
  codes, text_eq,
}
use decentralized_dns.Prelude.Doubles.{Double, nan, finite}
use decentralized_dns.AttackMode.{
  default_thresholds_from_env, num, normal, under_attack, recovery, AttackSignals, AttackThresholds,
  policy_for_mode, clamp_pct, add_if, tally, evaluate_attack_mode,
}
use decentralized_dns.AttackMode.Recovery.{
  watched, evaluate_all, CloseTogether, evaluate_all-recovery,
}
use decentralized_dns.AttackMode.Quorum.{
  Evidence, RpcReply, failed, answered, Group, agreed, refused, bad, good, fetch_account_multi_rpc,
  group_replies, join_group, pick_best, evidence_of,
}
use decentralized_dns.AttackMode.Quorum.Groups.{votes}
use decentralized_dns.AttackMode.Quorum.Agreement.{
  fetch_account_multi_rpc-agreed, fetch_account_multi_rpc-refused,
}

runs : Unit {0}
unfolding evaluate_attack_mode policy_for_mode clamp_pct add_if tally watched evaluate_all
    fetch_account_multi_rpc group_replies join_group pick_best evidence_of text_eq votes ◌-ℤ◌
runs = tt

abbrev number : ℕ → Double
number n = finite (pos n)

-- The default thresholds.
abbrev defaults : AttackThresholds
defaults = record {
  rpc_fail_pct_suspicious = number 30;
  invalid_receipt_pct_under_attack = number 5;
  invalid_receipt_min_sample = number 500;
  canonical_flip_limit = number 2;
  recovery_stable_secs = number 600;
}

abbrev quiet : ℕ → AttackSignals
quiet now = record {
  rpc_fail_pct = none;
  rpc_disagreement = none;
  invalid_receipt_pct = none;
  receipt_sample_size = none;
  canonical_flip_count = none;
  ipfs_fail_pct = none;
  gateway_error_pct = none;
  now_unix = some (number now);
}

abbrev ipfs_down : ℕ → AttackSignals
ipfs_down now = record (quiet now) { ipfs_fail_pct = some (number 80) }

abbrev bad_receipts : AttackSignals
bad_receipts = record (quiet 1000) {
  invalid_receipt_pct = some (number 10);
  receipt_sample_size = some (number 1000);
}

enters_attack :
    (evaluate_attack_mode 1 normal bad_receipts defaults none (number 0)).next_mode ≡ under_attack
unfolding runs
enters_attack = refl

-- A calm of one evaluation, an alarm, and a calm 600 seconds after the first end the recovery.
alarm_within_recovery :
    evaluate_all 1 defaults recovery
      (some (number 1000))
      ((ipfs_down 1300, number 0) ∷ (quiet 1600, number 0) ∷ [])
    ≡ normal
unfolding runs
alarm_within_recovery = refl

abbrev polls : List (AttackSignals × Double)
polls = (quiet 1300, number 0) ∷ (quiet 1600, number 0) ∷ (quiet 1900, number 0) ∷ []

polls-CloseTogether : CloseTogether 1 defaults (number 1000) polls
unfolding runs
polls-CloseTogether = (refl, refl, refl, (refl, refl, refl, (refl, refl, refl, tt)))

evaluate_all-recovery_example :
    evaluate_all 1 defaults recovery (some (number 1000)) polls ≡ recovery
evaluate_all-recovery_example =
    evaluate_all-recovery 1 defaults (number 1000) polls polls-CloseTogether

abbrev same_text : Text → Text
same_text t = t

abbrev servers : List RpcReply
servers =
    answered (codes "a") (number 7) (codes "old")
    ∷ answered (codes "b") (number 8) (codes "new")
    ∷ failed (codes "c") (codes "http_500")
    ∷ answered (codes "d") (number 9) (codes "new")
    ∷ []

abbrev new_group : Group
new_group = record {
  hash = codes "new";
  urls = codes "b" ∷ codes "d" ∷ [];
  slot = number 8;
  data_base64 = codes "new";
}

servers_agree : fetch_account_multi_rpc same_text servers 2 ≡ agreed new_group
unfolding runs
servers_agree = refl

fetch_account_multi_rpc-agreed_example :
    (new_group.urls ≡ votes same_text new_group.hash servers)
    × (same_text new_group.data_base64 ≡ new_group.hash)
    × (2 ≤ length new_group.urls)
    × ((h : Text) → length (votes same_text h servers) ≤ length new_group.urls)
fetch_account_multi_rpc-agreed_example =
    fetch_account_multi_rpc-agreed same_text servers 2 new_group servers_agree

abbrev evidence : List Evidence
evidence =
    good (codes "a") (number 7) (codes "old")
    ∷ good (codes "b") (number 8) (codes "new")
    ∷ bad (codes "c") (codes "http_500")
    ∷ good (codes "d") (number 9) (codes "new")
    ∷ []

servers_refuse : fetch_account_multi_rpc same_text servers 3 ≡ refused evidence true
unfolding runs
servers_refuse = refl

fetch_account_multi_rpc-refused_example :
    ((h : Text) → (votes same_text h servers ≡ []) ⊎ (length (votes same_text h servers) < 3))
    × ((true ≡ true) ↔ (
        (h : Text) × (k : Text) × (h ≢ k)
        × (votes same_text h servers ≢ [])
        × (votes same_text k servers ≢ [])))
fetch_account_multi_rpc-refused_example =
    fetch_account_multi_rpc-refused same_text servers 3 evidence true servers_refuse

-- An environment without the variables gives the default thresholds.
env_defaults :
    default_thresholds_from_env 1 (record {
      rpc_fail_pct = nan;
      invalid_receipt_pct = nan;
      invalid_receipt_min_sample = nan;
      canonical_flip_limit = nan;
      recovery_stable_secs = nan;
    })
    ≡ defaults
unfolding default_thresholds_from_env num
env_defaults = refl
