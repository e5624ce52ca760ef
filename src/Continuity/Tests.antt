-- ===== src/Continuity/Tests.antt =====
-- Runs of the continuity policy, and its properties at a concrete domain.
use decentralized_dns.Prelude.{
  ◌≤◌, ◌≡◌, ◌≢◌, ◌↔◌, ◌⊎◌, refl, true, false, Option, some, [], ℤ, pos, ◌-ℤ◌, Text, codes, text_eq,
  trim, to_lower_case, arith,
}
use decentralized_dns.Prelude.Doubles.{finite}
use decentralized_dns.Continuity.{
  real, b_hard_warning, hold_banner, DomainContinuityPolicyInput, normalize_domain, floor_div,
  days_until, credits_estimate_for, evaluate_domain_continuity_policy,
}
use decentralized_dns.Continuity.Eligible.{evaluate_domain_continuity_policy-eligible}
use decentralized_dns.Continuity.Phases.{severity, severity-evaluate_domain_continuity_policy}

runs : Unit {0}
unfolding text_eq trim to_lower_case ◌-ℤ◌ floor_div days_until normalize_domain credits_estimate_for
    evaluate_domain_continuity_policy
runs = tt

-- A domain whose renewal is due at the time 864000000, ten days after 0.
abbrev ten_days : Text → Option ℤ
ten_days date = some (pos 864000000)

abbrev shop : DomainContinuityPolicyInput
shop = record {
  domain = codes " Shop.COM. ";
  ns_status = true;
  verified_control = false;
  traffic_signal = real;
  credit_balance = finite (pos 5);
  renewal_cost_estimate = finite (pos 11);
  renewal_due_date = some (codes "2026-01-11");
  abuse_flag = false;
}

normalized : normalize_domain (codes " Shop.COM. ") ≡ codes "shop.com"
unfolding runs
normalized = refl

warned : (evaluate_domain_continuity_policy ten_days shop (pos 500000000)).phase ≡ b_hard_warning
unfolding runs
warned = refl

on_hold : (evaluate_domain_continuity_policy ten_days shop (pos 900000000)).phase ≡ hold_banner
unfolding runs
on_hold = refl

evaluate_domain_continuity_policy-eligible_example :
    ((evaluate_domain_continuity_policy ten_days shop (pos 0)).eligible ≡ true) ↔ (
      (normalize_domain shop.domain ≢ [])
      × (shop.abuse_flag ≡ false)
      × ((shop.ns_status ≡ true) ⊎ (shop.verified_control ≡ true)))
evaluate_domain_continuity_policy-eligible_example =
    evaluate_domain_continuity_policy-eligible ten_days shop (pos 0)

severity-evaluate_domain_continuity_policy_example :
    severity (evaluate_domain_continuity_policy ten_days shop (pos 500000000)).phase
    ≤ severity (evaluate_domain_continuity_policy ten_days shop (pos 900000000)).phase
severity-evaluate_domain_continuity_policy_example =
    severity-evaluate_domain_continuity_policy ten_days shop (pos 500000000) (pos 900000000)
      (omega arith)
