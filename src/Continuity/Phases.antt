-- ===== src/Continuity/Phases.antt =====
-- The phases of a domain as time passes (core/src/domain_continuity_policy.ts).
use decentralized_dns.Prelude.{
  ℕ, ◌≤◌, ◌≡◌, ◌↔◌, ◌⊎◌, Bool, true, false, ◌&&◌, Option, none, some, [], ◌∷◌, ℤ, pos, negsuc, ◌-ℤ◌,
  ◌≤ℤ◌, int_laws, Text, if◌then◌else◌, arith,
}
use decentralized_dns.Continuity.{
  real, ContinuityPhase, a_soft_warning, b_hard_warning, hold_banner, c_safe_parked,
  d_registry_finalization, DomainContinuityPolicyInput, is_hold, is_past, floor_div, days_of,
  days_until, base_phase_for, hold_eligible, evaluate_domain_continuity_policy,
}

-- The phases by how far a domain has gone towards losing its service.
unfoldable pub severity : ContinuityPhase → ℕ
severity a_soft_warning = 0
severity b_hard_warning = 1
severity hold_banner = 2
severity c_safe_parked = 2
severity d_registry_finalization = 3

abbrev phase_at : Bool → Option ℤ → ContinuityPhase
phase_at held days = if is_past days && held then hold_banner else base_phase_for days

floor_div_mono : (a b : ℤ) → a ≤ℤ b → floor_div a 86400000 ≤ℤ floor_div b 86400000
unfolding floor_div
floor_div_mono (pos a) (pos b) h = omega arith
floor_div_mono (pos a) (negsuc b) h = absurd (omega arith)
floor_div_mono (negsuc a) (pos b) h = omega arith
floor_div_mono (negsuc a) (negsuc b) h = omega arith

days_of_mono :
    (held : Bool) (ts : Option ℤ) (now later : ℤ)
    → now ≤ℤ later
    → severity (phase_at held (days_of ts now)) ≤ severity (phase_at held (days_of ts later))
unfolding days_of base_phase_for severity
days_of_mono held none now later h = ground arith
days_of_mono held (some ts) now later h =
    let earlier : ts -ℤ later ≤ℤ ts -ℤ now = grind int_laws in
    let fewer = floor_div_mono (ts -ℤ later) (ts -ℤ now) earlier in
    elim held
      as (λ k.
        severity (phase_at k (some (floor_div (ts -ℤ now) 86400000)))
        ≤ severity (phase_at k (some (floor_div (ts -ℤ later) 86400000)))) [
          | true ↦ ground (arith, fewer)
          | false ↦ ground (arith, fewer)
        ]

days_until_mono :
    (parse_date : Text → Option ℤ) (held : Bool) (date : Option Text) (now later : ℤ)
    → now ≤ℤ later
    → severity (phase_at held (days_until parse_date date now))
      ≤ severity (phase_at held (days_until parse_date date later))
unfolding days_until base_phase_for severity
days_until_mono parse_date held none now later h = omega arith
days_until_mono parse_date held (some []) now later h = omega arith
days_until_mono parse_date held (some (c ∷ date)) now later h =
    days_of_mono held (parse_date (c ∷ date)) now later h

hold_iff :
    (held : Bool) (days : Option ℤ)
    → (is_hold (phase_at held days) ≡ true) ↔ ((is_past days ≡ true) × (held ≡ true))
unfolding base_phase_for
hold_iff held none = ground arith
hold_iff held (some d) = ground arith

hold_eligible_iff :
    (input : DomainContinuityPolicyInput)
    → (hold_eligible input ≡ true) ↔ (
        (input.traffic_signal ≡ real)
        × ((input.ns_status ≡ true) ⊎ (input.verified_control ≡ true))
        × (input.abuse_flag ≡ false))
unfolding hold_eligible
hold_eligible_iff input = ground arith

module _ (parse_date : Text → Option ℤ) (input : DomainContinuityPolicyInput) where
  -- As time passes, a domain never returns to a milder phase.
  pub severity-evaluate_domain_continuity_policy :
      (now_ms later_ms : ℤ)
      → now_ms ≤ℤ later_ms
      → severity (evaluate_domain_continuity_policy parse_date input now_ms).phase
        ≤ severity (evaluate_domain_continuity_policy parse_date input later_ms).phase
  unfolding evaluate_domain_continuity_policy
  severity-evaluate_domain_continuity_policy now_ms later_ms h =
      days_until_mono parse_date (hold_eligible input) input.renewal_due_date now_ms later_ms h

  -- The hold banner is up exactly when the renewal date is past, the traffic is real, the domain has
  -- a control path and no abuse is flagged.
  pub evaluate_domain_continuity_policy-hold :
      (now_ms : ℤ)
      → ((evaluate_domain_continuity_policy parse_date input now_ms).hold_banner_active ≡ true) ↔ (
          (is_past (days_until parse_date input.renewal_due_date now_ms) ≡ true)
          × (input.traffic_signal ≡ real)
          × ((input.ns_status ≡ true) ⊎ (input.verified_control ≡ true))
          × (input.abuse_flag ≡ false))
  unfolding evaluate_domain_continuity_policy
  evaluate_domain_continuity_policy-hold now_ms =
      let banner =
        hold_iff (hold_eligible input) (days_until parse_date input.renewal_due_date now_ms) in
      let held = hold_eligible_iff input in
      (
        (λ e.
            let (past, able) = banner.0 e in
            let (busy, control, clean) = held.0 able in (past, busy, control, clean)),
        (λ (past, busy, control, clean). banner.1 (past, held.1 (busy, control, clean))),
      )
