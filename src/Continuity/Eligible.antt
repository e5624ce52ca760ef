-- ===== src/Continuity/Eligible.antt =====
-- When a domain is eligible for protection (core/src/domain_continuity_policy.ts).
use decentralized_dns.Prelude.{
  ◌≡◌, ◌≢◌, ◌↔◌, ◌⊎◌, inl, inr, refl, ◌∙◌, text_eq_refl, Bool, true, false, ◌&&◌, ◌||◌, not,
  Bool-cases, Option, List, [], ◌∷◌, ◌++◌, ℤ, Text, codes, text_eq, arith,
}
use decentralized_dns.Continuity.{
  DomainContinuityPolicyInput, is_none, is_empty, is_past, push_if, includes, all_reasons,
  hold_eligible, normalize_domain, days_until, evaluate_domain_continuity_policy,
}

or_false : (b : Bool) → (b || false) ≡ b
or_false true = refl
or_false false = refl

includes_end :
    (rest : List Text) (code wanted : Text)
    → includes (rest ++ (code ∷ [])) wanted ≡ (includes rest wanted || text_eq code wanted)
unfolding includes
includes_end [] code wanted = elim (Bool-cases (text_eq code wanted)) [
  | inl e ↦ rw e
  | inr e ↦ rw e
]
includes_end (c ∷ rest) code wanted = elim (Bool-cases (text_eq c wanted)) [
  | inl e ↦ rw e
  | inr e ↦ rw e (includes_end rest code wanted)
]

-- Another code changes nothing, and the code itself is there if its test holds.
includes_other :
    (b : Bool) (code wanted : Text) (so_far : List Text)
    → text_eq code wanted ≡ false
    → includes (push_if b code so_far) wanted ≡ includes so_far wanted
includes_other false code wanted so_far e = refl
includes_other true code wanted so_far e =
    rw (includes_end so_far code wanted, e) (or_false (includes so_far wanted))

includes_own :
    (b : Bool) (code : Text) (so_far : List Text)
    → includes so_far code ≡ false
    → includes (push_if b code so_far) code ≡ b
includes_own false code so_far e = e
includes_own true code so_far e = rw (includes_end so_far code code, e, text_eq_refl code)

-- The three codes that exclude a domain, each with its test.
module _ (domain : Text) (input : DomainContinuityPolicyInput) (on_hold : Bool) where
  abbrev uncontrolled : Bool
  uncontrolled = not input.ns_status && not input.verified_control

  -- The codes that come after the three are others.
  last_two :
      (wanted : Text) (so_far : List Text)
      → text_eq (codes "NO_TRAFFIC_SIGNAL") wanted ≡ false
      → text_eq (codes "TRAFFIC_HOLD_ELIGIBLE") wanted ≡ false
      → includes
          (push_if on_hold
            (codes "TRAFFIC_HOLD_ELIGIBLE")
            (push_if (is_none input.traffic_signal) (codes "NO_TRAFFIC_SIGNAL") so_far))
          wanted
        ≡ includes so_far wanted
  last_two wanted so_far p q =
      includes_other on_hold (codes "TRAFFIC_HOLD_ELIGIBLE") wanted
        (push_if (is_none input.traffic_signal) (codes "NO_TRAFFIC_SIGNAL") so_far) q
      ∙ includes_other (is_none input.traffic_signal) (codes "NO_TRAFFIC_SIGNAL") wanted so_far p

  abbrev first : List Text
  first = push_if (is_empty domain) (codes "INVALID_DOMAIN") []

  abbrev second : List Text
  second = push_if input.abuse_flag (codes "ABUSE_FLAGGED") first

  includes-all_reasons :
      (includes (all_reasons domain input on_hold) (codes "INVALID_DOMAIN") ≡ is_empty domain)
      × (includes (all_reasons domain input on_hold) (codes "ABUSE_FLAGGED") ≡ input.abuse_flag)
      × (includes (all_reasons domain input on_hold) (codes "NO_CONTROL_PATH") ≡ uncontrolled)
  unfolding all_reasons text_eq includes
  includes-all_reasons = (
    last_two (codes "INVALID_DOMAIN") (push_if uncontrolled (codes "NO_CONTROL_PATH") second) refl
          refl
        ∙ includes_other uncontrolled (codes "NO_CONTROL_PATH") (codes "INVALID_DOMAIN") second refl
        ∙ includes_other input.abuse_flag (codes "ABUSE_FLAGGED") (codes "INVALID_DOMAIN") first
            refl
        ∙ includes_own (is_empty domain) (codes "INVALID_DOMAIN") [] refl,
    last_two (codes "ABUSE_FLAGGED") (push_if uncontrolled (codes "NO_CONTROL_PATH") second) refl
          refl
        ∙ includes_other uncontrolled (codes "NO_CONTROL_PATH") (codes "ABUSE_FLAGGED") second refl
        ∙ includes_own input.abuse_flag (codes "ABUSE_FLAGGED") first (
            includes_other (is_empty domain) (codes "INVALID_DOMAIN") (codes "ABUSE_FLAGGED") []
              refl),
    last_two (codes "NO_CONTROL_PATH") (push_if uncontrolled (codes "NO_CONTROL_PATH") second) refl
          refl
        ∙ includes_own uncontrolled (codes "NO_CONTROL_PATH") second (
            includes_other input.abuse_flag (codes "ABUSE_FLAGGED") (codes "NO_CONTROL_PATH") first
              refl
            ∙ includes_other (is_empty domain) (codes "INVALID_DOMAIN") (codes "NO_CONTROL_PATH") []
                refl),
  )

allowed_iff :
    (domain : Text) (abuse ns verified : Bool)
    → ((not (is_empty domain) && not abuse && not (not ns && not verified)) ≡ true)
      ↔ ((domain ≢ []) × (abuse ≡ false) × ((ns ≡ true) ⊎ (verified ≡ true)))
allowed_iff [] abuse ns verified = (λ e. cc, λ (ne, p, q). absurd (ne refl))
allowed_iff (c ∷ domain) abuse ns verified =
    (λ e. (λ f. cc, ground arith, ground arith), λ (ne, p, q). ground arith)

-- A domain is eligible exactly when its normalized name is not empty, no abuse is flagged, and it
-- has a control path: its name servers point here or its ownership is verified.
pub evaluate_domain_continuity_policy-eligible :
    (parse_date : Text → Option ℤ) (input : DomainContinuityPolicyInput) (now_ms : ℤ)
    → ((evaluate_domain_continuity_policy parse_date input now_ms).eligible ≡ true) ↔ (
        (normalize_domain input.domain ≢ [])
        × (input.abuse_flag ≡ false)
        × ((input.ns_status ≡ true) ⊎ (input.verified_control ≡ true)))
unfolding evaluate_domain_continuity_policy
evaluate_domain_continuity_policy-eligible parse_date input now_ms =
    let (invalid, abuse, control) =
      includes-all_reasons (normalize_domain input.domain) input
        (is_past (days_until parse_date input.renewal_due_date now_ms) && hold_eligible input) in
    rw (invalid, abuse, control)
      (allowed_iff (normalize_domain input.domain) input.abuse_flag input.ns_status
        input.verified_control)
