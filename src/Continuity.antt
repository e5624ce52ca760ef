-- ===== src/Continuity.antt =====
-- core/src/domain_continuity_policy.ts: the phase of a domain whose renewal is due. `parse_date` stands
-- for `Date.parse`, `none` for NaN; times are whole milliseconds.
pub mod Eligible
pub mod Phases
mod Tests
use decentralized_dns.Prelude.{
  ℕ, ◌/◌, Bool, true, false, ◌&&◌, ◌||◌, not, Option, none, some, List, [], ◌∷◌, ◌++◌, reverse,
  ◌==◌, ℤ, pos, negsuc, ◌-ℤ◌, leb_ℤ, ltb_ℤ, Text, codes, text_eq, trim, to_lower_case,
  if◌then◌else◌,
}
use decentralized_dns.Prelude.Doubles.{Double, finite, truthy, less_or_equal}

pub data TrafficSignal : Type 0 where
  no_traffic low real : TrafficSignal

pub data ContinuityPhase : Type 0 where
  a_soft_warning b_hard_warning hold_banner c_safe_parked d_registry_finalization : ContinuityPhase

-- The two fields that the policy never reads, `seo_value_signal` and `last_seen_at`, are left out.
pub record DomainContinuityPolicyInput : Type 0 where
  pub domain : Text
  pub ns_status : Bool
  pub verified_control : Bool
  pub traffic_signal : TrafficSignal
  pub credit_balance : Double
  pub renewal_cost_estimate : Double
  pub renewal_due_date : Option Text
  pub abuse_flag : Bool

pub record DomainContinuityPolicyOutput : Type 0 where
  pub eligible : Bool
  pub phase : ContinuityPhase
  pub hold_banner_active : Bool
  pub reason_codes : List Text
  pub next_steps : List Text
  pub credits_estimate : ℕ
  pub renewal_covered_by_credits : Bool

abbrev pub day_ms : ℕ
day_ms = 86400000

-- `Math.floor` of a quotient
unfoldable pub floor_div : ℤ → ℕ → ℤ
floor_div (pos n) d = pos (n / d)
floor_div (negsuc n) d = negsuc (n / d)

-- `.replace(/\.$/, "")`
abbrev pub drop_first_dot : Text → Text
drop_first_dot [] = []
drop_first_dot (c ∷ s) = if c == 46 then s else c ∷ s

unfoldable pub normalize_domain : Text → Text
normalize_domain value = reverse (drop_first_dot (reverse (to_lower_case (trim value))))

-- The days until the time that the date was read as.
unfoldable pub days_of : Option ℤ → ℤ → Option ℤ
days_of none now_ms = none
days_of (some ts) now_ms = some (floor_div (ts -ℤ now_ms) day_ms)

unfoldable pub days_until : (Text → Option ℤ) → Option Text → ℤ → Option ℤ
unfolding days_of
days_until parse_date none now_ms = none
days_until parse_date (some []) now_ms = none
days_until parse_date (some (c ∷ date)) now_ms = days_of (parse_date (c ∷ date)) now_ms

unfoldable pub base_phase_for : Option ℤ → ContinuityPhase
base_phase_for none = a_soft_warning
base_phase_for (some days) =
    if leb_ℤ (pos 7) days
    then a_soft_warning
    else if leb_ℤ (pos 0) days
    then b_hard_warning
    else if leb_ℤ (negsuc 29) days
    then c_safe_parked
    else d_registry_finalization

abbrev pub is_real : TrafficSignal → Bool
is_real real = true
is_real _ = false

abbrev pub is_none : TrafficSignal → Bool
is_none no_traffic = true
is_none _ = false

unfoldable pub credits_estimate_for : TrafficSignal → Bool → Bool → ℕ
credits_estimate_for _ false false = 0
credits_estimate_for real ns_status verified = 40
credits_estimate_for low ns_status verified = 15
credits_estimate_for no_traffic ns_status verified = 5

abbrev pub is_past : Option ℤ → Bool
is_past none = false
is_past (some days) = ltb_ℤ days (pos 0)

abbrev pub is_empty : Text → Bool
is_empty [] = true
is_empty (c ∷ s) = false

unfoldable pub hold_eligible : DomainContinuityPolicyInput → Bool
hold_eligible input =
    is_real input.traffic_signal
    && (input.ns_status || input.verified_control)
    && not input.abuse_flag

-- `if (test) reasonCodes.push(code)` and the same for the next steps
abbrev pub push_if : Bool → Text → List Text → List Text
push_if test code codes_so_far = if test then codes_so_far ++ (code ∷ []) else codes_so_far

-- `list.includes(code)`
unfoldable pub includes : List Text → Text → Bool
includes [] code = false
includes (c ∷ rest) code = if text_eq c code then true else includes rest code

-- `[...new Set(list)]`, with the texts that were seen before
unfoldable pub unique_after : List Text → List Text → List Text
unfolding includes
unique_after seen [] = []
unique_after seen (c ∷ rest) =
    let later = unique_after (c ∷ seen) rest in if includes seen c then later else c ∷ later

unfoldable pub all_reasons : Text → DomainContinuityPolicyInput → Bool → List Text
all_reasons domain input on_hold = push_if on_hold (codes "TRAFFIC_HOLD_ELIGIBLE") (
    push_if (is_none input.traffic_signal) (codes "NO_TRAFFIC_SIGNAL") (
      push_if (not input.ns_status && not input.verified_control) (codes "NO_CONTROL_PATH") (
        push_if input.abuse_flag (codes "ABUSE_FLAGGED")
          (push_if (is_empty domain) (codes "INVALID_DOMAIN") []))))

-- The advice on the renewal, by the hold and the credits.
abbrev pub renewal_step : Bool → Bool → Text
renewal_step true true =
    codes "Renew now to exit traffic-based hold; credits can fully cover the renewal"
renewal_step true false =
    codes "Renew now to exit traffic-based hold using available credits + fallback payment method"
renewal_step false true = codes "Renewal can be fully covered by credits"
renewal_step false false = codes "Renew with available credits + fallback payment method"

abbrev pub phase_steps : ContinuityPhase → List Text
phase_steps b_hard_warning = codes "Renew soon to avoid hold/banner or parked mode" ∷ []
phase_steps c_safe_parked = codes "Renew during grace window to restore full serving" ∷ []
phase_steps d_registry_finalization =
    codes "Registry finalization window reached; immediate manual renewal required" ∷ []
phase_steps _ = []

unfoldable pub all_steps :
    Text → DomainContinuityPolicyInput → Bool → Bool → ContinuityPhase → List Text
all_steps domain input on_hold covered phase =
    push_if on_hold
      (codes "Traffic-based hold active: keep service online while renewal is pending")
      (push_if (is_none input.traffic_signal)
        (codes "Serve active content to establish real traffic signal")
        (push_if (not input.ns_status && not input.verified_control)
          (codes "Point NS to TollDNS or complete ownership verification")
          (push_if input.abuse_flag (codes "Resolve abuse flag before continuity protection")
            (push_if (is_empty domain) (codes "Provide a valid ICANN domain") []))))
    ++ (renewal_step on_hold covered ∷ phase_steps phase)

-- `Number(value || 0)`
abbrev pub or_zero : Double → Double
or_zero value = if truthy value then value else finite (pos 0)

abbrev pub is_hold : ContinuityPhase → Bool
is_hold hold_banner = true
is_hold _ = false

-- `evaluateDomainContinuityPolicy`
unfoldable pub evaluate_domain_continuity_policy :
    (Text → Option ℤ) → DomainContinuityPolicyInput → ℤ → DomainContinuityPolicyOutput
unfolding hold_eligible base_phase_for days_until all_reasons all_steps includes unique_after
evaluate_domain_continuity_policy parse_date input now_ms =
    let domain = normalize_domain input.domain in
    let due_in_days = days_until parse_date input.renewal_due_date now_ms in
    let on_hold = is_past due_in_days && hold_eligible input in
    let phase = if on_hold then hold_banner else base_phase_for due_in_days in
    let covered =
      less_or_equal (or_zero input.renewal_cost_estimate) (or_zero input.credit_balance) in
    let reasons = all_reasons domain input on_hold in
    record {
      eligible =
          not (includes reasons (codes "INVALID_DOMAIN"))
          && not (includes reasons (codes "ABUSE_FLAGGED"))
          && not (includes reasons (codes "NO_CONTROL_PATH"));
      phase = phase;
      hold_banner_active = is_hold phase;
      reason_codes = unique_after [] reasons;
      next_steps = unique_after [] (all_steps domain input on_hold covered phase);
      credits_estimate =
          credits_estimate_for input.traffic_signal input.ns_status input.verified_control;
      renewal_covered_by_credits = covered;
    }
