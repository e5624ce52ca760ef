-- ===== src/TrafficOracle.antt =====
-- services/traffic-oracle/src/scoring.ts: the score and the tier of a domain.
pub mod Reach
pub mod RateLimit
mod Tests
use decentralized_dns.Prelude.{
  ℕ, ◌+◌, ◌-◌, ◌*◌, ◌/◌, min, Bool, true, false, ◌&&◌, not, Option, none, some, List, [], ◌∷◌, ◌++◌,
  length, leb, ltb, Text, codes, if◌then◌else◌,
}
use decentralized_dns.Prelude.Doubles.{given}

pub data Tier : Type 0 where
  gold silver bronze verify_only : Tier

pub data TrafficSignal : Type 0 where
  real low no_traffic : TrafficSignal

pub data Confidence : Type 0 where
  low_confidence medium_confidence high_confidence : Confidence

-- The signals that the score reads; the lengths and the status code are natural numbers.
pub record DomainSignals : Type 0 where
  pub dns_resolves : Bool
  pub http_ok : Bool
  pub status_code : Option ℕ
  pub content_length : ℕ
  pub title : Text
  pub h1s : List Text
  pub keywords : List Text
  pub reason_codes : List Text

-- The components of the score that are always 0 are left out.
pub record ScoreDecision : Type 0 where
  pub score : ℕ
  pub tier : Tier
  pub traffic_signal : TrafficSignal
  pub treasury_renewal_allowed : Bool
  pub confidence : Confidence
  pub subsidy_estimate : ℕ
  pub reasons : List Text
  pub next_steps : List Text
  pub footprint : ℕ
  pub risk_penalty : ℕ

unfoldable pub map_tier : ℕ → Tier
map_tier score =
    if leb 80 score
    then gold
    else if leb 60 score
    then silver
    else if leb 40 score
    then bronze
    else verify_only

unfoldable pub map_traffic_signal : Tier → TrafficSignal
map_traffic_signal gold = real
map_traffic_signal silver = real
map_traffic_signal bronze = low
map_traffic_signal verify_only = no_traffic

-- `if (test) sum += points`
abbrev pub plus_if : Bool → ℕ → ℕ → ℕ
plus_if test points sum = if test then sum + points else sum

abbrev pub is_empty : Text → Bool
is_empty [] = true
is_empty (c ∷ s) = false

-- `clamp` of a number that is not negative is `min`.
unfoldable pub footprint_of : DomainSignals → ℕ
footprint_of s =
    let status = given s.status_code 0 in
    let health =
      plus_if (leb 200 status && ltb status 400) 15
        (plus_if s.http_ok 25 (plus_if s.dns_resolves 20 0)) in
    let content =
      health
      + min 15 (s.content_length / 2500)
      + min 15 (length s.keywords * 2)
      + min 10 (length s.h1s * 4) in
    min 100 (plus_if (ltb 5 (length s.title)) 5 content)

unfoldable pub risk_penalty_of : DomainSignals → ℕ
risk_penalty_of s = min 100 (
    plus_if (is_empty s.title) 10 (
      plus_if (ltb s.content_length 250) 15
        (plus_if (not s.http_ok) 25 (plus_if (not s.dns_resolves) 40 0))))

-- `clamp(Math.round(footprint * 0.55 - riskPenalty * 0.1), 0, 100)`, in hundredths. The floating-point
-- formula rounds to the same number for every footprint up to 100 and every penalty that occurs.
unfoldable pub score_of : ℕ → ℕ → ℕ
score_of footprint risk_penalty = min 100 ((55 * footprint + 50 - 10 * risk_penalty) / 100)

abbrev pub tier_reason : Tier → Text
tier_reason gold = codes "TIER_GOLD_HEALTHY_SITE"
tier_reason silver = codes "TIER_SILVER_HEALTHY_SITE"
tier_reason bronze = codes "TIER_BRONZE_PARTIAL_SIGNAL"
tier_reason verify_only = codes "TIER_VERIFY_ONLY_LOW_CONFIDENCE"

abbrev pub steps_for : Tier → List Text
steps_for verify_only =
    codes "Improve crawlable content and title/H1 structure"
    ∷ codes "Re-run verification after DNS + content updates"
    ∷ []
steps_for bronze =
    codes "Increase discoverable content footprint" ∷ codes "Run SERP enrichment in v2" ∷ []
steps_for _ =
    codes "Eligible for continuity policy checks" ∷ codes "Proceed with NS onboarding" ∷ []

abbrev pub subsidy_for : Tier → ℕ
subsidy_for gold = 25
subsidy_for silver = 12
subsidy_for bronze = 4
subsidy_for verify_only = 0

abbrev pub allowed_for : Tier → Bool
allowed_for gold = true
allowed_for silver = true
allowed_for _ = false

unfoldable pub score_signals : DomainSignals → ScoreDecision
unfolding footprint_of risk_penalty_of score_of map_tier map_traffic_signal
score_signals s =
    let footprint = footprint_of s in
    let risk_penalty = risk_penalty_of s in
    let score = score_of footprint risk_penalty in
    let tier = map_tier score in
    record {
      score = score;
      tier = tier;
      traffic_signal = map_traffic_signal tier;
      treasury_renewal_allowed = allowed_for tier;
      confidence =
          if s.dns_resolves && s.http_ok && ltb 1000 s.content_length
          then high_confidence
          else if s.http_ok
          then medium_confidence
          else low_confidence;
      subsidy_estimate = subsidy_for tier;
      reasons = s.reason_codes ++ (tier_reason tier ∷ []);
      next_steps = steps_for tier;
      footprint = footprint;
      risk_penalty = risk_penalty;
    }
