-- ===== src/TrafficOracle/Reach.antt =====
-- Which tiers the score can reach (services/traffic-oracle/src/scoring.ts).
use decentralized_dns.Prelude.{ℕ, ◌≤◌, ◌≡◌, ◌≢◌, false, arith}
use decentralized_dns.TrafficOracle.{
  real, DomainSignals, map_tier, map_traffic_signal, allowed_for, subsidy_for, footprint_of,
  risk_penalty_of, score_of, score_signals,
}

score_of-bound : (f r : ℕ) → f ≤ 100 → score_of f r ≤ 55
unfolding score_of
score_of-bound f r h = omega arith

tier-bound :
    (n : ℕ)
    → n ≤ 55
    → (allowed_for (map_tier n) ≡ false)
      × (map_traffic_signal (map_tier n) ≢ real)
      × (subsidy_for (map_tier n) ≤ 4)
unfolding map_tier map_traffic_signal
tier-bound n h = ground arith

-- No signals score more than 55, so that no domain is ever in the tiers Gold and Silver: the renewal by
-- the treasury is never allowed, the traffic is never rated real and the subsidy is at most 4.
pub score_signals-bound :
    (s : DomainSignals)
    → ((score_signals s).score ≤ 55)
      × ((score_signals s).treasury_renewal_allowed ≡ false)
      × ((score_signals s).traffic_signal ≢ real)
      × ((score_signals s).subsidy_estimate ≤ 4)
unfolding score_signals
score_signals-bound s =
    let below =
      score_of-bound (footprint_of s) (risk_penalty_of s) (unfold footprint_of in omega arith) in
    let (unpaid, unreal, small) =
      tier-bound (score_of (footprint_of s) (risk_penalty_of s)) below in
    (below, unpaid, unreal, small)
