-- ===== src/TrafficOracle/Tests.antt =====
-- Runs of the score and of the limiter, and their properties at concrete values.
use decentralized_dns.Prelude.{
  ℕ, ◌+◌, ◌-◌, ◌*◌, ◌≤◌, ◌≡◌, refl, true, some, List, [], ◌∷◌, Text, codes, text_eq, arith,
}
use decentralized_dns.Prelude.Maps.{lookup, assign}
use decentralized_dns.TrafficOracle.{DomainSignals, bronze, score_signals}
use decentralized_dns.TrafficOracle.RateLimit.{refilled, allow, admitted}
use decentralized_dns.TrafficOracle.RateLimit.Admission.{InPast, Ordered, admitted-bound}

runs : Unit {0}
unfolding text_eq lookup assign refilled allow admitted score_signals
runs = tt

-- A site for which every test of the score is in its favour.
abbrev perfect : DomainSignals
perfect = record {
  dns_resolves = true;
  http_ok = true;
  status_code = some 200;
  content_length = 100000;
  title = codes "A good site";
  h1s = codes "a" ∷ codes "b" ∷ codes "c" ∷ [];
  reason_codes = [];
  keywords =
      codes "a"
      ∷ codes "b"
      ∷ codes "c"
      ∷ codes "d"
      ∷ codes "e"
      ∷ codes "f"
      ∷ codes "g"
      ∷ codes "h"
      ∷ [];
}

perfect_score : ((score_signals perfect).score ≡ 55) × ((score_signals perfect).tier ≡ bronze)
unfolding runs
perfect_score = (refl, refl)

-- Two tokens of 5000 units, and a unit a millisecond.
abbrev calls : List (Text × ℕ)
calls = (codes "a", 0) ∷ (codes "a", 1) ∷ (codes "b", 1) ∷ (codes "a", 2) ∷ (codes "a", 9000) ∷ []

calls-admitted : admitted 5000 10000 1 (codes "a") calls [] ≡ 3
unfolding runs
calls-admitted = refl

calls-Ordered : Ordered 5000 10000 1 0 calls 10000
calls-Ordered =
    (omega arith, (omega arith, (omega arith, (omega arith, (omega arith, omega arith)))))

none-InPast : InPast 5000 10000 1 (codes "a") [] 0
unfolding lookup
none-InPast = omega arith

admitted-bound_example : 5000 * admitted 5000 10000 1 (codes "a") calls [] ≤ 10000 + (10000 - 0) * 1
admitted-bound_example =
    admitted-bound 5000 10000 1 (codes "a") calls [] 0 10000 none-InPast calls-Ordered
