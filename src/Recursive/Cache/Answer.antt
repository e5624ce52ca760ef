-- ===== src/Recursive/Cache/Answer.antt =====
-- The `resolve` of the adapter in gateway/src/adapters/recursive.ts, from a name to its route answer.
use decentralized_dns.Prelude.{
  ℕ, Bool, ◌||◌, List, [], ◌∷◌, take, reverse, Option, some, none, Text, codes, text_eq, Result, ok,
  ◌>>=◌, if◌then◌else◌,
}
use decentralized_dns.Prelude.Doubles.{Double, given}
use decentralized_dns.Recursive.{
  Runtime, ConfidenceLevel, DnsRecord, UpstreamResult, is_empty, normalize_name_for_hash,
}
use decentralized_dns.Recursive.Cache.{RecursiveResolveResult, RecursiveAdapterConfig, Adapter}
use decentralized_dns.Recursive.Cache.Resolve.{resolve_recursive}

-- What the adapter's `resolve` returns, as far as it is not a copy of the result.
pub record RouteAnswer : Type 0 where
  pub name : Text
  pub dest : Option Text
  pub ttl_s : Double
  pub ref : Text
  pub confidence_bps : ℕ
  pub payload : RecursiveResolveResult

-- `out.answers[0]?.data ?? ""`
abbrev pub first_data : List DnsRecord → Text
first_data [] = []
first_data (r ∷ _) = r.rdata

unfoldable pub confidence_bps : ConfidenceLevel → ℕ
confidence_bps ConfidenceLevel.high = 9500
confidence_bps ConfidenceLevel.medium = 7500
confidence_bps ConfidenceLevel.low = 5500

unfoldable pub route_answer : RecursiveResolveResult → RouteAnswer
unfolding confidence_bps
route_answer out =
    let data_text = first_data out.answers in
    record {
      name = out.name;
      dest = if is_empty data_text then none else some data_text;
      ttl_s = out.ttl_s;
      ref = out.chosen_upstream.url;
      confidence_bps = confidence_bps out.confidence;
      payload = out;
    }

-- `text.endsWith(".dns")`
unfoldable pub ends_with_dns : Text → Bool
ends_with_dns s = text_eq (take 4 (reverse s)) (codes "snd.")

-- The adapter's `resolve`, which nothing else runs between: `none` for a name that it does not answer.
unfoldable pub resolve :
    Runtime
    → RecursiveAdapterConfig
    → Adapter
    → Text
    → Option Text
    → Double
    → List UpstreamResult
    → Double
    → Bool
    → Result (Adapter × Result (Option RouteAnswer))
unfolding resolve_recursive route_answer ends_with_dns
resolve rt cfg ad name qtype now upstreams later persisted =
    let normalized = normalize_name_for_hash rt name in
    if is_empty name || ends_with_dns normalized then ok (ad, ok none) else do
      (ad', outcome) ←
          resolve_recursive rt cfg ad normalized (given qtype (codes "A")) now upstreams later
            persisted
      ok (ad', outcome >>= λ out. ok (some (route_answer out)))
