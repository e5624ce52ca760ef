-- ===== src/Coordinator/Solvent/Holds.antt =====
-- POST /credits/spend and POST /comments/hold (coordinator/src/server.ts) keep the credits solvent.
use decentralized_dns.Prelude.{
  negsuc, pos, ◌≡◌, refl, Bool, true, false, inl, inr, Text, if_both, Bool-cases, arith,
}
use decentralized_dns.Prelude.Doubles.{
  Double, finite, nan, infinity, neg_infinity, less, less_or_equal, truthy,
}
use decentralized_dns.Prelude.Maps.{All-assign}
use decentralized_dns.Coordinator.{CreditsState, get_balance, spend_credits, apply_rate_limit}
use decentralized_dns.Coordinator.Comments.{
  CommentState, HoldRequest, trimmed, valid_request, count_rates, cooling_down, take_hold,
  create_hold,
}
use decentralized_dns.Coordinator.Handlers.{
  Coordinator, CoordinatorConfig, zero_credits, handle_spend, handle_hold,
}
use decentralized_dns.Coordinator.Solvent.{NotNegative, Balances, Amounts, Solvent, taken-Balances}

pub spend-Solvent :
    (s : Coordinator) (wallet : Text) (amount : Double)
    → Solvent s
    → Solvent (handle_spend s wallet amount).1
unfolding handle_spend spend_credits
spend-Solvent s wallet amount v = elim (Bool-cases (truthy amount)) [
  | inr zero_amount ↦ rw zero_amount v
  | inl t ↦ elim (Bool-cases (less_or_equal amount zero_credits)) [
    | inl negative ↦ rw (t, negative) v
    | inr positive ↦ elim (Bool-cases (less (get_balance s.credits wallet) amount)) [
      | inl short ↦ rw (t, positive, short) v
      | inr covers ↦
          rw (t, positive, covers)
            (record {
              balances = taken-Balances s.credits wallet amount v.balances covers;
              holds = v.holds;
              pools = v.pools;
            })
    ]
  ]
]

NotNegative-of_positive : (d : Double) → less_or_equal d zero_credits ≡ false → NotNegative d
NotNegative-of_positive nan h = refl
NotNegative-of_positive infinity h = refl
NotNegative-of_positive neg_infinity h = cc
NotNegative-of_positive (finite (pos n)) h = ground arith
NotNegative-of_positive (finite (negsuc n)) h = absurd (ground arith)

-- Credits and holds together, which `createHold` and `finalizeHold` change.
pub record Both (credits : CreditsState) (c : CommentState) : Type 0 where
  pub balances : Balances credits.credits
  pub amounts : Amounts c.holds

take_hold-Both :
    (cfg : CoordinatorConfig) (p : HoldRequest) (ticket_id : Text) (now : Double)
    (credits : CreditsState) (c : CommentState)
    → less_or_equal p.amount zero_credits ≡ false
    → Both credits c
    → Both
        (take_hold cfg.comments p ticket_id now credits c).credits
        (take_hold cfg.comments p ticket_id now credits c).comments
unfolding take_hold
take_hold-Both cfg p ticket_id now credits c positive v =
    elim (Bool-cases (less (get_balance credits (trimmed p.wallet)) p.amount)) [
      | inl short ↦ rw short v
      | inr covers ↦ rw covers (record {
        balances = taken-Balances credits (trimmed p.wallet) p.amount v.balances covers;
        amounts =
            All-assign (λ _ h. NotNegative h.amount) ticket_id _ c.holds
              (NotNegative-of_positive p.amount positive) v.amounts;
      })
    ]

count_rates-holds :
    (cfg : CoordinatorConfig) (wallet site : Text) (now : Double) (c : CommentState)
    → (count_rates cfg.comments wallet site now c).1.holds ≡ c.holds
unfolding count_rates
count_rates-holds cfg wallet site now c =
    if_both (λ (r : Bool × CommentState). r.1.holds ≡ c.holds)
      (apply_rate_limit c.wallet_rate wallet cfg.comments.max_per_minute_wallet now).0 refl refl

valid_amount :
    (p : HoldRequest) → valid_request p ≡ true → less_or_equal p.amount zero_credits ≡ false
unfolding valid_request
valid_amount p h = ground arith

create_hold-Both :
    (cfg : CoordinatorConfig) (p : HoldRequest) (ticket_id : Text) (now : Double)
    (credits : CreditsState) (c : CommentState)
    → Both credits c
    → Both
        (create_hold cfg.comments p ticket_id now credits c).credits
        (create_hold cfg.comments p ticket_id now credits c).comments
unfolding create_hold
create_hold-Both cfg p ticket_id now credits c v =
    let wallet = trimmed p.wallet in
    let rated = count_rates cfg.comments wallet (trimmed p.site_id) now c in
    let v' : Both credits rated.1 = record {
      balances = v.balances;
      amounts = rw (count_rates-holds cfg wallet (trimmed p.site_id) now c) v.amounts;
    } in
    elim (Bool-cases (valid_request p)) [
      | inr invalid ↦ rw invalid v
      | inl valid ↦ elim (Bool-cases rated.0) [
        | inr limited ↦ rw (valid, limited) v'
        | inl free ↦ elim (Bool-cases (cooling_down cfg.comments wallet now rated.1)) [
          | inl cooling ↦ rw (valid, free, cooling) v'
          | inr cool ↦
              rw (valid, free, cool)
                (take_hold-Both cfg p ticket_id now credits rated.1 (valid_amount p valid) v')
        ]
      ]
    ]

pub hold-Solvent :
    (cfg : CoordinatorConfig) (p : HoldRequest) (ticket_id : Text) (now : Double) (s : Coordinator)
    → Solvent s
    → Solvent (handle_hold cfg p ticket_id now s).1
unfolding handle_hold
hold-Solvent cfg p ticket_id now s v =
    let w =
      create_hold-Both cfg p ticket_id now s.credits s.comments
        (record { balances = v.balances; amounts = v.holds }) in
    record { balances = w.balances; holds = w.amounts; pools = v.pools }
