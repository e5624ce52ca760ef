-- ===== src/Coordinator/Tests.antt =====
-- Runs of the coordinator, and its properties at concrete values.
use decentralized_dns.Prelude.{
  ◌^◌, ℕ, ◌+◌, ◌*◌, ◌≤◌, ◌≡◌, refl, true, false, List, [], ◌∷◌, some, none, inr, pos, Text, codes,
  trim, ok, arith, ◌+ℤ◌, ◌-ℤ◌, text_eq,
}
use decentralized_dns.Prelude.Doubles.{Double, infinity, finite}
use decentralized_dns.Prelude.Floats.{one, whole, overflow, plus, minus, times}
use decentralized_dns.Prelude.Maps.{lookup, assign}
use decentralized_dns.Prelude.Sorting.{filter}
use decentralized_dns.Continuity.{includes}
use decentralized_dns.Coordinator.{store, ReceiptEnvelope, CreditsState, get_balance}
use decentralized_dns.Coordinator.Comments.{
  HoldStatus, approved, HoldRequest, CommentConfig, CommentState, CommentHold, create_hold,
  finalize_hold, status_of,
}
use decentralized_dns.Coordinator.Receipts.{
  Checks, ReceiptConfig, validate_receipt_shape, apply_receipt,
}
use decentralized_dns.Coordinator.Handlers.{
  Coordinator, CoordinatorConfig, handle_receipt, handle_hold, begin_receipt, end_receipt,
}
use decentralized_dns.Coordinator.Handlers.Finalize.{half, handle_finalize}
use decentralized_dns.Coordinator.Replays.{finalize_hold_twice, send, add_times, get_balance-send}
use decentralized_dns.Coordinator.Refund.{finalize_hold-create_hold}
use decentralized_dns.Coordinator.Payouts.{handle_receipts, handle_receipts-bound}
use decentralized_dns.Coordinator.Solvent.{Solvent}
use decentralized_dns.Coordinator.Interleaved.{World, Event, calls, begins, ends, happen_all}
use decentralized_dns.Coordinator.Interleaved.Keeps.{Sound, happen_all-Sound}
use decentralized_dns.Coordinator.Interleaved.Undone.{spend_undone}
use decentralized_dns.Coordinator.Solvent.Calls.{Call}

runs : Unit {0}
unfolding text_eq trim lookup assign filter includes get_balance create_hold finalize_hold status_of
    validate_receipt_shape apply_receipt handle_receipt handle_hold handle_finalize handle_receipts
    happen_all begin_receipt end_receipt ◌+ℤ◌ ◌-ℤ◌ plus minus times one overflow half
runs = tt

abbrev credits_of : ℕ → Double
credits_of n = whole n

abbrev w : Text
w = codes "wallet"

abbrev comment_config : CommentConfig
comment_config = record {
  hold_ttl_ms = credits_of 900000;
  max_per_minute_wallet = credits_of 12;
  max_per_minute_site = credits_of 120;
  wallet_cooldown_ms = credits_of 5000;
}

abbrev first_credits : CreditsState
first_credits = record {
  receipts = [];
  credits = (w, credits_of 10) ∷ [];
  passports = w ∷ [];
  node_pubkeys = [];
  challenges = [];
  rate = [];
}

abbrev no_comments : CommentState
no_comments = record { holds = []; wallet_rate = []; site_rate = []; wallet_cooldown = [] }

abbrev request : HoldRequest
request = record {
  wallet = some w;
  site_id = some (codes "site");
  post_id = some (codes "post");
  amount = credits_of 4;
}

abbrev ticket : Text
ticket = codes "hold_1"

abbrev at_noon : Double
at_noon = credits_of 43200000

held_lem :
    (create_hold comment_config request ticket at_noon first_credits no_comments).answer
    ≡ inr ticket
unfolding runs
held_lem = refl

held_balance :
    get_balance
      (create_hold comment_config request ticket at_noon first_credits no_comments).credits
      w
    ≡ credits_of 6
unfolding runs
held_balance = refl

finalize_hold-create_hold_example :
    get_balance
      (finalize_hold
        (create_hold comment_config request ticket at_noon first_credits no_comments).credits
        (create_hold comment_config request ticket at_noon first_credits no_comments).comments
        (some ticket)
        (some (codes "approved"))
        (credits_of 43201000)).credits
      w
    ≡ credits_of 10
unfolding runs
finalize_hold-create_hold_example =
    finalize_hold-create_hold comment_config request ticket at_noon (credits_of 43201000)
      first_credits no_comments (some ticket) (some (codes "approved")) 10 4 held_lem refl refl refl
      refl (omega arith) refl refl

-- A balance of 0.9 after a hold of 0.2 and its refund: 0.8999999999999999.
refund_rounds :
    plus
      (minus
        (finite (pos (8106479329266893 * 2 ^ 1021)))
        (finite (pos (3602879701896397 * 2 ^ 1020))))
      (finite (pos (3602879701896397 * 2 ^ 1020)))
    ≡ finite (pos (2026619832316723 * 2 ^ 1023))
unfolding runs
refund_rounds = refl

-- 0.1 * 3 is 0.30000000000000004.
product_rounds :
    times (finite (pos (3602879701896397 * 2 ^ 1019))) (whole 3)
    ≡ finite (pos (1351079888211149 * 2 ^ 1022))
unfolding runs
product_rounds = refl

-- 2 ^ 1023 doubled is Infinity.
sum_overflows : plus (finite (pos (2 ^ 2097))) (finite (pos (2 ^ 2097))) ≡ infinity
unfolding runs
sum_overflows = refl

abbrev a_hold : CommentHold
a_hold = record {
  ticket_id = ticket;
  wallet = w;
  site_id = codes "site";
  post_id = codes "post";
  amount = credits_of 4;
  status = HoldStatus.held;
  created_at = at_noon;
  expires_at = credits_of 43260000;
  comment_hash = none;
}

abbrev one_hold : CommentState
one_hold = record no_comments { holds = (ticket, a_hold) ∷ [] }

finalize_hold_twice_example :
    ((finalize_hold first_credits one_hold (some ticket) (some (codes "approved")) at_noon).answer
      ≡ inr (record a_hold { status = approved }))
    × ((finalize_hold
          (finalize_hold first_credits one_hold
            (some ticket)
            (some (codes "approved"))
            at_noon).credits
          (finalize_hold first_credits one_hold
            (some ticket)
            (some (codes "approved"))
            at_noon).comments
          (some ticket)
          (some (codes "approved"))
          at_noon).answer
        ≡ inr (record a_hold { status = approved }))
    × (get_balance
          (finalize_hold
            (finalize_hold first_credits one_hold
              (some ticket)
              (some (codes "approved"))
              at_noon).credits
            (finalize_hold first_credits one_hold
              (some ticket)
              (some (codes "approved"))
              at_noon).comments
            (some ticket)
            (some (codes "approved"))
            at_noon).credits
          w
        ≡ plus (plus (credits_of 10) (credits_of 4)) (credits_of 4))
unfolding runs
finalize_hold_twice_example =
    finalize_hold_twice first_credits one_hold (some ticket) (some (codes "approved")) at_noon
      a_hold (pos (10 * one)) (pos (4 * one)) refl refl refl refl refl refl

abbrev checks : Checks
checks = record {
  receipt_signature = λ e. ok true;
  message_signature = λ key message signature. ok true;
  receipt_id = λ r. r.node_id;
}

abbrev receipt_config : ReceiptConfig
receipt_config = record {
  serve_credits = credits_of 1;
  verify_credits = credits_of 1;
  store_credits = credits_of 2;
  resolver_pubkey_hex = [];
  allow_unverified_serve = false;
  max_per_minute = credits_of 60;
}

abbrev stored : ReceiptEnvelope
stored = record {
  receipt = record {
    type = some store;
    node_id = w;
    ts = credits_of 43200;
    result_hash = [];
    authority_sig = [];
    challenge_id = [];
    chunk_hash = none;
  };
  signature = codes "sig";
  public_key = w;
}

abbrev known_credits : CreditsState
known_credits = record first_credits { receipts = (w, stored) ∷ [] }

get_balance-send_example :
    get_balance (send checks receipt_config stored at_noon 3 known_credits) w
    ≡ add_times 3 (credits_of 10) (credits_of 2)
unfolding runs
get_balance-send_example =
    get_balance-send checks receipt_config stored at_noon refl refl refl 3 known_credits stored
      (credits_of 10) (pos (2 * one)) tt refl refl refl refl

abbrev config : CoordinatorConfig
config = record {
  receipts = receipt_config;
  comments = comment_config;
  bonus_max = credits_of 3;
  daily_credit_cap = credits_of 5;
  bonus_daily_cap = credits_of 20;
  pool_forfeit_split = finite (pos half);
}

abbrev first_state : Coordinator
first_state = record {
  credits = first_credits;
  comments = no_comments;
  credit_windows = [];
  bonus_windows = [];
  site_pools = [];
  treasury = credits_of 0;
  site_receipts = [];
}

abbrev three_receipts : List (ReceiptEnvelope × Double)
three_receipts = (stored, at_noon) ∷ (stored, at_noon) ∷ (stored, at_noon) ∷ []

-- The third receipt is over the cap.
capped :
    get_balance
      (handle_receipts checks config (codes "2026-01-01") three_receipts first_state).credits
      w
    ≡ credits_of 14
unfolding runs
capped = refl

handle_receipts-bound_example :
    (last : ℕ) × (get_balance
        (handle_receipts checks config (codes "2026-01-01") three_receipts first_state).credits
        w
      ≡ whole last)
    × (last ≤ 10 + 5)
unfolding runs
handle_receipts-bound_example =
    handle_receipts-bound checks config (codes "2026-01-01") w 10 5 three_receipts first_state refl
      (record {
        serve_amount = 1;
        verify_amount = 1;
        store_amount = 2;
        serve_is = refl;
        verify_is = refl;
        store_is = refl;
        serve_small = omega arith;
        verify_small = omega arith;
        store_small = omega arith;
      })
      refl refl

abbrev some_events : List Event
some_events =
    begins stored at_noon
    ∷ calls (Call.holds request ticket at_noon)
    ∷ calls (
        Call.finalizes
          (record {
            ticket_id = some ticket;
            result = some (codes "spam");
            site_id = none;
            bonus_multiplier = credits_of 1;
          })
          (codes "2026-01-01") at_noon)
    ∷ ends 0 (codes "2026-01-01") at_noon
    ∷ calls (Call.spends w (credits_of 3))
    ∷ []

abbrev first_world : World
first_world = record { coordinator = first_state; pending = [] }

first_state-Solvent : Solvent first_state
unfolding runs
first_state-Solvent = record { balances = (refl, tt); holds = tt; pools = tt }

happen_all-Sound_example : Sound (happen_all checks config some_events first_world)
unfolding runs
happen_all-Sound_example =
    happen_all-Sound checks config (record { serves = refl; verifies = refl; stores = refl })
      some_events first_world (record { solvent = first_state-Solvent; snapshots = tt })

-- The node has earned its credits of the day.
abbrev full_state : Coordinator
full_state = record first_state {
  credit_windows = (w, record { date = codes "2026-01-01"; credited = credits_of 5 }) ∷ [];
}

spend_undone_example :
    (get_balance
        (happen_all checks config
          (begins stored at_noon ∷ calls (Call.spends w (credits_of 10)) ∷ [])
          (record { coordinator = full_state; pending = [] })).coordinator.credits
        w
      ≡ minus (credits_of 10) (credits_of 10))
    × (get_balance
          (happen_all checks config
            (begins stored at_noon
              ∷ calls (Call.spends w (credits_of 10))
              ∷ ends 0 (codes "2026-01-01") at_noon
              ∷ [])
            (record { coordinator = full_state; pending = [] })).coordinator.credits
          w
        ≡ credits_of 10)
unfolding runs
spend_undone_example =
    spend_undone checks config stored (codes "2026-01-01") at_noon refl refl at_noon full_state
      (pos (10 * one)) (pos (10 * one)) refl refl refl refl refl refl
