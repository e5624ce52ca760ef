-- ===== src/Coordinator.antt =====
-- coordinator/src/routes/credits.ts, and the types and rate limits of routes/receipts.ts and routes/comments.ts: credits
-- of wallets, which receipts earn and held comments spend. Amounts and times are `Double`s with
-- the arithmetic of Prelude.Floats; all calls of `Date.now` in one handler give the same time.
pub mod Comments
pub mod Receipts
pub mod Handlers
pub mod Payouts
pub mod Replays
pub mod Refund
pub mod Solvent
pub mod Interleaved
mod Tests
use decentralized_dns.Prelude.{
  ℕ, suc, ◌*◌, Bool, true, false, ◌&&◌, ◌||◌, not, List, [], ◌∷◌, Option, some, none, ℤ, Text,
  String, text_eq, if◌then◌else◌,
}
use decentralized_dns.Prelude.Doubles.{
  Double, finite, nan, infinity, neg_infinity, less, less_or_equal, truthy, given,
}
use decentralized_dns.Prelude.Floats.{whole, minus, plus}
use decentralized_dns.Prelude.Maps.{lookup, assign}
use decentralized_dns.Prelude.Sorting.{filter}

pub data ReceiptType : Type 0 where
  serve verify store : ReceiptType
  other_type : (name : Text) → ReceiptType

-- The properties of a receipt that are read; an absent or falsy text is the empty text.
pub record Receipt : Type 0 where
  pub type : Option ReceiptType
  pub node_id : Text
  pub ts : Double
  pub result_hash : Text
  pub authority_sig : Text
  pub challenge_id : Text
  pub chunk_hash : Option Text

pub record ReceiptEnvelope : Type 0 where
  pub receipt : Receipt
  pub signature : Text
  pub public_key : Text

pub record Challenge : Type 0 where
  pub wallet : Text
  pub chunk_hash : Text
  pub expires_at : Double

-- The entries of a rate limit, `CommentRate` in routes/comments.ts.
pub record Rate : Type 0 where
  pub count : ℕ
  pub window_start : Double

pub record CreditsState : Type 0 where
  pub receipts : List (Text × ReceiptEnvelope)
  pub credits : List (Text × Double)
  pub passports : List Text
  pub node_pubkeys : List Text
  pub challenges : List (Text × Challenge)
  pub rate : List (Text × Rate)

-- `value || 0`
abbrev pub or_zero_number : Double → Double
or_zero_number d = if truthy d then d else finite (ℤ.pos 0)

unfoldable pub get_balance : CreditsState → Text → Double
get_balance s wallet = or_zero_number (given (lookup wallet s.credits) (finite (ℤ.pos 0)))

abbrev pub set_credits : Text → Double → CreditsState → CreditsState
set_credits wallet amount s = record s { credits = assign wallet amount s.credits }

-- The error, if there is one, and the state.
unfoldable pub spend_credits : CreditsState → Text → Double → Option String × CreditsState
unfolding get_balance
spend_credits s wallet amount =
    if less (get_balance s wallet) amount
    then (some "INSUFFICIENT_CREDITS", s)
    else (none, set_credits wallet (minus (get_balance s wallet) amount) s)

-- `credit` of routes/receipts.ts
unfoldable pub credit : CreditsState → Text → Double → CreditsState
unfolding get_balance
credit s wallet amount = set_credits wallet (plus (get_balance s wallet) amount) s

abbrev pub minute : Double
minute = whole 60000

unfoldable pub counted_rate : Option Rate → Double → Rate
counted_rate none now = record { count = 1; window_start = now }
counted_rate (some r) now =
    if less minute (minus now r.window_start)
    then record { count = 1; window_start = now }
    else record { count = suc r.count; window_start = r.window_start }

-- The call is counted, also when it is refused: whether it is within the limit, and the new map.
unfoldable pub apply_rate_limit :
    List (Text × Rate) → Text → Double → Double → Bool × List (Text × Rate)
unfolding counted_rate
apply_rate_limit rates k max_per_minute now =
    let r = counted_rate (lookup k rates) now in
    (not (less max_per_minute (whole r.count)), assign k r rates)
