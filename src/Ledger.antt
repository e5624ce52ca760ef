-- ===== src/Ledger.antt =====
-- core/src/credits/ledger.ts: the credits ledger, which keeps its balances and entries in a JSON file.
-- Amounts are JavaScript numbers.
pub mod Amounts
pub mod Moves
mod Tests
use decentralized_dns.Prelude.{
  ◌≡◌, Bool, true, false, ◌&&◌, ◌||◌, not, Option, none, some, List, [], ◌∷◌, ◌++◌, ℤ, pos, Text,
  codes, text_eq, trim, to_lower_case, Result, ok, err, ◌>>=◌, ◌>>◌, require, if◌then◌else◌,
}
use decentralized_dns.Prelude.Doubles.{
  Double, finite, nan, truthy, is_finite, less, less_or_equal, minus, plus,
}
use decentralized_dns.Prelude.Maps.{lookup, assign}

pub data Kind : Type 0 where
  kind_credit kind_debit : Kind

pub record CreditsLedgerEntry : Type 0 where
  pub domain_or_owner : Text
  pub amount : Double
  pub reason : Text
  pub ts : Text
  pub kind : Kind

pub record CreditsLedgerStore : Type 0 where
  pub balances : List (Text × Double)
  pub entries : List CreditsLedgerEntry

-- What is at the path of the file: nothing, text that is no JSON, JSON without a `balances` object,
-- or a store, whose entries may be no array.
pub data File : Type 0 where
  missing unreadable without_balances : File
  without_entries : (balances : List (Text × Double)) → File
  stored : (store : CreditsLedgerStore) → File

unfoldable pub normalize_key : Text → Text
normalize_key value = to_lower_case (trim value)

abbrev pub default_store : CreditsLedgerStore
default_store = record {
  balances =
      (codes "good-traffic.com", finite (pos 180))
      ∷ (codes "low-traffic.com", finite (pos 20))
      ∷ (codes "active.com", finite (pos 75))
      ∷ [];
  entries = [];
}

-- The store that `ensureStore` returns, and the file after it: a missing file is created.
unfoldable pub ensure_store : File → CreditsLedgerStore × File
ensure_store missing = (default_store, stored default_store)
ensure_store unreadable = (default_store, unreadable)
ensure_store without_balances = (default_store, without_balances)
ensure_store (without_entries balances) =
    (record { balances = balances; entries = [] }, without_entries balances)
ensure_store (stored store) = (store, stored store)

-- `JSON.stringify` writes a number that is not finite as null, which is read back as 0.
abbrev pub written : Double → Double
written n = if is_finite n then n else finite (pos 0)

unfoldable pub written_balances : List (Text × Double) → List (Text × Double)
written_balances [] = []
written_balances ((key, n) ∷ balances) = (key, written n) ∷ written_balances balances

unfoldable pub save_store : CreditsLedgerStore → File
save_store store = stored (record store { balances = written_balances store.balances })

-- The lower-case names that an object inherits; they are no numbers.
unfoldable pub is_inherited : Text → Bool
is_inherited key = text_eq key (codes "constructor") || text_eq key (codes "__proto__")

-- `Number(value || 0)` of a property: its own value, an inherited one, or none.
unfoldable pub number_or_zero : Option Double → Bool → Double
number_or_zero (some n) inherited = if truthy n then n else finite (pos 0)
number_or_zero none true = nan
number_or_zero none false = finite (pos 0)

unfoldable pub read_balance : CreditsLedgerStore → Text → Double
read_balance store key = number_or_zero (lookup key store.balances) (is_inherited key)

abbrev pub is_empty : Text → Bool
is_empty [] = true
is_empty (c ∷ s) = false

-- `reason || "credit"`
abbrev pub reason_or : Text → Text → Text
reason_or reason default = if is_empty reason then default else reason

unfoldable pub get_balance : Text → File → Double × File
get_balance domain_or_owner file =
    let key = normalize_key domain_or_owner in
    let loaded = ensure_store file in
    if is_empty key then (finite (pos 0), file) else (read_balance loaded.0 key, loaded.1)

abbrev pub is_amount : Double → Bool
is_amount amount = is_finite amount && not (less_or_equal amount (finite (pos 0)))

-- Setting a property: `__proto__`, unless it is a property of the object's own (as in a file that was
-- read), has a setter that ignores a number.
abbrev pub is_setter : Text → Option Double → Bool
is_setter key none = text_eq key (codes "__proto__")
is_setter key (some n) = false

unfoldable pub set_property : Text → Double → List (Text × Double) → List (Text × Double)
set_property key n balances =
    if is_setter key (lookup key balances) then balances else assign key n balances

-- The store with a new balance and one more entry.
unfoldable pub post : Text → Double → CreditsLedgerEntry → CreditsLedgerStore → CreditsLedgerStore
unfolding set_property
post key balance entry store = record {
  balances = set_property key balance store.balances;
  entries = store.entries ++ (entry ∷ []);
}

-- The answer is the balance; for the inherited `__proto__` the source answers the object that the property
-- is, and the model NaN, which is that object as a number.
unfoldable pub credit : Text → Double → Text → Text → File → Result (Double × File)
credit domain_or_owner amount reason now file = do
  let key = normalize_key domain_or_owner
  require (not (is_empty key)) "invalid_key"
  require (is_amount amount) "invalid_amount"
  let store = (ensure_store file).0
  let balance = plus (read_balance store key) amount
  let entry : CreditsLedgerEntry = record {
    domain_or_owner = key;
    amount = amount;
    reason = reason_or reason (codes "credit");
    ts = now;
    kind = kind_credit;
  }
  ok (balance, save_store (post key balance entry store))

-- A refused debit on a missing file leaves the default store there, which reads the same.
unfoldable pub debit : Text → Double → Text → Text → File → Result (Double × File)
debit domain_or_owner amount reason now file = do
  let key = normalize_key domain_or_owner
  require (not (is_empty key)) "invalid_key"
  require (is_amount amount) "invalid_amount"
  let store = (ensure_store file).0
  let current = read_balance store key
  require (not (less current amount)) "insufficient_credits"
  let balance = minus current amount
  let entry : CreditsLedgerEntry = record {
    domain_or_owner = key;
    amount = amount;
    reason = reason_or reason (codes "debit");
    ts = now;
    kind = kind_debit;
  }
  ok (balance, save_store (post key balance entry store))

-- The operation that writes entries of a kind.
unfoldable pub transact : Kind → Text → Double → Text → Text → File → Result (Double × File)
transact kind_credit = credit
transact kind_debit = debit

pub record Subsidy : Type 0 where
  pub credits_balance : Double
  pub renewal_cost_estimate : Double
  pub covered_by_credits : Bool
  pub covered_amount : Double

-- `Math.min` of the cost and a balance
abbrev pub lesser : Double → Double → Double
lesser a nan = nan
lesser a b = if less b a then b else a

unfoldable pub estimate_renewal_subsidy : Text → File → Subsidy × File
estimate_renewal_subsidy domain file =
    let answer = get_balance domain file in
    let covered = lesser (finite (pos 110)) answer.0 in
    (
      record {
        credits_balance = answer.0;
        renewal_cost_estimate = finite (pos 110);
        covered_by_credits = less_or_equal (finite (pos 110)) covered;
        covered_amount = covered;
      },
      answer.1,
    )
