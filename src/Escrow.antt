-- ===== src/Escrow.antt =====
-- labs/escrow/src/escrow.ts: `SpendEscrowMemory`, the spend escrow held in memory. Amounts are bigints. A
-- call that throws leaves the escrow as it was.
pub mod Balances
pub mod Vouchers
mod Tests
use decentralized_dns.Prelude.{
  ◌≡◌, Bool, true, false, ◌&&◌, not, Option, none, some, List, [], ◌∷◌, ◌++◌, ℤ, pos, ◌+ℤ◌, ◌-ℤ◌,
  ltb_ℤ, leb_ℤ, Text, text_eq, Result, ok, err, ◌>>=◌, ◌>>◌, require, if◌then◌else◌,
}
use decentralized_dns.Prelude.Doubles.{given}
use decentralized_dns.Prelude.Maps.{lookup, assign}

-- `amount.toString()` is kept as the amount.
pub record SettlementRecord : Type 0 where
  pub settlement_id : Text
  pub user : Text
  pub amount : ℤ
  pub created_at : Text

pub record SpendEscrowMemory : Type 0 where
  pub balances : List (Text × ℤ)
  pub spend_limits : List (Text × ℤ)
  pub settlers : List Text
  pub settlements : List SettlementRecord

abbrev pub empty_escrow : SpendEscrowMemory
empty_escrow = record { balances = []; spend_limits = []; settlers = []; settlements = [] }

-- `set.has(value)`, `set.add(value)` and `set.delete(value)`
unfoldable pub has : Text → List Text → Bool
has a [] = false
has a (x ∷ xs) = if text_eq x a then true else has a xs

unfoldable pub add : Text → List Text → List Text
add a xs = if has a xs then xs else xs ++ (a ∷ [])

unfoldable pub delete : Text → List Text → List Text
delete a [] = []
delete a (x ∷ xs) = if text_eq x a then delete a xs else x ∷ delete a xs

abbrev pub zero_bigint : ℤ
zero_bigint = pos 0

unfoldable pub set_settler : Text → Bool → SpendEscrowMemory → SpendEscrowMemory
set_settler address true s = record s { settlers = add address s.settlers }
set_settler address false s = record s { settlers = delete address s.settlers }

unfoldable pub balance_of : SpendEscrowMemory → Text → ℤ
balance_of s user = given (lookup user s.balances) zero_bigint

unfoldable pub deposit : Text → ℤ → SpendEscrowMemory → Result SpendEscrowMemory
deposit user amount s = do
  require (not (leb_ℤ amount zero_bigint)) "invalid_amount"
  let current = given (lookup user s.balances) zero_bigint
  ok (record s { balances = assign user (current +ℤ amount) s.balances })

unfoldable pub withdraw : Text → ℤ → SpendEscrowMemory → Result SpendEscrowMemory
withdraw user amount s = do
  require (not (leb_ℤ amount zero_bigint)) "invalid_amount"
  let current = given (lookup user s.balances) zero_bigint
  require (not (ltb_ℤ current amount)) "insufficient_balance"
  ok (record s { balances = assign user (current -ℤ amount) s.balances })

unfoldable pub set_spend_limit : Text → ℤ → SpendEscrowMemory → Result SpendEscrowMemory
set_spend_limit user limit s = do
  require (not (ltb_ℤ limit zero_bigint)) "invalid_limit"
  ok (record s { spend_limits = assign user limit s.spend_limits })

-- `at` is the text of the current time.
unfoldable pub debit_for_settlement :
    Text
    → Text
    → ℤ
    → Text
    → Text
    → SpendEscrowMemory
    → Result (SettlementRecord × SpendEscrowMemory)
debit_for_settlement settler user amount settlement_id at s = do
  require (has settler s.settlers) "not_settler"
  require (not (leb_ℤ amount zero_bigint)) "invalid_amount"
  let current = given (lookup user s.balances) zero_bigint
  require (not (ltb_ℤ current amount)) "insufficient_balance"
  let limit = given (lookup user s.spend_limits) zero_bigint
  require (not (ltb_ℤ zero_bigint limit && ltb_ℤ limit amount)) "spend_limit_exceeded"
  let settlement : SettlementRecord = record {
    settlement_id = settlement_id;
    user = user;
    amount = amount;
    created_at = at;
  }
  ok (
    settlement,
    record s {
      balances = assign user (current -ℤ amount) s.balances;
      settlements = s.settlements ++ (settlement ∷ []);
    },
  )

-- A call of the escrow.
pub data Call : Type 0 where
  call_set_settler : (address : Text) (allowed : Bool) → Call
  call_deposit call_withdraw call_set_spend_limit : (user : Text) (amount : ℤ) → Call
  call_debit : (settler user : Text) (amount : ℤ) (settlement_id created_at : Text) → Call

unfoldable pub perform : Call → SpendEscrowMemory → Result SpendEscrowMemory
unfolding set_settler deposit withdraw set_spend_limit debit_for_settlement
perform (call_set_settler address allowed) s = ok (set_settler address allowed s)
perform (call_deposit user amount) s = deposit user amount s
perform (call_withdraw user amount) s = withdraw user amount s
perform (call_set_spend_limit user limit) s = set_spend_limit user limit s
perform (call_debit settler user amount settlement_id created_at) s = do
  done ← debit_for_settlement settler user amount settlement_id created_at s
  ok done.1

-- The states that calls lead to from the new escrow.
pub data Reachable : SpendEscrowMemory → Type 0 where
  start : Reachable empty_escrow
  step :
      {s s' : SpendEscrowMemory} (call : Call) → Reachable s → perform call s ≡ ok s' → Reachable s'
