-- ===== src/Ledger/Amounts.antt =====
-- Balances that are numbers and not below 0, in the ledger's store (core/src/credits/ledger.ts).
use decentralized_dns.Prelude.{
  ℕ, zero, suc, ◌+◌, ◌-◌, ◌≤◌, ◌≡◌, ◌⊎◌, inl, inr, refl, sym, ap, Bool, true, false, Bool-cases,
  Option-cases, some, List, [], ◌∷◌, pos, negsuc, ◌+ℤ◌, ◌-ℤ◌, int_laws, Text, text_eq, arith,
}
use decentralized_dns.Prelude.All.{All}
use decentralized_dns.Prelude.Doubles.{
  Double, finite, nan, infinity, neg_infinity, less, minus, plus,
}
use decentralized_dns.Prelude.Maps.{lookup, assign}
use decentralized_dns.Ledger.{
  CreditsLedgerStore, File, ensure_store, written, written_balances, is_inherited, number_or_zero,
  read_balance, is_amount,
}

abbrev pub NonNegative : Double → Type 0
NonNegative n = (k : ℕ) × (n ≡ finite (pos k))

abbrev pub SolventBalances : List (Text × Double) → Type 0
SolventBalances balances = All (λ (e : Text × Double). NonNegative e.1) balances

-- No balance of the file is below 0 or no number.
abbrev pub Solvent : File → Type 0
Solvent file = All (λ (e : Text × Double). NonNegative e.1) (ensure_store file).0.balances

-- What a key reads as.
abbrev pub Balance : Double → Type 0
Balance n = NonNegative n ⊎ (n ≡ nan)

pub written-NonNegative : (n : Double) → Balance n → NonNegative (written n)
written-NonNegative n (inl (k, e)) = (k, rw e)
written-NonNegative n (inr e) = (0, rw e)

pub written_same : (n : Double) → NonNegative n → written n ≡ n
written_same n (k, e) = rw e

pub written_balances_same :
    (balances : List (Text × Double))
    → SolventBalances balances
    → written_balances balances ≡ balances
unfolding written_balances
written_balances_same [] a = refl
written_balances_same ((j, m) ∷ balances) (p, a) =
    rw (written_same m p, written_balances_same balances a)

pub written_balances-assign :
    (key : Text) (n : Double) (balances : List (Text × Double))
    → Balance n
    → SolventBalances balances
    → written_balances (assign key n balances) ≡ assign key (written n) balances
unfolding written_balances assign
written_balances-assign key n [] h a = refl
written_balances-assign key n ((j, m) ∷ balances) h (p, a) = elim (Bool-cases (text_eq j key)) [
  | inl e ↦ rw e (ap (λ l. (j, written n) ∷ l) (written_balances_same balances a))
  | inr e ↦ rw (e, written_same m p, written_balances-assign key n balances h a)
]

pub assign-Solvent :
    (key : Text) (n : Double) (balances : List (Text × Double))
    → NonNegative n
    → SolventBalances balances
    → SolventBalances (assign key n balances)
unfolding assign
assign-Solvent key n [] h a = (h, tt)
assign-Solvent key n ((j, m) ∷ balances) h (p, a) = elim (Bool-cases (text_eq j key)) [
  | inl e ↦ rw e (h, a)
  | inr e ↦ rw e (p, assign-Solvent key n balances h a)
]

pub lookup-Solvent :
    (key : Text) (n : Double) (balances : List (Text × Double))
    → SolventBalances balances
    → lookup key balances ≡ some n
    → NonNegative n
unfolding lookup
lookup-Solvent key n [] a e = cc
lookup-Solvent key n ((j, m) ∷ balances) (p, a) e = elim (Bool-cases (text_eq j key)) [
  | inl same ↦ let here : m ≡ n = ground (arith, rw same at e) in rw (sym here) p
  | inr apart ↦ lookup-Solvent key n balances a (rw apart at e)
]

pub number_or_zero_same :
    (n : Double) (inherited : Bool) → NonNegative n → number_or_zero (some n) inherited ≡ n
unfolding number_or_zero
number_or_zero_same n inherited (zero, e) = rw e
number_or_zero_same n inherited (suc k, e) = rw e

pub read_balance-Balance :
    (store : CreditsLedgerStore) (key : Text)
    → SolventBalances store.balances
    → Balance (read_balance store key)
unfolding read_balance number_or_zero
read_balance-Balance store key a = elim (Option-cases (lookup key store.balances)) [
  | inl e ↦ elim (Bool-cases (is_inherited key)) [
    | inl f ↦ rw (e, f) (inr refl)
    | inr f ↦ rw (e, f) (inl (0, refl))
  ]
  | inr (n, e) ↦
      let h = lookup-Solvent key n store.balances a e in
      inl (rw (e, number_or_zero_same n (is_inherited key) h) h)
]

pub negative_amount : (a : ℕ) → is_amount (finite (negsuc a)) ≡ true → ⊥
negative_amount a h = ground arith

pub plus_pos : (k a : ℕ) → pos k +ℤ pos a ≡ pos (k + a)
plus_pos k a = grind int_laws

pub minus_pos : (k a : ℕ) → a ≤ k → pos k -ℤ pos a ≡ pos (k - a)
minus_pos k a h = grind int_laws

pub plus-NonNegative :
    (n amount : Double) → NonNegative n → is_amount amount ≡ true → NonNegative (plus n amount)
plus-NonNegative n (finite (pos a)) (k, e) h = rw e (k + a, ap finite (plus_pos k a))
plus-NonNegative n (finite (negsuc a)) b h = absurd (negative_amount a h)
plus-NonNegative n nan b h = cc
plus-NonNegative n infinity b h = cc
plus-NonNegative n neg_infinity b h = cc

pub minus-NonNegative :
    (n amount : Double)
    → NonNegative n
    → is_amount amount ≡ true
    → less n amount ≡ false
    → NonNegative (minus n amount)
minus-NonNegative n (finite (pos a)) (k, e) h l =
    let large = rw e at l in
    let covered : a ≤ k = ground (arith, large) in rw e (k - a, ap finite (minus_pos k a covered))
minus-NonNegative n (finite (negsuc a)) b h l = absurd (negative_amount a h)
minus-NonNegative n nan b h l = cc
minus-NonNegative n infinity b h l = cc
minus-NonNegative n neg_infinity b h l = cc

pub plus-Balance :
    (n amount : Double) → Balance n → is_amount amount ≡ true → Balance (plus n amount)
plus-Balance n amount (inl b) h = inl (plus-NonNegative n amount b h)
plus-Balance n amount (inr e) h = rw e (inr refl)

pub minus-Balance :
    (n amount : Double)
    → Balance n
    → is_amount amount ≡ true
    → less n amount ≡ false
    → Balance (minus n amount)
minus-Balance n amount (inl b) h l = inl (minus-NonNegative n amount b h l)
minus-Balance n amount (inr e) h l = rw e (inr refl)
