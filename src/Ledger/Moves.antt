-- ===== src/Ledger/Moves.antt =====
-- Balances of the ledger along its operations (core/src/credits/ledger.ts).
use decentralized_dns.Prelude.{
  List, ◌≡◌, inl, inr, refl, if_both, codes, true, false, Bool-cases, Option-cases, Text, text_eq,
  ok, if◌then◌else◌, arith,
}
use decentralized_dns.Prelude.Doubles.{Double, less, minus, plus}
use decentralized_dns.Prelude.Maps.{lookup, assign, lookup-assign_if}
use decentralized_dns.Ledger.{
  CreditsLedgerEntry, CreditsLedgerStore, File, without_entries, missing, unreadable,
  without_balances, stored, Kind, transact, normalize_key, ensure_store, written, save_store,
  is_inherited, number_or_zero, read_balance, get_balance, is_amount, is_empty, reason_or,
  kind_credit, kind_debit, is_setter, set_property, post, credit, debit,
}
use decentralized_dns.Ledger.Amounts.{
  NonNegative, SolventBalances, Solvent, Balance, written-NonNegative, written_same,
  written_balances-assign, written_balances_same, assign-Solvent, lookup-Solvent,
  number_or_zero_same, read_balance-Balance, plus-NonNegative, minus-NonNegative, plus-Balance,
  minus-Balance,
}

-- Saving a posted balance.
saved :
    (key : Text) (n : Double) (entry : CreditsLedgerEntry) (store : CreditsLedgerStore)
    → Balance n
    → SolventBalances store.balances
    → (ensure_store (save_store (post key n entry store))).0.balances
      ≡ set_property key (written n) store.balances
unfolding ensure_store save_store post
saved key n entry store h a = elim (Bool-cases (is_setter key (lookup key store.balances))) [
  | inl e ↦ rw e (written_balances_same store.balances a)
  | inr e ↦ rw e (written_balances-assign key n store.balances h a)
]

-- A key that is not inherited is set.
set_property-own :
    (key : Text) (n : Double) (balances : List (Text × Double))
    → is_inherited key ≡ false
    → set_property key n balances ≡ assign key n balances
unfolding set_property is_inherited
set_property-own key n balances own = elim (Option-cases (lookup key balances)) [
  | inl e ↦ let free : text_eq key (codes "__proto__") ≡ false = ground arith in rw (e, free)
  | inr (m, e) ↦ rw e
]

set_property-Solvent :
    (key : Text) (n : Double) (balances : List (Text × Double))
    → NonNegative n
    → SolventBalances balances
    → SolventBalances (set_property key n balances)
unfolding set_property
set_property-Solvent key n balances h a =
    if_both SolventBalances (is_setter key (lookup key balances)) a
      (assign-Solvent key n balances h a)

credit-eq-ok :
    (who : Text) (amount : Double) (reason now : Text) (file file' : File) (n : Double)
    → credit who amount reason now file ≡ ok (n, file')
    → (is_amount amount ≡ true)
      × (n ≡ plus (read_balance (ensure_store file).0 (normalize_key who)) amount)
      × ((entry : CreditsLedgerEntry) × (file'
            ≡ save_store (post (normalize_key who) n entry (ensure_store file).0)))
unfolding credit
credit-eq-ok who amount reason now file file' n e = (
  ground arith,
  ground arith,
  (
    record {
      domain_or_owner = normalize_key who;
      amount = amount;
      reason = reason_or reason (codes "credit");
      ts = now;
      kind = kind_credit;
    },
    ground arith,
  ),
)

debit-eq-ok :
    (who : Text) (amount : Double) (reason now : Text) (file file' : File) (n : Double)
    → debit who amount reason now file ≡ ok (n, file')
    → (is_amount amount ≡ true)
      × (less (read_balance (ensure_store file).0 (normalize_key who)) amount ≡ false)
      × (n ≡ minus (read_balance (ensure_store file).0 (normalize_key who)) amount)
      × ((entry : CreditsLedgerEntry) × (file'
            ≡ save_store (post (normalize_key who) n entry (ensure_store file).0)))
unfolding debit
debit-eq-ok who amount reason now file file' n e = (
  ground arith,
  ground arith,
  ground arith,
  (
    record {
      domain_or_owner = normalize_key who;
      amount = amount;
      reason = reason_or reason (codes "debit");
      ts = now;
      kind = kind_debit;
    },
    ground arith,
  ),
)

saved-Solvent :
    (key : Text) (n : Double) (entry : CreditsLedgerEntry) (store : CreditsLedgerStore)
    → Balance n
    → SolventBalances store.balances
    → Solvent (save_store (post key n entry store))
saved-Solvent key n entry store h a =
    rw (saved key n entry store h a)
      (set_property-Solvent key (written n) store.balances (written-NonNegative n h) a)

-- The balance that a key reads after a balance was posted.
saved_read :
    (key k : Text) (n : Double) (entry : CreditsLedgerEntry) (store : CreditsLedgerStore)
    → is_inherited key ≡ false
    → NonNegative n
    → SolventBalances store.balances
    → read_balance (ensure_store (save_store (post key n entry store))).0 k
      ≡ (if text_eq key k then n else read_balance store k)
unfolding read_balance
saved_read key k n entry store own h a = elim (Bool-cases (text_eq key k)) [
  | inl e ↦
      rw
        (
          saved key n entry store (inl h) a,
          set_property-own key (written n) store.balances own,
          written_same n h,
          lookup-assign_if key k n store.balances,
          e,
        )
        (number_or_zero_same n (is_inherited k) h)
  | inr e ↦ rw (
    saved key n entry store (inl h) a,
    set_property-own key (written n) store.balances own,
    written_same n h,
    lookup-assign_if key k n store.balances,
    e,
  )
]

read_balance-NonNegative :
    (store : CreditsLedgerStore) (key : Text)
    → is_inherited key ≡ false
    → SolventBalances store.balances
    → NonNegative (read_balance store key)
unfolding read_balance number_or_zero
read_balance-NonNegative store key f a = elim (Option-cases (lookup key store.balances)) [
  | inl e ↦ rw (e, f) (0, refl)
  | inr (n, e) ↦
      let h = lookup-Solvent key n store.balances a e in
      rw (e, number_or_zero_same n (is_inherited key) h) h
]

loaded_again : (file : File) → Solvent file → Solvent (ensure_store file).1
unfolding ensure_store
loaded_again missing a = a
loaded_again unreadable a = a
loaded_again without_balances a = a
loaded_again (without_entries balances) a = a
loaded_again (stored store) a = a

-- The balance that an operation of a kind makes of a balance.
abbrev pub moved_by : Kind → Double → Double → Double
moved_by kind_credit = plus
moved_by kind_debit = minus

abbrev pub balance_in : File → Text → Double
balance_in file key = read_balance (ensure_store file).0 key

-- What an operation that succeeds did.
record Moved (kind : Kind) (key : Text) (amount : Double) (file file' : File) (n : Double)
    : Type 0 where
  is_moved : n ≡ moved_by kind (balance_in file key) amount
  stays : Balance (balance_in file key) → Balance n
  above : NonNegative (balance_in file key) → NonNegative n
  entry : CreditsLedgerEntry
  after : file' ≡ save_store (post key n entry (ensure_store file).0)

transact-Moved :
    (kind : Kind) (who : Text) (amount : Double) (reason now : Text) (file file' : File)
    (n : Double)
    → transact kind who amount reason now file ≡ ok (n, file')
    → Moved kind (normalize_key who) amount file file' n
unfolding transact
transact-Moved kind_credit who amount reason now file file' n e =
    let (positive, sum, (entry, after)) = credit-eq-ok who amount reason now file file' n e in
    record {
      is_moved = sum;
      entry = entry;
      after = after;
      stays = λ b. rw sum (plus-Balance _ amount b positive);
      above = λ b. rw sum (plus-NonNegative _ amount b positive);
    }
transact-Moved kind_debit who amount reason now file file' n e =
    let (positive, enough, difference, (entry, after)) =
      debit-eq-ok who amount reason now file file' n e in
    record {
      is_moved = difference;
      entry = entry;
      after = after;
      stays = λ b. rw difference (minus-Balance _ amount b positive enough);
      above = λ b. rw difference (minus-NonNegative _ amount b positive enough);
    }

-- If no balance of the file is below 0 or no number, this holds after a credit or a debit, of any
-- key, and after a balance is read.
pub Solvent-kept :
    (kind : Kind) (who : Text) (amount : Double) (reason now : Text) (file file' : File)
    (n : Double)
    → Solvent file
    → transact kind who amount reason now file ≡ ok (n, file')
    → Solvent file' × Solvent (get_balance who file).1
unfolding get_balance
Solvent-kept kind who amount reason now file file' n a e =
    let m = transact-Moved kind who amount reason now file file' n e in
    let kept =
      saved-Solvent (normalize_key who) n m.entry (ensure_store file).0
        (m.stays (read_balance-Balance (ensure_store file).0 (normalize_key who) a)) a in
    (
      rw m.after kept,
      if_both (λ (r : Double × File). Solvent r.1) (is_empty (normalize_key who)) a
          (loaded_again file a),
    )

-- A credit or a debit that succeeds adds the amount to what its key reads, or takes it from that, and
-- changes what no other key reads, if the key is not the name of an inherited property and no
-- balance of the file was below 0 or no number.
pub balance_in-transact :
    (kind : Kind) (who : Text) (amount : Double) (reason now : Text) (file file' : File)
    (n : Double) (k : Text)
    → Solvent file
    → is_inherited (normalize_key who) ≡ false
    → transact kind who amount reason now file ≡ ok (n, file')
    → balance_in file' k ≡ (
        if text_eq (normalize_key who) k
        then moved_by kind (balance_in file (normalize_key who)) amount
        else balance_in file k)
balance_in-transact kind who amount reason now file file' n k a own e =
    let m = transact-Moved kind who amount reason now file file' n e in
    let above =
      m.above (read_balance-NonNegative (ensure_store file).0 (normalize_key who) own a) in
    rw (m.after, ← m.is_moved)
      (saved_read (normalize_key who) k n m.entry (ensure_store file).0 own above a)
