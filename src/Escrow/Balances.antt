-- ===== src/Escrow/Balances.antt =====
-- Balances of the escrow along its calls (labs/escrow/src/escrow.ts).
use decentralized_dns.Prelude.{
  ◌≡◌, ◌↔◌, ◌⊎◌, refl, sym, ap, ◌∙◌, subst, if_both, Bool, true, false, Bool-cases, inl, inr, List,
  [], ◌∷◌, ◌++◌, ℤ, ◌+ℤ◌, ◌-ℤ◌, ◌≤ℤ◌, ◌<ℤ◌, int_laws, Text, text_eq, text_eq_iff, ok, >>=-eq-ok,
  if◌then◌else◌, arith,
}
use decentralized_dns.Prelude.Doubles.{given}
use decentralized_dns.Prelude.Maps.{lookup, assign, lookup-assign_if}
use decentralized_dns.Prelude.All.{All, All-append}
use decentralized_dns.Escrow.{
  SettlementRecord, SpendEscrowMemory, has, set_settler, balance_of, deposit, withdraw,
  set_spend_limit, debit_for_settlement, zero_bigint, Call, call_set_settler, call_deposit,
  call_withdraw, call_set_spend_limit, call_debit, perform, Reachable, start, step,
}

-- What a call adds to the balance of `v`.
unfoldable pub effect : Call → Text → ℤ
effect (call_deposit user amount) v = if text_eq user v then amount else zero_bigint
effect (call_withdraw user amount) v = if text_eq user v then zero_bigint -ℤ amount else zero_bigint
effect (call_debit settler user amount settlement_id created_at) v =
    if text_eq user v then zero_bigint -ℤ amount else zero_bigint
effect _ v = zero_bigint

add_zero : (z : ℤ) → z ≡ z +ℤ zero_bigint
add_zero z = grind int_laws

-- An assignment that adds `a` to a user's balance.
moved :
    (user v : Text) (a x : ℤ) (before after : List (Text × ℤ))
    → after ≡ assign user x before
    → x ≡ given (lookup user before) zero_bigint +ℤ a
    → given (lookup v after) zero_bigint
      ≡ given (lookup v before) zero_bigint +ℤ (if text_eq user v then a else zero_bigint)
moved user v a x before after e f = elim (Bool-cases (text_eq user v)) [
  | inl same ↦
      let here = (text_eq_iff user v).0 same in
      rw (e, lookup-assign_if user v x before, same) (f ∙ rw here)
  | inr apart ↦ rw (e, lookup-assign_if user v x before, apart) (add_zero _)
]

sub_as_add : (z a : ℤ) → z -ℤ a ≡ z +ℤ (zero_bigint -ℤ a)
sub_as_add z a = grind int_laws

deposit-eq-ok :
    (user : Text) (amount : ℤ) (s s' : SpendEscrowMemory)
    → deposit user amount s ≡ ok s'
    → (zero_bigint <ℤ amount)
      × (s' ≡ record s {
        balances = assign user (given (lookup user s.balances) zero_bigint +ℤ amount) s.balances;
      })
unfolding deposit
deposit-eq-ok user amount s s' e = ground arith

withdraw-eq-ok :
    (user : Text) (amount : ℤ) (s s' : SpendEscrowMemory)
    → withdraw user amount s ≡ ok s'
    → (zero_bigint <ℤ amount)
      × (amount ≤ℤ given (lookup user s.balances) zero_bigint)
      × (s' ≡ record s {
        balances = assign user (given (lookup user s.balances) zero_bigint -ℤ amount) s.balances;
      })
unfolding withdraw
withdraw-eq-ok user amount s s' e = ground arith

-- What a settlement requires.
pub record Allowed (settler user : Text) (amount : ℤ) (s : SpendEscrowMemory) : Type 0 where
  pub settler_known : has settler s.settlers ≡ true
  pub positive : zero_bigint <ℤ amount
  pub covered : amount ≤ℤ balance_of s user
  pub within_limit :
      (given (lookup user s.spend_limits) zero_bigint ≤ℤ zero_bigint)
      ⊎ (amount ≤ℤ given (lookup user s.spend_limits) zero_bigint)

debit-eq-ok :
    (settler user : Text) (amount : ℤ) (id at : Text) (s s' : SpendEscrowMemory)
    (r : SettlementRecord)
    → debit_for_settlement settler user amount id at s ≡ ok (r, s')
    → Allowed settler user amount s
      × (r ≡ record { settlement_id = id; user = user; amount = amount; created_at = at })
      × (s' ≡ record s {
        balances = assign user (given (lookup user s.balances) zero_bigint -ℤ amount) s.balances;
        settlements = s.settlements ++ (r ∷ []);
      })
unfolding debit_for_settlement balance_of
debit-eq-ok settler user amount id at s s' r e = ground arith

set_spend_limit-eq-ok :
    (user : Text) (limit : ℤ) (s s' : SpendEscrowMemory)
    → set_spend_limit user limit s ≡ ok s'
    → s'.balances ≡ s.balances
unfolding set_spend_limit
set_spend_limit-eq-ok user limit s s' e = ground arith

set_settler-balances :
    (address : Text) (allowed : Bool) (s : SpendEscrowMemory)
    → (set_settler address allowed s).balances ≡ s.balances
unfolding set_settler
set_settler-balances address true s = refl
set_settler-balances address false s = refl

unmoved :
    (v : Text) (before after : List (Text × ℤ))
    → after ≡ before
    → given (lookup v after) zero_bigint ≡ given (lookup v before) zero_bigint +ℤ zero_bigint
unmoved v before after e = rw e (add_zero _)

abbrev balances : SpendEscrowMemory → List (Text × ℤ)
balances s = s.balances

-- A call that succeeds moves the balance of every user by its effect on that user.
pub balance_of-perform :
    (call : Call) (s s' : SpendEscrowMemory) (v : Text)
    → perform call s ≡ ok s'
    → balance_of s' v ≡ balance_of s v +ℤ effect call v
unfolding perform balance_of effect
balance_of-perform (call_set_settler address allowed) s s' v e =
    let same : s' ≡ set_settler address allowed s = cc in
    unmoved v s.balances s'.balances (ap balances same ∙ set_settler-balances address allowed s)
balance_of-perform (call_deposit user amount) s s' v e =
    let (_, same) = deposit-eq-ok user amount s s' e in
    moved user v amount _ s.balances s'.balances (ap balances same) refl
balance_of-perform (call_withdraw user amount) s s' v e =
    let (_, _, same) = withdraw-eq-ok user amount s s' e in
    moved user v (zero_bigint -ℤ amount) _ s.balances s'.balances (ap balances same)
      (sub_as_add _ amount)
balance_of-perform (call_set_spend_limit user amount) s s' v e =
    unmoved v s.balances s'.balances (set_spend_limit-eq-ok user amount s s' e)
balance_of-perform (call_debit settler user amount id at) s s' v e =
    let ((r, t), done, same) =
      >>=-eq-ok (debit_for_settlement settler user amount id at s)
        (λ (d : SettlementRecord × SpendEscrowMemory). ok d.1) e in
    let (_, _, after) = debit-eq-ok settler user amount id at s t r done in
    let settled : s' ≡ t = cc in
    moved user v (zero_bigint -ℤ amount) _ s.balances s'.balances (ap balances (settled ∙ after))
      (sub_as_add _ amount)

-- A settlement succeeds exactly when the caller is a settler, the amount is positive and covered by
-- the user's balance, and the user has no limit above 0 that it exceeds.
pub debit_for_settlement_iff :
    (settler user : Text) (amount : ℤ) (id at : Text) (s : SpendEscrowMemory)
    → ((r : SettlementRecord) × (s' : SpendEscrowMemory) × (debit_for_settlement settler user amount
            id at s
          ≡ ok (r, s')))
      ↔ Allowed settler user amount s
unfolding debit_for_settlement balance_of
debit_for_settlement_iff settler user amount id at s = (
  λ (r, s', e). (debit-eq-ok settler user amount id at s s' r e).0,
  λ a.
      let known = a.settler_known in
      let more = a.positive in
      let enough = a.covered in
      let limited = a.within_limit in
      (
        record { settlement_id = id; user = user; amount = amount; created_at = at },
        record s {
          balances = assign user (given (lookup user s.balances) zero_bigint -ℤ amount) s.balances;
          settlements =
              s.settlements
              ++ (record { settlement_id = id; user = user; amount = amount; created_at = at }
                  ∷ []);
        },
        ground arith,
      ),
)

-- A user whose balance covers the amount stays at 0 or above.
stays_covered :
    (user v : Text) (amount : ℤ) (s : SpendEscrowMemory)
    → zero_bigint ≤ℤ balance_of s v
    → amount ≤ℤ balance_of s user
    → zero_bigint
      ≤ℤ balance_of s v +ℤ (if text_eq user v then zero_bigint -ℤ amount else zero_bigint)
stays_covered user v amount s h c = elim (Bool-cases (text_eq user v)) [
  | inl e ↦
      let here = (text_eq_iff user v).0 e in
      let enough : amount ≤ℤ balance_of s v = rw here at c in rw e (grind int_laws)
  | inr e ↦ rw e (grind int_laws)
]

effect-covered :
    (call : Call) (s s' : SpendEscrowMemory) (v : Text)
    → perform call s ≡ ok s'
    → zero_bigint ≤ℤ balance_of s v
    → zero_bigint ≤ℤ balance_of s v +ℤ effect call v
unfolding perform effect
effect-covered (call_set_settler address allowed) s s' v e h = grind int_laws
effect-covered (call_deposit user amount) s s' v e h =
    let (more, _) = deposit-eq-ok user amount s s' e in
    if_both (λ a. zero_bigint ≤ℤ balance_of s v +ℤ a) (text_eq user v) (grind int_laws)
      (grind int_laws)
effect-covered (call_withdraw user amount) s s' v e h =
    let (_, enough, _) = withdraw-eq-ok user amount s s' e in
    stays_covered user v amount s h (unfold balance_of in enough)
effect-covered (call_set_spend_limit user amount) s s' v e h = grind int_laws
effect-covered (call_debit settler user amount id at) s s' v e h =
    let ((r, t), done, same) =
      >>=-eq-ok (debit_for_settlement settler user amount id at s)
        (λ (d : SettlementRecord × SpendEscrowMemory). ok d.1) e in
    stays_covered user v amount s h (debit-eq-ok settler user amount id at s t r done).0.covered

abbrev Positive : SettlementRecord → Type 0
Positive r = zero_bigint <ℤ r.amount

same_settlements :
    (s s' : SpendEscrowMemory)
    → s'.settlements ≡ s.settlements
    → All Positive s.settlements
    → All Positive s'.settlements
same_settlements s s' e h = subst (All Positive) (sym e) h

settlements-Positive :
    (call : Call) (s s' : SpendEscrowMemory)
    → perform call s ≡ ok s'
    → All Positive s.settlements
    → All Positive s'.settlements
unfolding perform set_settler deposit withdraw set_spend_limit
settlements-Positive (call_set_settler address true) s s' e h =
    same_settlements s s' (ground arith) h
settlements-Positive (call_set_settler address false) s s' e h =
    same_settlements s s' (ground arith) h
settlements-Positive (call_deposit user amount) s s' e h = same_settlements s s' (ground arith) h
settlements-Positive (call_withdraw user amount) s s' e h = same_settlements s s' (ground arith) h
settlements-Positive (call_set_spend_limit user amount) s s' e h =
    same_settlements s s' (ground arith) h
settlements-Positive (call_debit settler user amount id at) s s' e h =
    let ((r, t), done, same) =
      >>=-eq-ok (debit_for_settlement settler user amount id at s)
        (λ (d : SettlementRecord × SpendEscrowMemory). ok d.1) e in
    let (allowed, is, after) = debit-eq-ok settler user amount id at s t r done in
    let settled : s' ≡ t = cc in
    let more : zero_bigint <ℤ r.amount = rw is allowed.positive in
    subst (All Positive) (sym (ap (λ (u : SpendEscrowMemory). u.settlements) (settled ∙ after)))
      (All-append Positive s.settlements (r ∷ []) h (more, tt))

-- No balance is ever below 0, and every settlement on record had a positive amount.
pub Reachable-solvent :
    (s : SpendEscrowMemory)
    → Reachable s
    → ((v : Text) → zero_bigint ≤ℤ balance_of s v)
      × All (λ (r : SettlementRecord). zero_bigint <ℤ r.amount) s.settlements
unfolding balance_of
Reachable-solvent s start = (λ v. unfold lookup in omega arith, tt)
Reachable-solvent s (step {s = before} call h e) =
    let (solvent, positive) = Reachable-solvent before h in
    (
      λ v. rw (balance_of-perform call before s v e) (effect-covered call before s v e (solvent v)),
      settlements-Positive call before s e positive,
    )
