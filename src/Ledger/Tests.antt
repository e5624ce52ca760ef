-- ===== src/Ledger/Tests.antt =====
-- Runs of the credits ledger, and its properties at a new file.
use decentralized_dns.Prelude.{
  ◌≡◌, refl, false, [], ◌∷◌, pos, ◌+ℤ◌, ◌-ℤ◌, codes, text_eq, trim, to_lower_case, ok, err,
}
use decentralized_dns.Prelude.Doubles.{Double, finite, nan}
use decentralized_dns.Prelude.Maps.{lookup, assign}
use decentralized_dns.Ledger.{
  CreditsLedgerEntry, File, missing, stored, kind_debit, ensure_store, normalize_key, is_inherited,
  number_or_zero, read_balance, written_balances, save_store, set_property, post, get_balance,
  credit, debit, transact, estimate_renewal_subsidy,
}
use decentralized_dns.Ledger.Moves.{Solvent-kept}
use decentralized_dns.Ledger.Amounts.{Solvent}

runs : Unit {0}
unfolding text_eq trim to_lower_case lookup assign ◌+ℤ◌ ◌-ℤ◌ ensure_store normalize_key is_inherited
    number_or_zero read_balance written_balances save_store set_property post get_balance credit
    debit transact estimate_renewal_subsidy
runs = tt

abbrev ten : Double
ten = finite (pos 10)

abbrev entry : CreditsLedgerEntry
entry = record {
  domain_or_owner = codes "active.com";
  amount = ten;
  reason = codes "debit";
  ts = codes "now";
  kind = kind_debit;
}

abbrev after : File
after = stored (record {
  balances =
      (codes "good-traffic.com", finite (pos 180))
      ∷ (codes "low-traffic.com", finite (pos 20))
      ∷ (codes "active.com", finite (pos 65))
      ∷ [];
  entries = entry ∷ [];
})

debits :
    transact kind_debit (codes " Active.com") ten [] (codes "now") missing
    ≡ ok (finite (pos 65), after)
unfolding runs
debits = refl

refused :
    debit (codes "active.com") (finite (pos 80)) [] (codes "now") missing
    ≡ err "insufficient_credits"
unfolding runs
refused = refl

-- The name of an inherited property reads as no number, and a debit from it is not refused.
inherited_reads : (get_balance (codes "constructor") missing).0 ≡ nan
unfolding runs
inherited_reads = refl

inherited_debit :
    (f : File) × (debit (codes "constructor") ten [] (codes "now") missing ≡ ok (nan, f))
unfolding runs
inherited_debit = (_, refl)

missing-Solvent : Solvent missing
unfolding runs
missing-Solvent = ((180, refl), ((20, refl), ((75, refl), tt)))

Solvent-kept_example : Solvent after × Solvent (get_balance (codes " Active.com") missing).1
Solvent-kept_example =
    Solvent-kept kind_debit (codes " Active.com") ten [] (codes "now") missing after
      (finite (pos 65)) missing-Solvent debits

not_inherited : is_inherited (normalize_key (codes " Active.com")) ≡ false
unfolding runs
not_inherited = refl
