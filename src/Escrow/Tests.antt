-- ===== src/Escrow/Tests.antt =====
-- Runs of the escrow and of the voucher verifier, and their properties at concrete calls.
use decentralized_dns.Prelude.{
  ◌≡◌, ◌↔◌, refl, true, Option, none, some, [], ◌∷◌, ◌++◌, ℤ, pos, ◌+ℤ◌, ◌-ℤ◌, ◌≤ℤ◌, ◌<ℤ◌, Text,
  codes, text_eq, ok, err,
}
use decentralized_dns.Prelude.Doubles.{finite}
use decentralized_dns.Prelude.Maps.{lookup, assign}
use decentralized_dns.Prelude.All.{All}
use decentralized_dns.Escrow.{
  SettlementRecord, SpendEscrowMemory, empty_escrow, has, add, balance_of, debit_for_settlement,
  call_set_settler, call_deposit, call_debit, perform, Reachable, start, step, zero_bigint,
}
use decentralized_dns.Escrow.Balances.{effect, Reachable-solvent}
use decentralized_dns.Escrow.Vouchers.{
  VoucherPayload, SignedVoucher, VoucherVerifierMemory, accepted, nonce_too_low, sign, voucher_id,
  verify, verify_all,
}
use decentralized_dns.Escrow.Vouchers.Replay.{Valid, recorded, verify_iff, verify_once}

runs : Unit {0}
unfolding text_eq lookup assign has add balance_of perform effect ◌+ℤ◌ ◌-ℤ◌ sign voucher_id verify
    verify_all
runs = tt

abbrev ann : Text
ann = codes "ann"

abbrev bank : Text
bank = codes "bank"

abbrev funded : SpendEscrowMemory
funded = record {
  balances = (ann, pos 100) ∷ [];
  spend_limits = (ann, pos 40) ∷ [];
  settlers = bank ∷ [];
  settlements = [];
}

abbrev settlement : SettlementRecord
settlement = record {
  settlement_id = codes "s1";
  user = ann;
  amount = pos 30;
  created_at = codes "now";
}

abbrev settled : SpendEscrowMemory
settled = record funded { balances = (ann, pos 70) ∷ []; settlements = settlement ∷ [] }

settles : perform (call_debit bank ann (pos 30) (codes "s1") (codes "now")) funded ≡ ok settled
unfolding runs
settles = refl

over_limit :
    debit_for_settlement bank ann (pos 50) (codes "s2") (codes "now") funded
    ≡ err "spend_limit_exceeded"
unfolding runs debit_for_settlement
over_limit = refl

abbrev with_bank : SpendEscrowMemory
with_bank = record empty_escrow { settlers = bank ∷ [] }

abbrev with_money : SpendEscrowMemory
with_money = record with_bank { balances = (ann, pos 100) ∷ [] }

with_money-Reachable : Reachable with_money
unfolding runs
with_money-Reachable =
    step {s = with_bank} (call_deposit ann (pos 100))
      (step {s = empty_escrow} (call_set_settler bank true) start refl) refl

Reachable-solvent_example :
    ((v : Text) → zero_bigint ≤ℤ balance_of with_money v)
    × All (λ (r : SettlementRecord). zero_bigint <ℤ r.amount) with_money.settlements
Reachable-solvent_example = Reachable-solvent with_money with_money-Reachable

-- Stand-ins for the platform: the nonce is the text's length.
abbrev body_of : VoucherPayload → Text
body_of payload = payload.user ++ payload.nonce

abbrev keyed : Text → Text → Text
keyed secret body = secret ++ body

abbrev same_text : Text → Text
same_text t = t

abbrev size : Text → Option ℤ
size [] = none
size (c ∷ t) = some (pos 5)

abbrev secret : Text
secret = codes "key"

abbrev payload : VoucherPayload
payload = record {
  user = ann;
  nonce = codes "5";
  scope = record { max_amount = codes "10"; exp = finite (pos 900); resolver = none };
}

abbrev voucher : SignedVoucher
voucher = record { payload = payload; signature = codes "keyann5" }

abbrev unseen : VoucherVerifierMemory
unseen = record { last_nonce = []; used = [] }

abbrev seen : VoucherVerifierMemory
seen = record { last_nonce = (ann, pos 5) ∷ []; used = codes "ann5" ∷ [] }

voucher_accepted :
    verify body_of keyed same_text size secret voucher (finite (pos 800)) unseen
    ≡ ok (accepted, seen)
unfolding runs
voucher_accepted = refl

verify_iff_example :
    (verify body_of keyed same_text size secret voucher (finite (pos 800)) unseen
      ≡ ok (accepted, seen))
    ↔ ((nonce : ℤ) × Valid body_of keyed same_text size secret voucher
          (finite (pos 800))
          unseen
          nonce
        × (seen ≡ recorded body_of keyed same_text size secret voucher nonce unseen))
verify_iff_example =
    verify_iff body_of keyed same_text size secret voucher (finite (pos 800)) unseen seen

verify_once_example :
    verify body_of keyed same_text size secret voucher
      (finite (pos 850))
      (verify_all body_of keyed same_text size secret ((voucher, finite (pos 820)) ∷ []) seen)
    ≡ ok (
      nonce_too_low,
      verify_all body_of keyed same_text size secret ((voucher, finite (pos 820)) ∷ []) seen,
    )
verify_once_example =
    verify_once body_of keyed same_text size secret voucher (finite (pos 800)) unseen seen
      ((voucher, finite (pos 820)) ∷ []) (finite (pos 850)) voucher_accepted
