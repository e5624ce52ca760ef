-- ===== src/Coordinator/Interleaved/Keeps.antt =====
-- What holds of the coordinator (coordinator/src/server.ts) for every interleaving of its calls, and what an interleaving undoes.
use decentralized_dns.Prelude.{ℕ, zero, suc, refl, List, [], ◌∷◌, Option, Text, if_both}
use decentralized_dns.Prelude.All.{All}
use decentralized_dns.Prelude.Doubles.{Double}
use decentralized_dns.Coordinator.{ReceiptEnvelope}
use decentralized_dns.Coordinator.Comments.{is_blank}
use decentralized_dns.Coordinator.Receipts.{
  Checks, validate_receipt_shape, validate_and_apply_receipt, apply_admitted,
}
use decentralized_dns.Coordinator.Handlers.{
  Coordinator, CoordinatorConfig, Pending, begin_receipt, end_receipt,
}
use decentralized_dns.Coordinator.Payouts.Effects.{validate_shaped-credits, apply_admitted-Applied}
use decentralized_dns.Coordinator.Solvent.{Solvent, Balances}
use decentralized_dns.Coordinator.Solvent.Calls.{
  PaysNotNegative, cap_receipt-Solvent, Applied-Balances, perform-Solvent,
}
use decentralized_dns.Coordinator.Interleaved.{
  World, Event, calls, begins, ends, push, without, number, end_found, happen, happen_all,
}

abbrev pub Snapshots : List Pending → Type 0
Snapshots ps = All (λ p. Balances p.before.credits.credits) ps

pub record Sound (w : World) : Type 0 where
  pub solvent : Solvent w.coordinator
  pub snapshots : Snapshots w.pending

without-Snapshots : (i : ℕ) (ps : List Pending) → Snapshots ps → Snapshots (without i ps)
without-Snapshots i [] h = h
without-Snapshots zero (p ∷ ps) (h, hs) = hs
without-Snapshots (suc i) (p ∷ ps) (h, hs) = (h, without-Snapshots i ps hs)

module _ (checks : Checks) (cfg : CoordinatorConfig) (pays : PaysNotNegative cfg) where
  end_receipt-Solvent :
      (today : Text) (later : Double) (p : Pending) (s : Coordinator)
      → Balances p.before.credits.credits
      → Solvent s
      → Solvent (end_receipt checks cfg today later p s).1
  unfolding end_receipt
  end_receipt-Solvent today later p s b v =
      let applied = apply_admitted checks cfg.receipts p.envelope later p.problem s.credits in
      cap_receipt-Solvent checks cfg p.envelope today p.before (record s { credits = applied.1 })
        applied.0 b
        (record {
          balances = Applied-Balances cfg p.envelope s.credits applied pays v.balances (
              apply_admitted-Applied checks cfg.receipts p.envelope later s.credits s.credits
                p.problem refl);
          holds = v.holds;
          pools = v.pools;
        })

  end_found-Solvent :
      (today : Text) (later : Double) (i : ℕ) (ps : List Pending) (s : Coordinator)
      → Snapshots ps
      → Solvent s
      → Solvent (end_found checks cfg today later (number i ps) s)
  end_found-Solvent today later i [] s h v = v
  end_found-Solvent today later zero (p ∷ ps) s (h, hs) v = end_receipt-Solvent today later p s h v
  end_found-Solvent today later (suc i) (p ∷ ps) s (h, hs) v =
      end_found-Solvent today later i ps s hs v

  begins-Sound :
      (e : ReceiptEnvelope) (now : Double) (w : World)
      → Sound w
      → Sound (happen checks cfg (begins e now) w)
  unfolding happen begin_receipt validate_and_apply_receipt
  begins-Sound e now w h =
      if_both
        (λ (b : Option Pending × Coordinator).
          Sound (record { coordinator = b.1; pending = push b.0 w.pending }))
        (is_blank e.receipt.node_id) h
        (record {
          solvent = record {
            balances =
                rw
                  (validate_shaped-credits checks cfg.receipts e now w.coordinator.credits
                    (validate_receipt_shape e))
                  h.solvent.balances;
            holds = h.solvent.holds;
            pools = h.solvent.pools;
          };
          snapshots = (h.solvent.balances, h.snapshots);
        })

  happen-Sound : (event : Event) (w : World) → Sound w → Sound (happen checks cfg event w)
  unfolding happen
  happen-Sound (calls call) w h = record {
    solvent = perform-Solvent checks cfg call w.coordinator pays h.solvent;
    snapshots = h.snapshots;
  }
  happen-Sound (begins e now) w h = begins-Sound e now w h
  happen-Sound (ends i today later) w h = record {
    solvent = end_found-Solvent today later i w.pending w.coordinator h.snapshots h.solvent;
    snapshots = without-Snapshots i w.pending h.snapshots;
  }

  -- If what receipts pay is not negative: however calls and the two pieces of receipts interleave, no wallet's balance,
  -- no hold and no site's pool is ever below 0, if none was at the start and none of the balances that
  -- waiting receipts have read. (They can be infinite or NaN.)
  pub happen_all-Sound :
      (events : List Event) (w : World) → Sound w → Sound (happen_all checks cfg events w)
  unfolding happen_all
  happen_all-Sound [] w h = h
  happen_all-Sound (event ∷ events) w h =
      happen_all-Sound events (happen checks cfg event w) (happen-Sound event w h)
