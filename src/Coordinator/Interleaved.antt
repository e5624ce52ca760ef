-- ===== src/Coordinator/Interleaved.antt =====
-- Calls of the coordinator (coordinator/src/server.ts) as the event loop runs them: POST /receipts waits for the signature of its
-- receipt, and other calls run in between.
pub mod Keeps
pub mod Undone
use decentralized_dns.Prelude.{ℕ, zero, suc, List, [], ◌∷◌, Option, some, none, Text}
use decentralized_dns.Prelude.Doubles.{Double}
use decentralized_dns.Coordinator.{ReceiptEnvelope}
use decentralized_dns.Coordinator.Receipts.{Checks}
use decentralized_dns.Coordinator.Handlers.{
  Coordinator, CoordinatorConfig, Pending, begin_receipt, end_receipt,
}
use decentralized_dns.Coordinator.Solvent.Calls.{Call, perform}

pub record World : Type 0 where
  pub coordinator : Coordinator
  pub pending : List Pending

-- `ends i` goes on with the receipt number i of those that wait.
pub data Event : Type 0 where
  calls : (call : Call) → Event
  begins : (e : ReceiptEnvelope) (now : Double) → Event
  ends : (i : ℕ) (today : Text) (later : Double) → Event

abbrev pub push : Option Pending → List Pending → List Pending
push none ps = ps
push (some p) ps = p ∷ ps

abbrev pub without : ℕ → List Pending → List Pending
without i [] = []
without zero (p ∷ ps) = ps
without (suc i) (p ∷ ps) = p ∷ without i ps

abbrev pub number : ℕ → List Pending → Option Pending
number i [] = none
number zero (p ∷ ps) = some p
number (suc i) (p ∷ ps) = number i ps

abbrev pub end_found :
    Checks → CoordinatorConfig → Text → Double → Option Pending → Coordinator → Coordinator
end_found checks cfg today later none s = s
end_found checks cfg today later (some p) s = (end_receipt checks cfg today later p s).1

unfoldable pub happen : Checks → CoordinatorConfig → Event → World → World
unfolding perform begin_receipt end_receipt
happen checks cfg (calls call) w = record w { coordinator = perform checks cfg call w.coordinator }
happen checks cfg (begins e now) w =
    let begun = begin_receipt checks cfg e now w.coordinator in
    record { coordinator = begun.1; pending = push begun.0 w.pending }
happen checks cfg (ends i today later) w = record {
  coordinator = end_found checks cfg today later (number i w.pending) w.coordinator;
  pending = without i w.pending;
}

unfoldable pub happen_all : Checks → CoordinatorConfig → List Event → World → World
unfolding happen
happen_all checks cfg [] w = w
happen_all checks cfg (event ∷ events) w = happen_all checks cfg events (happen checks cfg event w)
