-- ===== src/Coordinator/Solvent/Verdict.antt =====
-- finalizeHold of coordinator/src/routes/comments.ts keeps the credits and the holds solvent.
use decentralized_dns.Prelude.{
  ◌≡◌, refl, ◌||◌, Option, some, none, inl, inr, ◌⊎◌, Text, String, if_both, subst,
}
use decentralized_dns.Prelude.Doubles.{Double, less}
use decentralized_dns.Prelude.Maps.{lookup, All-assign, All-lookup}
use decentralized_dns.Coordinator.{CreditsState}
use decentralized_dns.Coordinator.Comments.{
  HoldStatus, is_approved, CommentHold, CommentState, Outcome, trimmed, is_blank, status_of,
  conclude, finalize_status, finalize_found, finalize_hold,
}
use decentralized_dns.Coordinator.Solvent.{NotNegative, Balances, given-Balances}
use decentralized_dns.Coordinator.Solvent.Holds.{Both}

-- What `finalizeHold` leaves, and the amount of the hold that it returns.
pub record Concluded (o : Outcome CommentHold) : Type 0 where
  pub both : Both o.credits o.comments
  pub amount : (h : CommentHold) → o.answer ≡ inr h → NotNegative h.amount

refusal-Concluded :
    (message : String) (credits : CreditsState) (c : CommentState)
    → Both credits c
    → Concluded (record { answer = inl message; credits = credits; comments = c })
refusal-Concluded message credits c v = record { both = v; amount = λ h e. cc }

inr_injective : {a b : CommentHold} → ◌≡◌ {A = String ⊎ CommentHold} (inr a) (inr b) → a ≡ b
inr_injective e = cc

conclude-Concluded :
    (credits : CreditsState) (c : CommentState) (k : Text) (h : CommentHold) (status : HoldStatus)
    → NotNegative h.amount
    → Both credits c
    → Concluded (conclude credits c k h status)
unfolding conclude
conclude-Concluded credits c k h status n v = record {
  both = record {
    balances =
        if_both (λ (s : CreditsState). Balances s.credits) (is_approved status)
          (given-Balances credits h.wallet h.amount v.balances n) v.balances;
    amounts = All-assign (λ _ y. NotNegative y.amount) k _ c.holds n v.amounts;
  };
  amount = λ x e.
      let same : record h { status = status } ≡ x = inr_injective e in
      subst (λ (y : CommentHold). NotNegative y.amount) same n;
}

finalize_status-Concluded :
    (credits : CreditsState) (c : CommentState) (k : Text) (h : CommentHold)
    (status : Option HoldStatus)
    → NotNegative h.amount
    → Both credits c
    → Concluded (finalize_status credits c k h status)
unfolding finalize_status
finalize_status-Concluded credits c k h none n v = refusal-Concluded "INVALID_RESULT" credits c v
finalize_status-Concluded credits c k h (some status) n v =
    conclude-Concluded credits c k h status n v

finalize_found-Concluded :
    (credits : CreditsState) (c : CommentState) (k verdict : Text) (now : Double)
    (found : Option CommentHold)
    → lookup k c.holds ≡ found
    → Both credits c
    → Concluded (finalize_found credits c k verdict now found)
unfolding finalize_found
finalize_found-Concluded credits c k verdict now none e v =
    refusal-Concluded "TICKET_NOT_FOUND" credits c v
finalize_found-Concluded credits c k verdict now (some h) e v =
    if_both Concluded (less h.expires_at now) (refusal-Concluded "TICKET_EXPIRED" credits c v) (
      finalize_status-Concluded credits c k h (status_of verdict)
        (All-lookup (λ _ y. NotNegative y.amount) k c.holds h v.amounts e) v)

pub finalize_hold-Concluded :
    (credits : CreditsState) (c : CommentState) (ticket result : Option Text) (now : Double)
    → Both credits c
    → Concluded (finalize_hold credits c ticket result now)
unfolding finalize_hold
finalize_hold-Concluded credits c ticket result now v =
    if_both Concluded (is_blank (trimmed ticket) || is_blank (trimmed result))
      (refusal-Concluded "INVALID_REQUEST" credits c v)
      (finalize_found-Concluded credits c (trimmed ticket) (trimmed result) now _ refl v)
