-- ===== src/Table/Invariant/Records.antt =====
-- The changes that the sections make to one record, and the loops that look for that record.
use tentacles.Base.{
  ℕ, ◌≡◌, inl, inr, Bool, false, List, [], ◌∷◌, Text, arith, ◌==◌, text_eq, Bool-cases, ◌&&◌,
}
use tentacles.Slot.{SlotId, State, stopping, ClaimJob, Usage, is_live}
use tentacles.Table.{SlotRec}
use tentacles.Table.Claim.{mark_busy_slots, mark_busy_rec, claim_slots, claim_rec, result_slots}
use tentacles.Table.Clean.{mark_cleaning}
use tentacles.Table.Exit.{exit_rec}
use tentacles.Table.Start.{set_idle}
use tentacles.Table.Surplus.{revert_rec}
use tentacles.Table.Laws.{KeepsIdentity, Pointwise, SameIdentity, Pointwise-refl}
use tentacles.Table.Sample.{sample_rec}
use tentacles.Table.Invariant.{IsSound}

-- The loops that change at most one record, by a change of its own.
module _ (R : SlotRec → SlotRec → Type 0) (same : (r : SlotRec) → R r r) where
  pub claim_slots-Pointwise :
      (job : ClaimJob) (now : ℕ) (rs : List SlotRec)
      → ((r : SlotRec) → R r (claim_rec job now r))
      → Pointwise R rs (claim_slots job now rs).0
  unfolding claim_slots
  claim_slots-Pointwise job now [] h = tt
  claim_slots-Pointwise job now (r ∷ rs) h =
      elim (Bool-cases (text_eq r.runner_name job.runner_name)) [
        | inl e ↦ rw e (h r, Pointwise-refl R rs same)
        | inr e ↦ rw e (same r, claim_slots-Pointwise job now rs h)
      ]

  pub mark_busy_slots-Pointwise :
      (i : SlotId) (now : ℕ) (rs : List SlotRec)
      → ((r : SlotRec) → R r (mark_busy_rec now r))
      → Pointwise R rs (mark_busy_slots i now rs)
  unfolding mark_busy_slots
  mark_busy_slots-Pointwise i now [] h = tt
  mark_busy_slots-Pointwise i now (r ∷ rs) h = elim (Bool-cases (r.id == i)) [
    | inl e ↦ rw e (h r, Pointwise-refl R rs same)
    | inr e ↦ rw e (same r, mark_busy_slots-Pointwise i now rs h)
  ]

  pub result_slots-Pointwise :
      (name res : Text) (rs : List SlotRec)
      → ((r : SlotRec) → R r (record r { result = res }))
      → Pointwise R rs (result_slots name res rs)
  unfolding result_slots
  result_slots-Pointwise name res [] h = tt
  result_slots-Pointwise name res (r ∷ rs) h =
      elim (Bool-cases (text_eq r.runner_name name && is_live r.state)) [
        | inl e ↦ rw e (h r, Pointwise-refl R rs same)
        | inr e ↦ rw e (same r, result_slots-Pointwise name res rs h)
      ]

-- The changes of a record, one lemma each.
pub claim_rec-IsSound :
    (b : ℕ) (job : ClaimJob) (now : ℕ) (r : SlotRec) → IsSound b r → IsSound b (claim_rec job now r)
unfolding claim_rec
claim_rec-IsSound b job now r s = ground arith

pub claim_rec_same : (job : ClaimJob) (now : ℕ) (r : SlotRec) → SameIdentity r (claim_rec job now r)
unfolding claim_rec
claim_rec_same job now r = ground arith

pub mark_busy_rec-IsSound :
    (b now : ℕ) (r : SlotRec) → IsSound b r → IsSound b (mark_busy_rec now r)
unfolding mark_busy_rec
mark_busy_rec-IsSound b now r s = ground arith

pub mark_busy_rec_same : (now : ℕ) (r : SlotRec) → SameIdentity r (mark_busy_rec now r)
unfolding mark_busy_rec
mark_busy_rec_same now r = ground arith

pub sample_rec-IsSound :
    (b : ℕ) (u : Usage) (r : SlotRec) → IsSound b r → IsSound b (sample_rec u r)
unfolding sample_rec
sample_rec-IsSound b u r s = ground arith

pub sample_rec_same : (u : Usage) → KeepsIdentity (sample_rec u)
unfolding sample_rec
sample_rec_same u r = ground arith

pub set_idle-IsSound : (b now : ℕ) (r : SlotRec) → IsSound b r → IsSound b (set_idle now r)
unfolding set_idle
set_idle-IsSound b now r s = ground arith

pub revert_rec-IsSound :
    (b : ℕ) (st : State) (r : SlotRec)
    → r.claimed ≡ false
    → IsSound b r
    → IsSound b (revert_rec st r)
unfolding revert_rec
revert_rec-IsSound b st r c s = ground arith

pub revert_rec_same : (st : State) → KeepsIdentity (revert_rec st)
unfolding revert_rec
revert_rec_same st r = ground arith

pub exit_rec-IsSound :
    (b : ℕ) (has_hook : Bool) (grace now : ℕ) (r : SlotRec)
    → IsSound b r
    → IsSound b (exit_rec has_hook grace now r)
unfolding exit_rec
exit_rec-IsSound b has_hook grace now r s = ground arith

pub mark_cleaning-IsSound :
    (b : ℕ) (r : SlotRec) → r.state ≡ stopping → IsSound b r → IsSound b (mark_cleaning r)
unfolding mark_cleaning
mark_cleaning-IsSound b r st s = ground arith
