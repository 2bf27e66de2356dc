-- ===== src/Table/Claim/Lost.antt =====
-- A claim that arrives while its slot is being stopped.
use tentacles.Base.{ℕ, ◌≡◌, refl, true, false, some, List, ◌∷◌, arith, text_eq_iff}
use tentacles.Slot.{idle, stopping, ClaimJob}
use tentacles.Table.{SlotRec, Table, set_state, at_ref, modify, update}
use tentacles.Table.Claim.{claim_rec, claim_slots, claim}
use tentacles.Table.Surplus.{revert_rec}

-- If an idle slot is marked for a stop, its runner's job is claimed, and the stop then fails, the
-- claim has been answered with success and the slot is what it was before: idle, with no claimed
-- job. The slot is the first that the map's iteration meets.
pub lost_claim :
    (t : Table) (job : ClaimJob) (now : ℕ) (r : SlotRec) (rs : List SlotRec)
    → t.slots ≡ r ∷ rs
    → r.state ≡ idle
    → r.runner_name ≡ job.runner_name
    → r.cleanup_pending ≡ false
    → r.cleaning ≡ false
    → let claimed = claim job now (update r.ref (set_state stopping) t) in
      (claimed.1 ≡ true) × (at_ref r.ref (update r.ref (revert_rec idle) claimed.0).slots ≡ some r)
unfolding claim update
lost_claim t job now r rs e i n p c = rw e (
    rw (marked r rs, claims (set_state stopping r) (modify r.ref (set_state stopping) rs))
      (refl, reverted r _))
  where
    marked :
        (r : SlotRec) (rs : List SlotRec)
        → modify r.ref (set_state stopping) (r ∷ rs)
          ≡ set_state stopping r ∷ modify r.ref (set_state stopping) rs
    marked r rs = unfold modify in ground arith

    claims :
        (x : SlotRec) (xs : List SlotRec)
        → claim_slots job now (set_state stopping r ∷ xs) ≡ (set_state stopping r ∷ xs, true)
    claims x xs =
        unfold claim_slots claim_rec in ground (arith, text_eq_iff r.runner_name job.runner_name)

    reverted :
        (x : SlotRec) (xs : List SlotRec)
        → at_ref r.ref (modify r.ref (revert_rec idle) (set_state stopping r ∷ xs)) ≡ some r
    reverted x xs = unfold modify at_ref revert_rec in ground arith
