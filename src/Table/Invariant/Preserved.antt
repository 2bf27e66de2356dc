-- ===== src/Table/Invariant/Preserved.antt =====
-- Every section keeps the invariant.
use tentacles.Base.{
  ℕ, suc, ◌≤◌, ◌≡◌, refl, inl, inr, none, List, [], ◌∷◌, Text, arith, All, text_eq, Bool-cases,
}
use tentacles.Slot.{Slot, SlotId, ClaimJob}
use tentacles.UnitName.{max_slot_id}
use tentacles.Table.{SlotRec, Table, at_id, set_desired, close}
use tentacles.Table.Claim.{mark_busy, claim, mark_result, result_slots}
use tentacles.Table.Clean.{begin_clean, mark_cleaning, unmark}
use tentacles.Table.Exit.{exit_rec}
use tentacles.Base.Float.{FloatOps}
use tentacles.Table.Start.{
  Places, Attempt, reserve, name_runner, name_rec, set_idle, new_rec, fresh_slot,
}
use tentacles.Table.Laws.{FreshRef, Distinct-remove, at_id-none, SameIdentity}
use tentacles.Table.Adopt.{track}
use tentacles.Table.Steps.{
  Step, claims, marks_busy, results, samples, sets_desired, closes, reserves, names, becomes_idle,
  stays_busy, becomes_stopping, reverts, exits, begins_clean, ends_clean, deletes, tells, Reach,
  here, next, tracks,
}
use tentacles.Table.Sample.{sample}
use tentacles.Table.Invariant.{IsSound, Inv, All-remove, At-any, update-Inv, Pointwise-Inv}
use tentacles.Table.Invariant.Records.{
  claim_slots-Pointwise, mark_busy_slots-Pointwise, result_slots-Pointwise, claim_rec-IsSound,
  claim_rec_same, mark_busy_rec-IsSound, mark_busy_rec_same, sample_rec-IsSound, sample_rec_same,
  set_idle-IsSound, revert_rec-IsSound, revert_rec_same, exit_rec-IsSound, mark_cleaning-IsSound,
}

claim-Inv : (t : Table) (job : ClaimJob) (now : ℕ) → Inv t → Inv (claim job now t).0
unfolding claim
claim-Inv t job now =
    Pointwise-Inv t _
      (claim_slots-Pointwise SameIdentity (λ r. (refl, refl)) job now t.slots
        (claim_rec_same job now))
      (claim_slots-Pointwise (λ r s. IsSound t.next_ref r → IsSound t.next_ref s) (λ r s. s) job now
        t.slots (claim_rec-IsSound t.next_ref job now))

mark_busy-Inv : (t : Table) (i : SlotId) (now : ℕ) → Inv t → Inv (mark_busy i now t)
unfolding mark_busy
mark_busy-Inv t i now =
    Pointwise-Inv t _
      (mark_busy_slots-Pointwise SameIdentity (λ r. (refl, refl)) i now t.slots
        (mark_busy_rec_same now))
      (mark_busy_slots-Pointwise (λ r s. IsSound t.next_ref r → IsSound t.next_ref s) (λ r s. s) i
        now t.slots (mark_busy_rec-IsSound t.next_ref now))

result_slots-Inv :
    (t : Table) (name res : Text) → Inv t → Inv (record t { slots = result_slots name res t.slots })
result_slots-Inv t name res =
    Pointwise-Inv t _
      (result_slots-Pointwise SameIdentity (λ r. (refl, refl)) name res t.slots (λ r. (refl, refl)))
      (result_slots-Pointwise (λ r s. IsSound t.next_ref r → IsSound t.next_ref s) (λ r s. s) name
        res t.slots (λ r s. ground arith))

mark_result-Inv : (t : Table) (name res : Text) → Inv t → Inv (mark_result name res t)
unfolding mark_result
mark_result-Inv t name res v = elim (Bool-cases (text_eq res [])) [
  | inl e ↦ rw e v
  | inr e ↦ rw e (result_slots-Inv t name res v)
]

IsSound-weaken : (b : ℕ) (rs : List SlotRec) → All (IsSound b) rs → All (IsSound (suc b)) rs
IsSound-weaken b [] h = tt
IsSound-weaken b (r ∷ rs) h = (ground arith, IsSound-weaken b rs h.1)

pub FreshRef-of_IsSound : (b : ℕ) (rs : List SlotRec) → All (IsSound b) rs → FreshRef b rs
FreshRef-of_IsSound b [] h = tt
FreshRef-of_IsSound b (r ∷ rs) h = (omega arith, FreshRef-of_IsSound b rs h.1)

reserve-Inv :
    (fl : FloatOps) (places : Places) (a : Attempt) (i : SlotId) (t : Table)
    → at_id i t.slots ≡ none
    → 1 ≤ i
    → i ≤ max_slot_id
    → Inv t
    → Inv (reserve fl places a i t)
unfolding reserve new_rec fresh_slot
reserve-Inv fl places a i t free low high v = record {
  distinct =
      (at_id-none i t.slots free, FreshRef-of_IsSound t.next_ref t.slots v.sound, v.distinct);
  sound = (ground arith, IsSound-weaken t.next_ref t.slots v.sound);
}

track-Inv :
    (fl : FloatOps) (s : Slot) (t : Table)
    → at_id s.id t.slots ≡ none
    → 1 ≤ s.id
    → s.id ≤ max_slot_id
    → Inv t
    → Inv (track fl s t)
unfolding track new_rec
track-Inv fl s t free low high v = record {
  distinct =
      (at_id-none s.id t.slots free, FreshRef-of_IsSound t.next_ref t.slots v.sound, v.distinct);
  sound = (ground arith, IsSound-weaken t.next_ref t.slots v.sound);
}

-- No section of any goroutine breaks the invariant.
pub Step-Inv : {t u : Table} → Step t u → Inv t → Inv u
unfolding set_desired close name_runner name_rec sample set_idle exit_rec unmark begin_clean
    mark_cleaning
Step-Inv {t} (claims job now) v = claim-Inv t job now v
Step-Inv {t} (marks_busy i now) v = mark_busy-Inv t i now v
Step-Inv {t} (results name res) v = mark_result-Inv t name res v
Step-Inv {t} (samples p u) v =
    update-Inv _ p _ t (sample_rec_same u) (λ b r g. sample_rec-IsSound b u r) (At-any p t.slots) v
Step-Inv (sets_desired n) v = record { distinct = v.distinct; sound = v.sound }
Step-Inv closes v = record { distinct = v.distinct; sound = v.sound }
Step-Inv {t} (reserves fl places a i free low high) v = reserve-Inv fl places a i t free low high v
Step-Inv {t} (tracks fl s free low high) v = track-Inv fl s t free low high v
Step-Inv {t} (names places i p name) v =
    update-Inv _ p _ t (λ r. (refl, refl)) (λ b r g s. ground arith) (At-any p t.slots) v
Step-Inv {t} (becomes_idle p now) v =
    update-Inv _ p _ t (λ r. (refl, refl)) (λ b r g. set_idle-IsSound b now r) (At-any p t.slots) v
Step-Inv {t} (stays_busy p free) v =
    update-Inv _ p _ t (λ r. (refl, refl)) (λ b r g s. ground arith) free v
Step-Inv {t} (becomes_stopping p) v =
    update-Inv _ p _ t (λ r. (refl, refl)) (λ b r g s. ground arith) (At-any p t.slots) v
Step-Inv {t} (reverts p s unclaimed) v =
    update-Inv _ p _ t (revert_rec_same s) (λ b r. revert_rec-IsSound b s r) unclaimed v
Step-Inv {t} (exits p has_hook grace now) v =
    update-Inv _ p _ t (λ r. (refl, refl)) (λ b r g. exit_rec-IsSound b has_hook grace now r)
      (At-any p t.slots) v
Step-Inv {t} (begins_clean p gone) v =
    update-Inv _ p _ t (λ r. (refl, refl)) mark_cleaning-IsSound gone v
Step-Inv {t} (ends_clean p) v =
    update-Inv _ p _ t (λ r. (refl, refl)) (λ b r g s. ground arith) (At-any p t.slots) v
Step-Inv {t} (deletes p) v = record {
  distinct = Distinct-remove p t.slots v.distinct;
  sound = All-remove (IsSound t.next_ref) p t.slots v.sound;
}
Step-Inv (tells es) v = record { distinct = v.distinct; sound = v.sound }

-- The invariant holds after any sequence of sections, in whatever order the goroutines run them, from
-- a table in which it holds: no two records have an ID or an address in common, every ID is valid, a
-- slot that is being cleaned up is stopping, a completion is sent only with the release, and a slot
-- with a claimed job is busy or stopping.
pub Reach-Inv : {t u : Table} → Reach t u → Inv t → Inv u
Reach-Inv here v = v
Reach-Inv (next r s) v = Step-Inv s (Reach-Inv r v)
