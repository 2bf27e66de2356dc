-- ===== src/Table/Invariant.antt =====
-- An invariant of a table, stated between any two sections.
pub mod Records
pub mod Preserved
use tentacles.Base.{
  ℕ, suc, ◌+◌, ◌≤◌, ◌<◌, ◌≡◌, refl, ◌⊎◌, inl, inr, ◌≢◌, Bool, true, false, Option, none, some, List,
  [], ◌∷◌, Text, arith, ltb, leb, ◌==◌, if◌then◌else◌, All, text_eq, Bool-cases, ◌&&◌,
}
use tentacles.Slot.{SlotId, State, busy, stopping, ClaimJob, Usage, is_live}
use tentacles.UnitName.{max_slot_id}
use tentacles.Table.{SlotRec, Table, set_state, at_id, modify, remove, update, set_desired, close}
use tentacles.Table.Claim.{
  mark_busy, mark_busy_slots, mark_busy_rec, claim, claim_slots, claim_rec, mark_result,
  result_slots,
}
use tentacles.Table.Clean.{begin_clean, mark_cleaning, unmark}
use tentacles.Table.Exit.{exit_rec}
use tentacles.Table.Start.{reserve, name_runner, name_rec, set_idle}
use tentacles.Table.Surplus.{revert_rec}
use tentacles.Table.Laws.{
  FreshId, FreshRef, Distinct, KeepsIdentity, Distinct-modify, Distinct-remove, at_id-none,
  Pointwise, SameIdentity, Pointwise-refl, Distinct-Pointwise, All-Pointwise,
}
use tentacles.Table.Steps.{
  At, Step, claims, marks_busy, results, samples, sets_desired, closes, reserves, names,
  becomes_idle, stays_busy, becomes_stopping, reverts, exits, begins_clean, ends_clean, deletes,
  tells, Reach, here, next,
}
use tentacles.Table.Sample.{sample, sample_rec}

-- One record: its ID is valid, a cleanup is only of a stopping slot, a completion is sent only with
-- the release, and a slot with a claimed job is busy or on its way out.
pub record IsSound (bound : ℕ) (r : SlotRec) : Type 0 where
  pub ref_below : r.ref < bound
  pub id_low : 1 ≤ r.id
  pub id_high : r.id ≤ max_slot_id
  pub cleaning_pending : r.cleaning ≡ true → r.cleanup_pending ≡ true
  pub pending_stopping : r.cleanup_pending ≡ true → r.state ≡ stopping
  pub sent_pending : r.completion_sent ≡ true → r.cleanup_pending ≡ true
  pub claimed_held : r.claimed ≡ true → (r.state ≡ busy) ⊎ (r.state ≡ stopping)

pub record Inv (t : Table) : Type 0 where
  pub distinct : Distinct t.slots
  pub sound : All (IsSound t.next_ref) t.slots

-- A change of the record at `p` that keeps what the invariant says of it, under a guard `G`.
pub All-modify :
    (P G : SlotRec → Type 0) (p : ℕ) (f : SlotRec → SlotRec) (rs : List SlotRec)
    → ((r : SlotRec) → G r → P r → P (f r))
    → At p G rs
    → All P rs
    → All P (modify p f rs)
unfolding modify
All-modify P G p f [] k g h = tt
All-modify P G p f (r ∷ rs) k g h = elim (Bool-cases (r.ref == p)) [
  | inl e ↦ rw e (k r (g.0 (ground arith)) h.0, All-modify P G p f rs k g.1 h.1)
  | inr e ↦ rw e (h.0, All-modify P G p f rs k g.1 h.1)
]

pub All-remove : (P : SlotRec → Type 0) (p : ℕ) (rs : List SlotRec) → All P rs → All P (remove p rs)
unfolding remove
All-remove P p [] h = tt
All-remove P p (r ∷ rs) h = ground (arith, All-remove P p rs h.1)

pub At-any : (p : ℕ) (rs : List SlotRec) → At p (λ r. Unit {0}) rs
At-any p [] = tt
At-any p (r ∷ rs) = (λ e. tt, At-any p rs)

pub update-Inv :
    (G : SlotRec → Type 0) (p : ℕ) (f : SlotRec → SlotRec) (t : Table)
    → KeepsIdentity f
    → ((b : ℕ) (r : SlotRec) → G r → IsSound b r → IsSound b (f r))
    → At p G t.slots
    → Inv t
    → Inv (update p f t)
unfolding update
update-Inv G p f t same keep g v = record {
  distinct = Distinct-modify p f t.slots same v.distinct;
  sound = All-modify (IsSound t.next_ref) G p f t.slots (keep t.next_ref) g v.sound;
}

pub Pointwise-Inv :
    (t : Table) (ss : List SlotRec)
    → Pointwise SameIdentity t.slots ss
    → Pointwise (λ r s. IsSound t.next_ref r → IsSound t.next_ref s) t.slots ss
    → Inv t
    → Inv (record t { slots = ss })
Pointwise-Inv t ss same keep v = record {
  distinct = Distinct-Pointwise t.slots ss same v.distinct;
  sound = All-Pointwise (IsSound t.next_ref) t.slots ss keep v.sound;
}
