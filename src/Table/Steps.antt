-- ===== src/Table/Steps.antt =====
-- internal/slot/manager.go: the sections that run under the table's lock, as a step relation. The
-- goroutines of the listener, the watchers, the cleanup workers, the sampler and the holder of the
-- operation lock interleave at these steps. A guard is what the goroutine that runs the section
-- knows of the record at that point.
use tentacles.Base.{ℕ, ◌≤◌, ◌≡◌, Bool, false, none, List, Text, All}
use tentacles.Base.Float.{FloatOps}
use tentacles.Slot.{Slot, SlotId, State, busy, stopping, Usage, ClaimJob}
use tentacles.UnitName.{max_slot_id}
use tentacles.Table.{SlotRec, Table, Effect, set_state, at_id, remove, update, set_desired, close}
use tentacles.Table.Claim.{mark_busy, claim, mark_result}
use tentacles.Table.Clean.{begin_clean, unmark}
use tentacles.Table.Exit.{exit_rec}
use tentacles.Table.Sample.{sample}
use tentacles.Table.Adopt.{track}
use tentacles.Table.Start.{Places, Attempt, reserve, name_runner, set_idle}
use tentacles.Table.Surplus.{revert_rec}

-- The record at an address, if there is one, satisfies `P`.
abbrev pub At : ℕ → (SlotRec → Type 0) → List SlotRec → Type 0
At p P = All (λ r. r.ref ≡ p → P r)

pub data Step (t : Table) : Table → Type 0 where
  claims : (job : ClaimJob) (now : ℕ) → Step t (claim job now t).0
  marks_busy : (i : SlotId) (now : ℕ) → Step t (mark_busy i now t)
  results : (name res : Text) → Step t (mark_result name res t)
  samples : (p : ℕ) (u : Usage) → Step t (sample p u t)
  sets_desired : (n : ℕ) → Step t (set_desired n t)
  closes : Step t (close t)
  reserves :
      (fl : FloatOps) (places : Places) (a : Attempt) (i : SlotId)
      → at_id i t.slots ≡ none
      → 1 ≤ i
      → i ≤ max_slot_id
      → Step t (reserve fl places a i t)
  tracks :
      (fl : FloatOps) (s : Slot)
      → at_id s.id t.slots ≡ none
      → 1 ≤ s.id
      → s.id ≤ max_slot_id
      → Step t (track fl s t)
  names :
      (places : Places) (i : SlotId) (p : ℕ) (name : Text) → Step t (name_runner places i p name t)
  becomes_idle : (p now : ℕ) → Step t (update p (set_idle now) t)
  stays_busy :
      (p : ℕ) → At p (λ r. r.cleanup_pending ≡ false) t.slots → Step t (update p (set_state busy) t)
  becomes_stopping : (p : ℕ) → Step t (update p (set_state stopping) t)
  reverts :
      (p : ℕ) (s : State)
      → At p (λ r. r.claimed ≡ false) t.slots
      → Step t (update p (revert_rec s) t)
  exits :
      (p : ℕ) (has_hook : Bool) (grace now : ℕ) → Step t (update p (exit_rec has_hook grace now) t)
  begins_clean : (p : ℕ) → At p (λ r. r.state ≡ stopping) t.slots → Step t (begin_clean p t)
  ends_clean : (p : ℕ) → Step t (update p unmark t)
  deletes : (p : ℕ) → Step t (record t { slots = remove p t.slots })
  -- a call of a hook or of the backend
  tells : (es : List Effect) → Step t (record t { effects = es })

pub data Reach (t : Table) : Table → Type 0 where
  here : Reach t t
  next : {u v : Table} → Reach t u → Step u v → Reach t v

pub Reach-trans : {t u v : Table} → Reach t u → Reach u v → Reach t v
Reach-trans r here = r
Reach-trans r (next s st) = next (Reach-trans r s) st

pub Reach-Step : {t u : Table} → Step t u → Reach t u
Reach-Step s = next here s
