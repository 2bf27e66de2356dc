-- ===== src/Table/Sample.antt =====
-- internal/slot/manager.go: sampleLoop. One tick chooses the busy and idle slots under the lock,
-- reads each unit's accounting outside of it, and writes each reading under the lock again.
use tentacles.Base.{
  ℕ, Bool, true, false, Option, none, some, List, [], ◌∷◌, not, ◌&&◌, if◌then◌else◌, keep,
}
use tentacles.Slot.{SlotId, State, idle, busy, Usage}
use tentacles.Table.{SlotRec, Table, update}

-- The state test of the first section.
abbrev pub is_sampled : State → Bool
is_sampled busy = true
is_sampled idle = true
is_sampled _ = false

unfoldable pub sample_rec : Usage → SlotRec → SlotRec
sample_rec u r =
    if not r.cleaning && not r.cleanup_pending
    then record r {
      slot = record r.slot { current_mem_bytes = u.current_mem_bytes };
      last_usage = u;
      sampled_ok = true;
    }
    else r

-- The second section, for a record that was chosen in the first.
unfoldable pub sample : ℕ → Usage → Table → Table
unfolding sample_rec
sample p u = update p (sample_rec u)

-- A reading that fails leaves the last one in place.
unfoldable pub sample_target : Option Usage → ℕ → Table → Table
unfolding sample
sample_target none p t = t
sample_target (some u) p t = sample p u t

-- The loop over the targets; the sampler is an outside call.
unfoldable pub sample_targets : (SlotId → Option Usage) → List SlotRec → Table → Table
unfolding sample_target
sample_targets sampler [] t = t
sample_targets sampler (r ∷ rs) t = sample_targets sampler rs (sample_target (sampler r.id) r.ref t)

-- One tick of sampleLoop.
unfoldable pub sample_tick : (SlotId → Option Usage) → Table → Table
unfolding sample_targets
sample_tick sampler t = sample_targets sampler (keep (λ r. is_sampled r.state) t.slots) t
