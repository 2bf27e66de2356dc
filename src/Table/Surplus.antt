-- ===== src/Table/Surplus.antt =====
-- internal/slot/manager.go: stopSurplusContext. The section under the lock chooses the slots to
-- stop and marks them; the loop then stops them one after the other.
pub mod Count
pub mod Oldest
pub mod Spared
use tentacles.Base.{
  ℕ, zero, suc, ◌-◌, ◌+◌, Bool, true, false, ◌&&◌, ◌||◌, not, Option, none, some, List, [], ◌∷◌,
  ltb, leb, ◌==◌, if◌then◌else◌, length, take, keep, map, sort_by,
}
use tentacles.Base.Float.{FloatOps}
use tentacles.Slot.{SlotId, State, starting, idle, stopping, stopped}
use tentacles.Table.{
  SlotRec, Table, stop_called, set_state, at_id, modify, update, emit, count_live, since_le,
}
use tentacles.Table.Clean.{Worker}
use tentacles.Table.Exit.{is_stopping, observe_exit}

is_set : Option ℕ → Bool
is_set none = false
is_set (some t) = true

-- The idle grace protects a slot unless the daemon shuts down.
spared_idle : Bool → ℕ → ℕ → SlotRec → Bool
unfolding is_set since_le
spared_idle ignore_grace grace now r =
    not ignore_grace && (ltb 0 grace && (is_set r.started_at && since_le now r.started_at grace))

spared_starting : ℕ → ℕ → SlotRec → Bool
unfolding since_le
spared_starting grace now r = ltb 0 grace && since_le now r.prov_start grace

-- The `switch` of the loop over the slots, by the state.
unfoldable pub eligible_in : State → Bool → ℕ → ℕ → ℕ → SlotRec → Bool
unfolding spared_idle spared_starting
eligible_in idle ignore_grace idle_grace acquire_grace now r =
    not (spared_idle ignore_grace idle_grace now r)
eligible_in starting ignore_grace idle_grace acquire_grace now r =
    not (spared_starting acquire_grace now r)
eligible_in _ ignore_grace idle_grace acquire_grace now r = false

unfoldable pub eligible : Bool → ℕ → Table → SlotRec → Bool
unfolding eligible_in
eligible ignore_grace now t r = eligible_in r.state ignore_grace t.idle_grace t.acquire_grace now r

age_key : Option ℕ → ℕ
age_key none = 0
age_key (some t) = suc t

-- Oldest first, ties broken by ID; the zero time is before every other.
unfoldable pub older : SlotRec → SlotRec → Bool
unfolding age_key
older a b =
    if age_key a.started_at == age_key b.started_at
    then ltb a.id b.id
    else ltb (age_key a.started_at) (age_key b.started_at)

-- The slots that are stopped: the oldest of the eligible ones, as many as there are too many.
unfoldable pub chosen : Bool → ℕ → ℕ → Table → List SlotRec
unfolding eligible older sort_by count_live
chosen ignore_grace now target t =
    take (count_live t.slots - target) (sort_by older (keep (eligible ignore_grace now t) t.slots))

unfoldable pub mark_stopping : List SlotRec → List SlotRec → List SlotRec
unfolding modify
mark_stopping [] rs = rs
mark_stopping (c ∷ cs) rs = mark_stopping cs (modify c.ref (set_state stopping) rs)

-- The section under the lock.
unfoldable pub select_surplus : Bool → ℕ → ℕ → Table → Table
unfolding mark_stopping
select_surplus ignore_grace now target t = record t {
  slots = mark_stopping (chosen ignore_grace now target t) t.slots;
}

-- After a failed stop the slot goes back to the state that it had.
unfoldable pub revert_rec : State → SlotRec → SlotRec
revert_rec s r =
    if is_stopping r.state && not r.cleanup_pending && not r.cleaning then set_state s r else r

-- What the world answers while surplus slots are stopped.
pub record StopWorld : Type 0 where
  pub stops : SlotId → Bool
  pub exit_time : SlotId → ℕ
  pub worker : SlotId → Worker

unfoldable pub note_stop : SlotId → Table → Table
note_stop i t = record t { effects = stop_called i ∷ t.effects }

-- One round of the loop, over a candidate as it was when it was chosen.
unfoldable pub stop_one : FloatOps → StopWorld → SlotRec → Table → Table
unfolding revert_rec note_stop
stop_one fl w c t =
    if w.stops c.id
    then observe_exit fl c.id (some c.ref) (w.exit_time c.id) (w.worker c.id)
        (emit stopped c.slot (note_stop c.id t))
    else update c.ref (revert_rec c.state) (note_stop c.id t)

unfoldable pub stop_all : FloatOps → StopWorld → List SlotRec → Table → Table
unfolding stop_one
stop_all fl w [] t = t
stop_all fl w (c ∷ cs) t = stop_all fl w cs (stop_one fl w c t)

-- stopSurplusContext
unfoldable pub stop_surplus : FloatOps → StopWorld → Bool → ℕ → ℕ → Table → Table
unfolding stop_all
stop_surplus fl w ignore_grace now target t =
    stop_all fl w (chosen ignore_grace now target t) (select_surplus ignore_grace now target t)
