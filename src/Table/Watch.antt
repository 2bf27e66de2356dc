-- ===== src/Table/Watch.antt =====
-- internal/slot/manager.go: watch, the goroutine that waits for a unit's exit. Times are in
-- milliseconds here.
pub mod Pauses
use tentacles.Base.{ℕ, ◌*◌, ◌≤◌, min, Bool, true, false, some, List, [], ◌∷◌, ltb, if◌then◌else◌}
use tentacles.Base.Float.{FloatOps}
use tentacles.Slot.{SlotId}
use tentacles.Table.{Table}
use tentacles.Table.Clean.{Worker}
use tentacles.Table.Exit.{observe_exit}

-- What one call of the backend's Wait and the pause after it come to: the table's context has
-- ended, the unit is known to have exited, or the observation failed, and the context then ended
-- or did not end during the pause.
pub data Waited : Type 0 where
  table_closed exited failed closed_in_pause : Waited

pub data WatchEnd : Type 0 where
  left_in_place confirmed still_watching : WatchEnd

abbrev pub first_delay : ℕ
first_delay = 100

abbrev pub longest_delay : ℕ
longest_delay = 5000

-- The pause after the next failure.
unfoldable pub next_delay : ℕ → ℕ
next_delay delay = if ltb delay longest_delay then min (delay * 2) longest_delay else delay

-- The loop of watch over what its waits come to: its end, and the pauses that it made, newest
-- first.
unfoldable pub watch_loop : List Waited → ℕ → List ℕ → WatchEnd × List ℕ
unfolding next_delay
watch_loop [] delay pauses = (still_watching, pauses)
watch_loop (table_closed ∷ ws) delay pauses = (left_in_place, pauses)
watch_loop (exited ∷ ws) delay pauses = (confirmed, pauses)
watch_loop (closed_in_pause ∷ ws) delay pauses = (left_in_place, delay ∷ pauses)
watch_loop (failed ∷ ws) delay pauses = watch_loop ws (next_delay delay) (delay ∷ pauses)

unfoldable pub watch_end : FloatOps → SlotId → ℕ → ℕ → Worker → Table → WatchEnd → Table
watch_end fl i p now w t confirmed = observe_exit fl i (some p) now w t
watch_end fl i p now w t _ = t

-- Table.watch of the record at `p`
unfoldable pub watch : FloatOps → List Waited → SlotId → ℕ → ℕ → Worker → Table → Table
unfolding watch_loop watch_end
watch fl ws i p now w t = watch_end fl i p now w t (watch_loop ws first_delay []).0
