-- ===== src/Table/Watch/Pauses.antt =====
-- How long a watcher pauses, and when it releases a slot.
use tentacles.Base.{ℕ, ◌≤◌, ◌≡◌, ◌≢◌, refl, List, [], ◌∷◌, arith, All}
use tentacles.Base.Float.{FloatOps}
use tentacles.Slot.{SlotId}
use tentacles.Table.{Table}
use tentacles.Table.Clean.{Worker}
use tentacles.Table.Watch.{
  Waited, table_closed, exited, failed, closed_in_pause, WatchEnd, left_in_place, confirmed,
  still_watching, first_delay, longest_delay, next_delay, watch_loop, watch_end, watch,
}

-- From the first delay to the longest.
abbrev pub IsPause : ℕ → Type 0
IsPause n = (first_delay ≤ n) × (n ≤ longest_delay)

next_delay-IsPause : (n : ℕ) → IsPause n → IsPause (next_delay n)
unfolding next_delay
next_delay-IsPause n h = ground arith

watch_loop-IsPause :
    (ws : List Waited) (n : ℕ) (pauses : List ℕ)
    → IsPause n
    → All IsPause pauses
    → All IsPause (watch_loop ws n pauses).1
unfolding watch_loop
watch_loop-IsPause [] n pauses h a = a
watch_loop-IsPause (table_closed ∷ ws) n pauses h a = a
watch_loop-IsPause (exited ∷ ws) n pauses h a = a
watch_loop-IsPause (closed_in_pause ∷ ws) n pauses h a = (h, a)
watch_loop-IsPause (failed ∷ ws) n pauses h a =
    watch_loop-IsPause ws (next_delay n) (n ∷ pauses) (next_delay-IsPause n h) (h, a)

-- Every pause of a watcher lasts from 100 milliseconds to five seconds.
pub pauses_bounded : (ws : List Waited) → All IsPause (watch_loop ws first_delay []).1
pauses_bounded ws = watch_loop-IsPause ws first_delay [] (omega arith, omega arith) tt

watch_loop_unconfirmed :
    (ws : List Waited) (n : ℕ) (pauses : List ℕ)
    → All (λ w. w ≢ exited) ws
    → (watch_loop ws n pauses).0 ≢ confirmed
unfolding watch_loop
watch_loop_unconfirmed [] n pauses h = λ e. cc
watch_loop_unconfirmed (table_closed ∷ ws) n pauses h = λ e. cc
watch_loop_unconfirmed (exited ∷ ws) n pauses h = absurd (h.0 refl)
watch_loop_unconfirmed (closed_in_pause ∷ ws) n pauses h = λ e. cc
watch_loop_unconfirmed (failed ∷ ws) n pauses h =
    watch_loop_unconfirmed ws (next_delay n) (n ∷ pauses) h.1

watch_end_unconfirmed :
    (fl : FloatOps) (i : SlotId) (p now : ℕ) (w : Worker) (t : Table) (e : WatchEnd)
    → e ≢ confirmed
    → watch_end fl i p now w t e ≡ t
unfolding watch_end
watch_end_unconfirmed fl i p now w t confirmed h = absurd (h refl)
watch_end_unconfirmed fl i p now w t left_in_place h = refl
watch_end_unconfirmed fl i p now w t still_watching h = refl

-- A watcher none of whose waits saw the unit's exit leaves the table as it was, however many
-- observations failed.
pub unconfirmed_retained :
    (fl : FloatOps) (ws : List Waited) (i : SlotId) (p now : ℕ) (w : Worker) (t : Table)
    → All (λ x. x ≢ exited) ws
    → watch fl ws i p now w t ≡ t
unfolding watch
unconfirmed_retained fl ws i p now w t h =
    watch_end_unconfirmed fl i p now w t _ (watch_loop_unconfirmed ws first_delay [] h)
