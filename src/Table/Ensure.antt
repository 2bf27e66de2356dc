-- ===== src/Table/Ensure.antt =====
-- internal/slot/manager.go: Ensure and Shutdown, which hold the table's operation lock from start to
-- end.
pub mod Count
pub mod Bound
pub mod Ceiling
pub mod Total
pub mod Loop
pub mod Size
pub mod Settled
pub mod Converge
use tentacles.Base.{
  ℕ, zero, suc, ◌-◌, ◌||◌, Bool, true, false, Option, none, some, List, [], ◌∷◌, leb, if◌then◌else◌,
}
use tentacles.Base.Float.{FloatOps}
use tentacles.Slot.{SlotId}
use tentacles.Table.{Table, count_live}
use tentacles.Table.Clean.{Worker, retry_cleanup}
use tentacles.Table.Start.{Places, Attempt, start_one}
use tentacles.Table.Surplus.{StopWorld, stop_surplus}

-- What the world answers during one call. `expired` is the context's state when it is looked at.
pub record World : Type 0 where
  -- whether the operation lock is got before the context ends
  pub acquired : Bool
  pub retry_expired : Bool
  pub retry_expired_at : SlotId → Bool
  pub retry_worker : SlotId → Worker
  -- the context before the k-th start, and that start
  pub start_expired : ℕ → Bool
  pub attempt : ℕ → Attempt
  pub select_time : ℕ
  pub stop : StopWorld
  pub expired_at_end : Bool

-- How the loop of starts ends: by its test or a failed start, or by the context.
pub data LoopEnd : Type 0 where
  satisfied start_failed cancelled out_of_rounds : LoopEnd

-- `closed || live >= desired`
unfoldable pub enough : ℕ → Table → Bool
unfolding count_live
enough target t = t.is_closed || leb target (count_live t.slots)

-- A failed start ends the loop.
unfoldable pub round_end : Table × Option SlotId → Table × LoopEnd → Table × LoopEnd
round_end (u, none) rest = (u, start_failed)
round_end (u, some i) rest = rest

-- The loop of Ensure, round `k`.
unfoldable pub start_loop : ℕ → FloatOps → Places → World → ℕ → ℕ → Table → Table × LoopEnd
unfolding enough round_end
start_loop zero fl places w target k t = (t, if enough target t then satisfied else out_of_rounds)
start_loop (suc rounds) fl places w target k t =
    let tried = start_one fl places (w.attempt k) t in
    let rest = start_loop rounds fl places w target (suc k) tried.0 in
    if enough target t
    then (t, satisfied)
    else if w.start_expired k
    then (t, cancelled)
    else round_end tried rest

unfoldable pub finish : FloatOps → World → ℕ → Table × LoopEnd → Table × Bool
finish fl w target (t, cancelled) = (t, false)
finish fl w target (t, _) = (stop_surplus fl w.stop false w.select_time target t, not_expired)
  where
    not_expired : Bool
    not_expired = if w.expired_at_end then false else true

-- Table.Ensure; the result tells whether it returns no error. A start adds a live slot, so there are
-- at most as many rounds as slots are missing.
unfoldable pub ensure : FloatOps → Places → World → ℕ → Table → Table × Bool
unfolding start_loop finish
ensure fl places w target t =
    let retried = retry_cleanup w.retry_expired w.retry_expired_at w.retry_worker t in
    let rounds = target - count_live retried.slots in
    let looped = start_loop rounds fl places w target 0 retried in
    if w.acquired then finish fl w target looped else (t, false)

-- Table.Shutdown
unfoldable pub shutdown : FloatOps → World → Table → Table × Bool
unfolding retry_cleanup stop_surplus
shutdown fl w t =
    let retried = retry_cleanup w.retry_expired w.retry_expired_at w.retry_worker t in
    let stopped = stop_surplus fl w.stop true w.select_time 0 retried in
    if w.acquired then (stopped, if w.expired_at_end then false else true) else (t, false)
