-- ===== src/Schedule/Host.antt =====
-- internal/app/scheduler.go and pool.go: the host with its pools and their slot tables, as the pools
-- that the scheduler drives. Outside answers come from a sequence for each kind, of which the host
-- counts how many it has used.
pub mod Laws
pub mod Timer
use tentacles.Base.{
  ℕ, zero, suc, ◌+◌, ◌-◌, ◌≤◌, ◌≡◌, refl, Bool, true, false, not, ◌&&◌, ◌||◌, Option, none, some,
  List, [], ◌∷◌, ltb, leb, ◌==◌, if◌then◌else◌, length, keep, min, count,
}
use tentacles.Base.Float.{FloatOps}
use tentacles.Slot.{acquire_failure}
use tentacles.Table.{Table, Effect, emitted, active, set_desired}
use tentacles.Table.Start.{Places}
use tentacles.Table.Ensure.{World, ensure, shutdown}
use tentacles.Pool.{PoolRuntime}
use tentacles.Pool.Retry.{Backoff, record_acquire_failure, acquire_retry_wait}
use tentacles.Schedule.{Pools}

pub record Host : Type 0 where
  pub pool : ℕ → PoolRuntime
  pub asked : ℕ

-- len(pool.table.Active())
unfoldable pub live_slots : PoolRuntime → ℕ
live_slots p = length (active p.table)

unfoldable pub set_pool : ℕ → PoolRuntime → Host → Host
set_pool k p h = record h { pool = λ j. if j == k then p else h.pool j }

is_acquire_failure : Effect → Bool
is_acquire_failure (emitted acquire_failure s) = true
is_acquire_failure _ = false

-- How many acquire failures a table has told its hook of.
unfoldable pub failures : Table → ℕ
unfolding is_acquire_failure
failures t = count is_acquire_failure t.effects

-- The hook of the table, for each failure that a call has told of.
unfoldable pub back_off : ℕ → ℕ → Backoff → Backoff
back_off zero now b = b
back_off (suc n) now b = back_off n now (record_acquire_failure now b)

module _ (fl : FloatOps) (places : ℕ → Places) (answers : ℕ → World) (clock : ℕ → ℕ)
    (cancelled : ℕ → Bool) where
  -- One call of a pool's Ensure, with what its hook does.
  unfoldable pub ensured_pool : World → ℕ → ℕ → ℕ → PoolRuntime → PoolRuntime × Bool
  unfolding failures back_off
  ensured_pool w k now n p =
      let done = ensure fl (places k) w n p.table in
      (
        record p {
          table = done.0;
          backoff = back_off (failures done.0 - failures p.table) now p.backoff;
        },
        done.1,
      )

  unfoldable pub host_ensure : ℕ → ℕ → Host → Host × Bool
  unfolding ensured_pool set_pool
  host_ensure k n h =
      let done = ensured_pool (answers h.asked) k (clock h.asked) n (h.pool k) in
      (record (set_pool k done.0 h) { asked = suc h.asked }, done.1)

  unfoldable pub host_set_desired : ℕ → ℕ → Host → Host
  unfolding set_pool
  host_set_desired k n h =
      set_pool k (record (h.pool k) { table = set_desired n (h.pool k).table }) h

  unfoldable pub host_waits : ℕ → Host → Bool
  host_waits k h = ltb 0 (acquire_retry_wait (clock h.asked) (h.pool k).backoff)

  -- The daemon's pools, as reconcilePools sees them.
  abbrev pub host_pools : ℕ → Pools Host
  host_pools n = record {
    size = n;
    live = λ k h. live_slots (h.pool k);
    desired = λ k h. (h.pool k).desired;
    waits = host_waits;
    set_desired = host_set_desired;
    ensure = host_ensure;
    expired = λ h. cancelled h.asked;
  }

-- Whether a pool wants another slot and waits for its back-off.
unfoldable pub is_blocked : ℕ → PoolRuntime → Bool
unfolding live_slots
is_blocked now p = not (leb p.desired (live_slots p)) && ltb 0 (acquire_retry_wait now p.backoff)

-- One round of the loop of nextRetryWait; no wait is zero.
unfoldable pub earlier : ℕ → ℕ → ℕ
earlier earliest wait = if (earliest == 0) || ltb wait earliest then wait else earliest

unfoldable pub next_retry_from : ℕ → ℕ → List PoolRuntime → ℕ
unfolding is_blocked earlier
next_retry_from now earliest [] = earliest
next_retry_from now earliest (p ∷ ps) =
    next_retry_from now
      (if is_blocked now p then earlier earliest (acquire_retry_wait now p.backoff) else earliest)
      ps

-- nextRetryWait
unfoldable pub next_retry_wait : ℕ → List PoolRuntime → ℕ
unfolding next_retry_from
next_retry_wait now ps = next_retry_from now 0 ps
