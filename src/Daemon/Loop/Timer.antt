-- ===== src/Daemon/Loop/Timer.antt =====
-- The retry timer after a wake-up of the loop.
use tentacles.Base.{
  ℕ, ◌≤◌, ◌<◌, ◌≡◌, refl, Bool, true, false, Option, some, arith, All, keep, ◌+◌, ◌==◌, sym, subst,
  Bool-cases, inl, inr, ◌⊎◌, zero, suc,
}
use tentacles.Base.Float.{FloatOps}
use tentacles.Table.Start.{Places}
use tentacles.Table.Ensure.{World}
use tentacles.Pool.{PoolRuntime}
use tentacles.Pool.Retry.{acquire_retry_wait}
use tentacles.Table.{count_live}
use tentacles.Schedule.Host.{Host, is_blocked, live_slots, next_retry_wait}
use tentacles.Schedule.Host.Laws.{length-active}
use tentacles.Schedule.Host.Timer.{retry_timer_covers}
use tentacles.Daemon.Loop.{Loop, Wake, wake, reconcile_round, reset_retry, pools_from}

-- The timer is set and goes off no later than after `wait`.
abbrev pub GoesOff : Option ℕ → ℕ → Type 0
GoesOff timer wait = (d : ℕ) × (timer ≡ some d) × (0 < d) × (d ≤ wait)

reset_retry-GoesOff : (d wait : ℕ) → 0 < d → d ≤ wait → GoesOff (reset_retry d) wait
unfolding reset_retry
reset_retry-GoesOff zero wait h k = absurd (omega arith)
reset_retry-GoesOff (suc d) wait h k = (suc d, refl, h, k)

-- A pool has fewer live slots than desired, and its back-off is not over.
pub record IsWaiting (now : ℕ) (p : PoolRuntime) : Type 0 where
  pub wanting : count_live p.table.slots < p.desired
  pub backing_off : 0 < acquire_retry_wait now p.backoff

is_blocked-IsWaiting : (now : ℕ) (p : PoolRuntime) → IsWaiting now p → is_blocked now p ≡ true
unfolding is_blocked live_slots
is_blocked-IsWaiting now p h = ground (arith, length-active p.table, h.wanting, h.backing_off)

-- What holds of the pools of a list that pass a test holds of each of the host's that passes it.
pools_from-at :
    (P : PoolRuntime → Type 0) (test : PoolRuntime → Bool) (count k : ℕ) (h : Host)
    → All P (keep test (pools_from count k h))
    → (j : ℕ) → k ≤ j
    → j < k + count
    → test (h.pool j) ≡ true
    → P (h.pool j)
unfolding pools_from
pools_from-at P test zero k h all j low high passes = absurd (omega (arith, low, high))
pools_from-at P test (suc count) k h all j low high passes = elim (Bool-cases (j == k)) [
  | inl e ↦
      let same : k ≡ j = ground (arith, e) in
      let first : test (h.pool k) ≡ true = subst (λ i. test (h.pool i) ≡ true) (sym same) passes in
      subst (λ i. P (h.pool i)) same ((rw first at all).0)
  | inr e ↦
      pools_from-at P test count (suc k) h (rest (Bool-cases (test (h.pool k)))) j
        (ground (arith, e, low)) (omega (arith, high)) passes
]
  where
    rest :
        (test (h.pool k) ≡ true) ⊎ (test (h.pool k) ≡ false)
        → All P (keep test (pools_from count (suc k) h))
    rest (inl e) = (rw e at all).1
    rest (inr e) = rw e at all

module _ (fl : FloatOps) (places : ℕ → Places) (answers : ℕ → World) (clock : ℕ → ℕ)
    (cancelled : ℕ → Bool) (n ceiling : ℕ) where
  -- When the reconcile of a wake-up has ended, then for each of the daemon's pools that has fewer live slots than
  -- desired and whose back-off is not over, the retry timer is set, and it goes off no later than that
  -- back-off ends.
  pub wake_sets_timer :
      (w : Wake) (l : Loop)
      → let m = wake fl places answers clock cancelled n ceiling w l in
        (k : ℕ)
        → k < n
        → IsWaiting (clock m.host.asked) (m.host.pool k)
        → GoesOff m.retry (acquire_retry_wait (clock m.host.asked) (m.host.pool k).backoff)
  unfolding wake reconcile_round
  wake_sets_timer w l k less waiting =
      let m = wake fl places answers clock cancelled n ceiling w l in
      let now = clock m.host.asked in
      let ps = pools_from n 0 m.host in
      let wait =
        pools_from-at
          (λ p.
            (0 < next_retry_wait now ps)
            × (next_retry_wait now ps ≤ acquire_retry_wait now p.backoff))
          (is_blocked now) n 0 m.host (retry_timer_covers now ps) k (omega arith)
          (omega (arith, less)) (is_blocked-IsWaiting now (m.host.pool k) waiting) in
      reset_retry-GoesOff (next_retry_wait now ps) (acquire_retry_wait now (m.host.pool k).backoff)
        wait.0 wait.1
