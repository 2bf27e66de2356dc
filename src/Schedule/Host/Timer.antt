-- ===== src/Schedule/Host/Timer.antt =====
-- When the retry timer goes off.
use tentacles.Base.{ℕ, ◌≤◌, ◌<◌, ◌≡◌, true, List, [], ◌∷◌, arith, keep, All, Bool-cases, inl, inr}
use tentacles.Pool.{PoolRuntime}
use tentacles.Pool.Retry.{acquire_retry_wait}
use tentacles.Schedule.Host.{is_blocked, earlier, next_retry_from, next_retry_wait}

earlier_le :
    (earliest wait : ℕ) → 0 < wait → (0 < earlier earliest wait) × (earlier earliest wait ≤ wait)
unfolding earlier
earlier_le earliest wait h = ground (arith, h)

earlier_before : (earliest wait : ℕ) → 0 < earliest → earlier earliest wait ≤ earliest
unfolding earlier
earlier_before earliest wait h = ground (arith, h)

blocked_waits :
    (now : ℕ) (p : PoolRuntime) → is_blocked now p ≡ true → 0 < acquire_retry_wait now p.backoff
unfolding is_blocked
blocked_waits now p h = ground (arith, h)

-- A wait that has been found is only replaced by an earlier one.
next_retry_found :
    (now earliest : ℕ) (ps : List PoolRuntime)
    → 0 < earliest
    → (0 < next_retry_from now earliest ps) × (next_retry_from now earliest ps ≤ earliest)
unfolding next_retry_from
next_retry_found now earliest [] h = (h, omega arith)
next_retry_found now earliest (p ∷ ps) h = elim (Bool-cases (is_blocked now p)) [
  | inl e ↦
      let w = acquire_retry_wait now p.backoff in
      let first = earlier_le earliest w (blocked_waits now p e) in
      let rest = next_retry_found now (earlier earliest w) ps first.0 in
      rw e (rest.0, omega (arith, rest.1, earlier_before earliest w h))
  | inr e ↦ rw e (next_retry_found now earliest ps h)
]

next_retry_covers :
    (now earliest : ℕ) (ps : List PoolRuntime)
    → All
        (λ p.
          (0 < next_retry_from now earliest ps)
          × (next_retry_from now earliest ps ≤ acquire_retry_wait now p.backoff))
        (keep (is_blocked now) ps)
unfolding next_retry_from
next_retry_covers now earliest [] = tt
next_retry_covers now earliest (p ∷ ps) = elim (Bool-cases (is_blocked now p)) [
  | inl e ↦
      let w = acquire_retry_wait now p.backoff in
      let first = earlier_le earliest w (blocked_waits now p e) in
      let rest = next_retry_found now (earlier earliest w) ps first.0 in
      rw e ((rest.0, omega (arith, rest.1, first.1)), next_retry_covers now (earlier earliest w) ps)
  | inr e ↦ rw e (next_retry_covers now earliest ps)
]

-- If a pool has fewer live slots than desired and is still backing off, then the retry timer is set,
-- and it goes off no later than the end of that pool's wait.
pub retry_timer_covers :
    (now : ℕ) (ps : List PoolRuntime)
    → All
        (λ p.
          (0 < next_retry_wait now ps)
          × (next_retry_wait now ps ≤ acquire_retry_wait now p.backoff))
        (keep (is_blocked now) ps)
unfolding next_retry_wait
retry_timer_covers now ps = next_retry_covers now 0 ps
