-- ===== src/Pool/Retry.antt =====
-- internal/app/pool.go: the back-off after failed starts.
use tentacles.Base.{
  ℕ, ◌+◌, ◌-◌, ◌*◌, ◌≤◌, ◌≡◌, refl, Bool, true, Option, none, some, List, [], ◌∷◌, arith, min, ltb,
  ◌||◌, ◌==◌, if◌then◌else◌, if_cases, ◌⊎◌, inl, inr,
}

abbrev pub second : ℕ
second = 1000000000

pub record Backoff : Type 0 where
  pub retry_after : Option ℕ
  pub retry_delay : ℕ

-- A pool that has not failed yet.
abbrev pub no_backoff : Backoff
no_backoff = record { retry_after = none; retry_delay = 0 }

-- `time.Since(p.retryAfter) > 3*time.Minute`; the zero time lies further back.
unfoldable pub long_past : ℕ → Option ℕ → Bool
long_past now none = true
long_past now (some t) = ltb (180 * second) (now - t)

-- recordAcquireFailure
unfoldable pub record_acquire_failure : ℕ → Backoff → Backoff
unfolding long_past
record_acquire_failure now b =
    let delay =
      if (b.retry_delay == 0) || long_past now b.retry_after
      then second
      else min (b.retry_delay * 2) (30 * second) in
    record { retry_after = some (now + delay); retry_delay = delay }

-- acquireRetryWait
unfoldable pub acquire_retry_wait : ℕ → Backoff → ℕ
acquire_retry_wait now b = elim b.retry_after [ none ↦ 0 | some t ↦ t - now ]

-- The failures of a pool, the newest first.
unfoldable pub after_failures : List ℕ → Backoff
unfolding record_acquire_failure
after_failures [] = no_backoff
after_failures (now ∷ times) = record_acquire_failure now (after_failures times)

-- From one second to thirty.
abbrev pub IsDelay : ℕ → Type 0
IsDelay d = (second ≤ d) × (d ≤ 30 * second)

record_acquire_failure-IsDelay :
    (now : ℕ) (b : Backoff)
    → (b.retry_delay ≡ 0) ⊎ IsDelay b.retry_delay
    → IsDelay (record_acquire_failure now b).retry_delay
unfolding record_acquire_failure
record_acquire_failure-IsDelay now b h =
    if_cases IsDelay ((b.retry_delay == 0) || long_past now b.retry_after) _ _
      (λ _. (omega arith, omega arith)) (λ e. ground (arith, e, h))

after_failures-IsDelay :
    (times : List ℕ)
    → ((after_failures times).retry_delay ≡ 0) ⊎ IsDelay (after_failures times).retry_delay
unfolding after_failures
after_failures-IsDelay [] = inl refl
after_failures-IsDelay (now ∷ times) =
    inr (record_acquire_failure-IsDelay now (after_failures times) (after_failures-IsDelay times))

-- Right after a failure, whatever failures there were before it and when, a pool waits from one second
-- to thirty before it starts another slot.
pub retry_wait_bounded :
    (now : ℕ) (times : List ℕ) → IsDelay (acquire_retry_wait now (after_failures (now ∷ times)))
unfolding after_failures acquire_retry_wait record_acquire_failure
retry_wait_bounded now times =
    let d =
      record_acquire_failure-IsDelay now (after_failures times) (after_failures-IsDelay times) in
    unfold record_acquire_failure in omega (arith, d.0, d.1)
