-- ===== src/Table/Ensure/Settled.antt =====
-- Ensure on a table that already has the desired number of live slots.
use tentacles.Base.{ℕ, zero, suc, ◌-◌, ◌≤◌, ◌≡◌, refl, Bool, true, false, [], arith, keep, if_cases}
use tentacles.Base.Float.{FloatOps}
use tentacles.Table.{Table, count_live}
use tentacles.Table.Clean.{pending, retry_all, retry_cleanup}
use tentacles.Table.Start.{Places}
use tentacles.Table.Surplus.{chosen, mark_stopping, select_surplus, stop_all, stop_surplus}
use tentacles.Table.Ensure.{World, satisfied, enough, start_loop, finish, ensure}

-- With no cleanup pending there is none to retry.
pub retry_cleanup_none :
    (w : World) (t : Table)
    → keep pending t.slots ≡ []
    → retry_cleanup w.retry_expired w.retry_expired_at w.retry_worker t ≡ t
unfolding retry_cleanup
retry_cleanup_none w t h =
    if_cases (λ (u : Table). u ≡ t) w.retry_expired _ _ (λ _. refl)
      (λ _. rw h (unfold retry_all in refl))

chosen_none :
    (ignore_grace : Bool) (now target : ℕ) (t : Table)
    → count_live t.slots ≤ target
    → chosen ignore_grace now target t ≡ []
unfolding chosen
chosen_none ignore_grace now target t h =
    let none_over : count_live t.slots - target ≡ 0 = omega arith in rw none_over

-- Without a surplus nothing is stopped.
pub stop_surplus_none :
    (fl : FloatOps) (w : World) (now target : ℕ) (t : Table)
    → count_live t.slots ≤ target
    → stop_surplus fl w.stop false now target t ≡ t
unfolding stop_surplus select_surplus
stop_surplus_none fl w now target t h =
    rw (chosen_none false now target t h) (unfold stop_all mark_stopping in refl)

pub enough_live : (target : ℕ) (t : Table) → target ≤ count_live t.slots → enough target t ≡ true
unfolding enough
enough_live target t h = ground arith

start_loop-enough :
    (rounds : ℕ) (fl : FloatOps) (places : Places) (w : World) (target k : ℕ) (t : Table)
    → enough target t ≡ true
    → start_loop rounds fl places w target k t ≡ (t, satisfied)
unfolding start_loop
start_loop-enough zero fl places w target k t e = rw e
start_loop-enough (suc rounds) fl places w target k t e = rw e

-- If no cleanup is pending and the live slots are as many as desired, Ensure leaves the table as it
-- is and calls no hook and no backend, whatever the world would answer.
pub ensure_settled :
    (fl : FloatOps) (places : Places) (w : World) (target : ℕ) (t : Table)
    → keep pending t.slots ≡ []
    → count_live t.slots ≡ target
    → (ensure fl places w target t).0 ≡ t
unfolding ensure
ensure_settled fl places w target t p c =
    if_cases (λ (done : Table × Bool). done.0 ≡ t) w.acquired _ _
      (λ _.
        rw
          (
            retry_cleanup_none w t p,
            start_loop-enough (target - count_live t.slots) fl places w target 0 t
                (enough_live target t (omega arith)),
          )
          (unfold finish in stop_surplus_none fl w w.select_time target t (omega arith)))
      (λ _. refl)
