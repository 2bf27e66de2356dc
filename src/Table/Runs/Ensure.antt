-- ===== src/Table/Runs/Ensure.antt =====
-- Ensure and Shutdown as runs of sections.
use tentacles.Base.{ℕ, zero, suc, ◌-◌, Bool, true, false, Option, none, some, if_cases}
use tentacles.Base.Float.{FloatOps}
use tentacles.Slot.{SlotId}
use tentacles.Table.{Table, count_live}
use tentacles.Table.Clean.{retry_cleanup}
use tentacles.Table.Start.{Places, start_one}
use tentacles.Table.Ensure.{
  World, LoopEnd, satisfied, start_failed, cancelled, out_of_rounds, enough, round_end, start_loop,
  finish, ensure, shutdown,
}
use tentacles.Table.Invariant.{Inv}
use tentacles.Table.Invariant.Preserved.{Reach-Inv}
use tentacles.Table.Steps.{Reach, here, Reach-trans}
use tentacles.Table.Runs.Release.{retry_cleanup-Reach}
use tentacles.Table.Runs.Surplus.{stop_surplus-Reach}
use tentacles.Table.Runs.Start.{start_one-Reach}

round_end-Reach :
    {t : Table} (tried : Table × Option SlotId) (rest : Table × LoopEnd)
    → Reach t tried.0
    → Reach t rest.0
    → Reach t (round_end tried rest).0
unfolding round_end
round_end-Reach (u, none) rest r s = r
round_end-Reach (u, some i) rest r s = s

pub start_loop-Reach :
    (rounds : ℕ) (fl : FloatOps) (places : Places) (w : World) (target k : ℕ) (t : Table)
    → Inv t
    → Reach t (start_loop rounds fl places w target k t).0
unfolding start_loop
start_loop-Reach zero fl places w target k t v = here
start_loop-Reach (suc rounds) fl places w target k t v =
    let started = start_one-Reach fl places (w.attempt k) t v in
    if_cases (λ (done : Table × LoopEnd). Reach t done.0) (enough target t) _ _ (λ _. here)
      (λ _.
        if_cases (λ (done : Table × LoopEnd). Reach t done.0) (w.start_expired k) _ _ (λ _. here)
          (λ _. round_end-Reach (start_one fl places (w.attempt k) t) _ started (
            Reach-trans started
              (start_loop-Reach rounds fl places w target (suc k) _ (Reach-Inv started v)))))

finish-Reach :
    (fl : FloatOps) (w : World) (target : ℕ) (t : Table) (done : Table × LoopEnd)
    → Inv done.0
    → Reach t done.0
    → Reach t (finish fl w target done).0
unfolding finish
finish-Reach fl w target t (u, cancelled) v r = r
finish-Reach fl w target t (u, satisfied) v r =
    Reach-trans r (stop_surplus-Reach fl w.stop false w.select_time target u v)
finish-Reach fl w target t (u, start_failed) v r =
    Reach-trans r (stop_surplus-Reach fl w.stop false w.select_time target u v)
finish-Reach fl w target t (u, out_of_rounds) v r =
    Reach-trans r (stop_surplus-Reach fl w.stop false w.select_time target u v)

-- From a table in which the invariant holds, Ensure is a run of the table's guarded sections, whatever
-- the outside calls answer and whatever the listener's messages during its launches are.
pub ensure-Reach :
    (fl : FloatOps) (places : Places) (w : World) (target : ℕ) (t : Table)
    → Inv t
    → Reach t (ensure fl places w target t).0
unfolding ensure
ensure-Reach fl places w target t v =
    let retried = retry_cleanup w.retry_expired w.retry_expired_at w.retry_worker t in
    let first = retry_cleanup-Reach w.retry_expired w.retry_expired_at w.retry_worker t v in
    let looped = start_loop (target - count_live retried.slots) fl places w target 0 retried in
    let second =
      Reach-trans first (start_loop-Reach _ fl places w target 0 retried (Reach-Inv first v)) in
    if_cases (λ (done : Table × Bool). Reach t done.0) w.acquired _ _
      (λ _. finish-Reach fl w target t looped (Reach-Inv second v) second) (λ _. here)

-- From a table in which the invariant holds, Shutdown is a run of the table's guarded sections,
-- whatever the outside calls answer.
pub shutdown-Reach : (fl : FloatOps) (w : World) (t : Table) → Inv t → Reach t (shutdown fl w t).0
unfolding shutdown
shutdown-Reach fl w t v =
    let first = retry_cleanup-Reach w.retry_expired w.retry_expired_at w.retry_worker t v in
    if_cases (λ (done : Table × Bool). Reach t done.0) w.acquired _ _
      (λ _.
        Reach-trans first (stop_surplus-Reach fl w.stop true w.select_time 0 _ (Reach-Inv first v)))
      (λ _. here)

-- Ensure keeps the invariant, whatever the outside calls answer.
pub ensure-Inv :
    (fl : FloatOps) (places : Places) (w : World) (target : ℕ) (t : Table)
    → Inv t
    → Inv (ensure fl places w target t).0
ensure-Inv fl places w target t v = Reach-Inv (ensure-Reach fl places w target t v) v
