-- ===== src/Daemon/Loop/Ceiling.antt =====
-- The live slots of all pools through a run of the daemon.
use tentacles.Base.{
  ℕ, zero, suc, ◌≤◌, ◌≡◌, refl, sym, subst, Bool, true, false, arith, max, ◌==◌, if_cases, Text,
  List, [], ◌∷◌,
}
use tentacles.Base.Float.{FloatOps}
use tentacles.Table.{Table, Effect, emitted, completed, launched, stop_called, count_live}
use tentacles.Slot.{acquire_failure, admission_hold, started, exited, stopped}
use tentacles.Table.Claim.Live.{count_live-claim, count_live-mark_result}
use tentacles.Table.Start.{Places}
use tentacles.Table.Ensure.{World, shutdown}
use tentacles.Table.Ensure.Total.{shutdown_le}
use tentacles.Table.Runs.Ensure.{shutdown-Reach}
use tentacles.Table.Ensure.Bound.{observe_exit_le, finish_clean_le, sample_tick_le}
use tentacles.Table.Sample.{sample_tick}
use tentacles.Table.Runs.Background.{sample_tick-Reach}
use tentacles.Table.Invariant.{Inv}
use tentacles.Table.Invariant.Preserved.{Reach-Inv}
use tentacles.Table.Steps.{Reach-Step, claims, results}
use tentacles.Table.Runs.Release.{observe_exit-Reach, finish_clean-Reach}
use tentacles.Pool.{
  on_slot_event, PoolRuntime, PoolEvent, desired_count, job_start, job_end, queued_refs,
  claimed_job, on_event,
}
use tentacles.Schedule.{all_active}
use tentacles.Schedule.Ceiling.{active_le}
use tentacles.Schedule.Host.{Host, live_slots, set_pool, host_pools}
use tentacles.Schedule.Host.Laws.{length-active, reconcile_pools-Inv, reconcile_pools_ceiling}
use tentacles.Daemon.Loop.{
  Loop, Wake, wake, receive, reconcile_round, hear, see_exit, request_reconcile, Ran, begun, woken,
  heard, exited, cleaned, see_cleaned, run_hooks, with_table, new_effects, sampled, sample_pool,
  nudged, shutdown_slots, host_shutdown, request, tick, retry_timer,
}

-- A pool that another one may stand for: its table satisfies the invariant, and it has no more live slots.
record IsKept (p q : PoolRuntime) : Type 0 where
  pub sound : Inv q.table
  pub fewer : live_slots q ≤ live_slots p

IsKept-by_table :
    (p q : PoolRuntime)
    → Inv q.table
    → count_live q.table.slots ≤ count_live p.table.slots
    → IsKept p q
IsKept-by_table p q v h = record {
  sound = v;
  fewer = unfold live_slots in omega (arith, length-active p.table, length-active q.table, h);
}

-- The hooks leave the table as it is.
run_hooks-table :
    (now : ℕ) (es : List Effect) (p : PoolRuntime) → (run_hooks now es p).0.table ≡ p.table
unfolding run_hooks on_slot_event
run_hooks-table now [] p = refl
run_hooks-table now (emitted acquire_failure s ∷ es) p = run_hooks-table now es p
run_hooks-table now (emitted admission_hold s ∷ es) p = run_hooks-table now es p
run_hooks-table now (emitted started s ∷ es) p = run_hooks-table now es p
run_hooks-table now (emitted exited s ∷ es) p = run_hooks-table now es p
run_hooks-table now (emitted stopped s ∷ es) p = run_hooks-table now es p
run_hooks-table now (completed c ∷ es) p = run_hooks-table now es p
run_hooks-table now (launched i ∷ es) p = run_hooks-table now es p
run_hooks-table now (stop_called i ∷ es) p = run_hooks-table now es p

with_table-IsKept :
    (now : ℕ) (t : Table) (p : PoolRuntime)
    → Inv t
    → count_live t.slots ≤ count_live p.table.slots
    → IsKept p (with_table now t p).0
unfolding with_table
with_table-IsKept now t p v h =
    let same = run_hooks-table now (new_effects p.table t) (record p { table = t }) in
    IsKept-by_table p _ (subst Inv (sym same) v)
      (subst (λ u. count_live u.slots ≤ count_live p.table.slots) (sym same) h)

claimed_job-IsKept :
    (ref : Text) (p : PoolRuntime) (done : Table × Bool)
    → Inv done.0
    → count_live done.0.slots ≤ count_live p.table.slots
    → IsKept p (claimed_job ref done p)
unfolding claimed_job
claimed_job-IsKept ref p (t, true) v h = IsKept-by_table p _ v h
claimed_job-IsKept ref p (t, false) v h = IsKept-by_table p _ v h

on_event-IsKept :
    (fl : FloatOps) (now : ℕ) (e : PoolEvent) (p : PoolRuntime)
    → Inv p.table
    → IsKept p (on_event fl now e p).0
unfolding on_event
on_event-IsKept fl now (desired_count m) p v = IsKept-by_table p _ v (omega arith)
on_event-IsKept fl now (queued_refs refs) p v = IsKept-by_table p _ v (omega arith)
on_event-IsKept fl now (job_start job) p v =
    claimed_job-IsKept job.workflow_ref p _ (Reach-Inv (Reach-Step (claims _ now)) v)
      (omega (arith, count_live-claim _ now p.table))
on_event-IsKept fl now (job_end job) p v =
    IsKept-by_table p _ (Reach-Inv (Reach-Step (results job.runner_name job.result)) v)
      (omega (arith, count_live-mark_result job.runner_name job.result p.table))

module _ (fl : FloatOps) (places : ℕ → Places) (answers : ℕ → World) (clock : ℕ → ℕ)
    (cancelled : ℕ → Bool) (n ceiling : ℕ) where
  -- The live slots of the host's pools together.
  abbrev pub total_live : Host → ℕ
  total_live h = all_active (host_pools fl places answers clock cancelled n) n 0 h

  -- Every table satisfies the invariant, and the live slots together are at most `bound`.
  abbrev pub Holds : ℕ → Host → Type 0
  Holds bound h = ((k : ℕ) → Inv (h.pool k).table) × (total_live h ≤ bound)

  set_pool-Holds :
      (bound k : ℕ) (q : PoolRuntime) (h : Host)
      → IsKept (h.pool k) q
      → Holds bound h
      → Holds bound (set_pool k q h)
  unfolding set_pool
  set_pool-Holds bound k q h kept holds = (
    λ j.
        if_cases (λ (p : PoolRuntime). Inv p.table) (j == k) _ _ (λ _. kept.sound) (λ _. holds.0 j),
    omega (
      arith,
      holds.1,
      active_le (host_pools fl places answers clock cancelled n) n 0 h (set_pool k q h) (λ j _.
          if_cases (λ (p : PoolRuntime). live_slots p ≤ live_slots (h.pool j)) (j == k) _ _
            (λ e.
              let same : j ≡ k = ground (arith, e) in
              subst (λ i. live_slots q ≤ live_slots (h.pool i)) (sym same) kept.fewer)
            (λ _. omega arith)),
    ),
  )

  round-Holds :
      (bound : ℕ) (l : Loop)
      → ceiling ≤ bound
      → Holds bound l.host
      → Holds bound (reconcile_round fl places answers clock cancelled n ceiling l).host
  unfolding reconcile_round
  round-Holds bound l room holds = (
    reconcile_pools-Inv fl places answers clock cancelled n ceiling l.cursor l.host holds.0,
    omega (
      arith,
      holds.1,
      room,
      reconcile_pools_ceiling fl places answers clock cancelled n ceiling l.cursor l.host holds.0,
    ),
  )

  receive-host : (w : Wake) (l : Loop) → (receive w l).host ≡ l.host
  unfolding receive
  receive-host request l = refl
  receive-host tick l = refl
  receive-host retry_timer l = refl

  Ran-Holds :
      (bound : ℕ) {l m : Loop}
      → ceiling ≤ bound
      → Ran fl places answers clock cancelled n ceiling l m
      → Holds bound l.host
      → Holds bound m.host
  unfolding wake hear see_exit see_cleaned sample_pool request_reconcile
  Ran-Holds bound room begun holds = holds
  Ran-Holds bound room (woken {m} w ran ready) holds =
      round-Holds bound (receive w m) room
        (subst (Holds bound) (sym (receive-host w m)) (Ran-Holds bound room ran holds))
  Ran-Holds bound room (heard {m} now k e ran) holds =
      let before = Ran-Holds bound room ran holds in
      set_pool-Holds bound k _ m.host (on_event-IsKept fl now e (m.host.pool k) (before.0 k)) before
  Ran-Holds bound room (exited {m} now k i expected w ran) holds =
      let before = Ran-Holds bound room ran holds in
      let t = (m.host.pool k).table in
      set_pool-Holds bound k _ m.host
        (with_table-IsKept now _ (m.host.pool k)
          (Reach-Inv (observe_exit-Reach fl i expected now w t) (before.0 k))
          (observe_exit_le fl i expected now w t))
        before
  Ran-Holds bound room (cleaned {m} now k w snap p ran) holds =
      let before = Ran-Holds bound room ran holds in
      let t = (m.host.pool k).table in
      set_pool-Holds bound k _ m.host
        (with_table-IsKept now _ (m.host.pool k)
          (Reach-Inv (finish_clean-Reach w snap p t) (before.0 k)) (finish_clean_le w snap p t))
        before
  Ran-Holds bound room (sampled {m} k sampler ran) holds =
      let before = Ran-Holds bound room ran holds in
      let p = m.host.pool k in
      let t = sample_tick sampler p.table in
      set_pool-Holds bound k _ m.host
        (IsKept-by_table p (record p { table = t })
          (Reach-Inv (sample_tick-Reach sampler p.table) (before.0 k))
          (sample_tick_le sampler p.table))
        before
  Ran-Holds bound room (nudged ran) holds = Ran-Holds bound room ran holds

  shutdown_slots-Holds :
      (bound count k : ℕ) (h : Host)
      → Holds bound h
      → Holds bound (shutdown_slots fl places answers clock cancelled n ceiling count k h)
  unfolding shutdown_slots host_shutdown
  shutdown_slots-Holds bound zero k h holds = holds
  shutdown_slots-Holds bound (suc count) k h holds =
      let p = h.pool k in
      let t = (shutdown fl (answers h.asked) p.table).0 in
      let q = (with_table (clock h.asked) t p).0 in
      let kept =
        with_table-IsKept (clock h.asked) t p
          (Reach-Inv (shutdown-Reach fl (answers h.asked) p.table (holds.0 k)) (holds.0 k))
          (shutdown_le fl (answers h.asked) p.table (holds.0 k)) in
      let h' = host_shutdown fl places answers clock cancelled n ceiling k h in
      let one = set_pool-Holds bound k q h kept holds in
      let same =
        active_le (host_pools fl places answers clock cancelled n) n 0 (set_pool k q h) h'
          (λ j _. omega arith) in
      shutdown_slots-Holds bound count (suc k) h' (one.0, omega (arith, one.1, same))

  -- Through the whole run of the daemon's loop, and after shutdownSlots at its end, whatever wakes it,
  -- whatever the listeners deliver, whichever slots exit or are sampled, whenever cleanup
  -- workers end, and whatever the outside calls answer: every pool's
  -- table satisfies the invariant, and all pools together have at most Capacity.MaxRunners live slots, or
  -- as many as at the start, if those are more. The tables satisfy the invariant at the start.
  pub daemon_ceiling :
      {l m : Loop}
      → ((k : ℕ) → Inv (l.host.pool k).table)
      → Ran fl places answers clock cancelled n ceiling l m
      → Holds (max (total_live l.host) ceiling) m.host
        × Holds
            (max (total_live l.host) ceiling)
            (shutdown_slots fl places answers clock cancelled n ceiling n 0 m.host)
  daemon_ceiling {l} {m} v ran =
      let bound = max (total_live l.host) ceiling in
      let holds = Ran-Holds bound (omega arith) ran (v, omega arith) in
      (holds, shutdown_slots-Holds bound n 0 m.host holds)
