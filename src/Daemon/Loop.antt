-- ===== src/Daemon/Loop.antt =====
-- internal/app/app.go: the main loop of run with its retry timer, and what changes the pools between
-- its wake-ups. A wake-up is one step here; the sections of the tables' locks are steps of Table/Steps.
pub mod Ceiling
pub mod Timer
use tentacles.Base.{
  ℕ, zero, suc, ◌≡◌, Bool, true, false, ◌||◌, Option, none, some, List, [], ◌∷◌, if◌then◌else◌,
  take, length, ◌-◌,
}
use tentacles.Base.Float.{FloatOps}
use tentacles.Slot.{SlotId, Slot, Usage}
use tentacles.Table.{Table, Effect, emitted}
use tentacles.Table.Clean.{Worker, WipeCalls, finish_clean}
use tentacles.Table.Exit.{observe_exit}
use tentacles.Table.Sample.{sample_tick}
use tentacles.Table.Start.{Places}
use tentacles.Table.Ensure.{World, shutdown}
use tentacles.Pool.{PoolRuntime, PoolEvent, on_event, on_slot_event}
use tentacles.Schedule.{reconcile_pools}
use tentacles.Schedule.Host.{Host, set_pool, host_pools, next_retry_wait}

-- The variables of the loop: whether reconCh holds a request, and the delay of the retry timer, if it is
-- set.
pub record Loop : Type 0 where
  pub host : Host
  pub cursor : ℕ
  pub requested : Bool
  pub retry : Option ℕ

-- requestReconcile
unfoldable pub request_reconcile : Loop → Loop
request_reconcile l = record l { requested = true }

-- resetRetry
unfoldable pub reset_retry : ℕ → Option ℕ
reset_retry zero = none
reset_retry (suc d) = some (suc d)

-- The cases of the select that reconcile.
pub data Wake : Type 0 where
  request tick retry_timer : Wake

unfoldable pub is_ready : Wake → Loop → Bool
is_ready request l = l.requested
is_ready tick l = true
is_ready retry_timer l = is_set l.retry
  where
    is_set : Option ℕ → Bool
    is_set none = false
    is_set (some d) = true

-- What is received from the channel.
unfoldable pub receive : Wake → Loop → Loop
receive request l = record l { requested = false }
receive tick l = l
receive retry_timer l = record l { retry = none }

-- The pools as a list, from the k-th on.
unfoldable pub pools_from : ℕ → ℕ → Host → List PoolRuntime
pools_from zero k h = []
pools_from (suc count) k h = h.pool k ∷ pools_from count (suc k) h

-- The effects of a table that another one did not have, the newest first.
unfoldable pub new_effects : Table → Table → List Effect
new_effects t u = take (length u.effects - length t.effects) u.effects

abbrev pub run_hook : ℕ → Effect → PoolRuntime × Bool → PoolRuntime × Bool
run_hook now (emitted e s) done =
    let told = on_slot_event now e done.0 in (told.0, told.1 || done.1)
run_hook now _ done = done

-- The event hook of a pool, for each event that its table has told of; whether one asks for a reconcile.
unfoldable pub run_hooks : ℕ → List Effect → PoolRuntime → PoolRuntime × Bool
unfolding on_slot_event
run_hooks now [] p = (p, false)
run_hooks now (e ∷ es) p = run_hook now e (run_hooks now es p)

-- A pool whose table has become another one, after its hooks.
unfoldable pub with_table : ℕ → Table → PoolRuntime → PoolRuntime × Bool
unfolding run_hooks new_effects
with_table now t p = run_hooks now (new_effects p.table t) (record p { table = t })

module _ (fl : FloatOps) (places : ℕ → Places) (answers : ℕ → World) (clock : ℕ → ℕ)
    (cancelled : ℕ → Bool) (n ceiling : ℕ) where
  -- The rest of the loop's body: reconcilePools, then the retry timer.
  unfoldable pub reconcile_round : Loop → Loop
  unfolding reconcile_pools reset_retry next_retry_wait pools_from
  reconcile_round l =
      let done =
        reconcile_pools (host_pools fl places answers clock cancelled n) ceiling l.cursor l.host in
      record {
        host = done.0.0;
        cursor = done.0.1;
        requested = l.requested;
        retry = reset_retry (next_retry_wait (clock done.0.0.asked) (pools_from n 0 done.0.0));
      }

  unfoldable pub wake : Wake → Loop → Loop
  unfolding reconcile_round receive
  wake w l = reconcile_round (receive w l)

  -- A pool's Shutdown. Nothing is reconciled after it.
  unfoldable pub host_shutdown : ℕ → Host → Host
  unfolding set_pool shutdown with_table
  host_shutdown k h =
      let p = h.pool k in
      let done = with_table (clock h.asked) (shutdown fl (answers h.asked) p.table).0 p in
      record (set_pool k done.0 h) { asked = suc h.asked }

  -- shutdownSlots, from the k-th pool on
  unfoldable pub shutdown_slots : ℕ → ℕ → Host → Host
  unfolding host_shutdown
  shutdown_slots zero k h = h
  shutdown_slots (suc count) k h = shutdown_slots count (suc k) (host_shutdown k h)

-- A listener's event at a pool, with the nudge of the scheduler.
unfoldable pub hear : FloatOps → ℕ → ℕ → PoolEvent → Loop → Loop
unfolding on_event set_pool
hear fl now k e l =
    let done = on_event fl now e (l.host.pool k) in
    record l { host = set_pool k done.0 l.host; requested = done.1 || l.requested }

-- The exit of a slot at a pool, with what the hook does.
unfoldable pub see_exit : FloatOps → ℕ → ℕ → SlotId → Option ℕ → Worker → Loop → Loop
unfolding observe_exit set_pool with_table
see_exit fl now k i expected w l =
    let p = l.host.pool k in
    let done = with_table now (observe_exit fl i expected now w p.table) p in
    record l { host = set_pool k done.0 l.host; requested = done.1 || l.requested }

-- The end of a cleanup worker whose caller has gone on.
unfoldable pub see_cleaned : ℕ → ℕ → WipeCalls → Slot → ℕ → Loop → Loop
unfolding finish_clean set_pool with_table
see_cleaned now k w snap p l =
    let q = l.host.pool k in
    let done = with_table now (finish_clean w snap p q.table) q in
    record l { host = set_pool k done.0 l.host; requested = done.1 || l.requested }

-- A tick of a pool's sampler.
unfoldable pub sample_pool : ℕ → (SlotId → Option Usage) → Loop → Loop
unfolding sample_tick set_pool
sample_pool k sampler l =
    let p = l.host.pool k in
    record l { host = set_pool k (record p { table = sample_tick sampler p.table }) l.host }

-- A run of the daemon from a state of the loop: wake-ups, listeners' events, exits, ends of cleanup
-- workers, ticks of the samplers and nudges. The nudges of the hooks in a wake-up are nudges after it.
pub data Ran (fl : FloatOps) (places : ℕ → Places) (answers : ℕ → World) (clock : ℕ → ℕ)
    (cancelled : ℕ → Bool) (n ceiling : ℕ) (l : Loop) : Loop → Type 0 where
  begun : Ran fl places answers clock cancelled n ceiling l l
  woken :
      {m : Loop} (w : Wake)
      → Ran fl places answers clock cancelled n ceiling l m
      → is_ready w m ≡ true
      → Ran fl places answers clock cancelled n ceiling l
          (wake fl places answers clock cancelled n ceiling w m)
  heard :
      {m : Loop} (now k : ℕ) (e : PoolEvent)
      → Ran fl places answers clock cancelled n ceiling l m
      → Ran fl places answers clock cancelled n ceiling l (hear fl now k e m)
  exited :
      {m : Loop} (now k : ℕ) (i : SlotId) (expected : Option ℕ) (w : Worker)
      → Ran fl places answers clock cancelled n ceiling l m
      → Ran fl places answers clock cancelled n ceiling l (see_exit fl now k i expected w m)
  cleaned :
      {m : Loop} (now k : ℕ) (w : WipeCalls) (snap : Slot) (p : ℕ)
      → Ran fl places answers clock cancelled n ceiling l m
      → Ran fl places answers clock cancelled n ceiling l (see_cleaned now k w snap p m)
  sampled :
      {m : Loop} (k : ℕ) (sampler : SlotId → Option Usage)
      → Ran fl places answers clock cancelled n ceiling l m
      → Ran fl places answers clock cancelled n ceiling l (sample_pool k sampler m)
  nudged :
      {m : Loop}
      → Ran fl places answers clock cancelled n ceiling l m
      → Ran fl places answers clock cancelled n ceiling l (request_reconcile m)
