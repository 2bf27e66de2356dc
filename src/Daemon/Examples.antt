-- ===== src/Daemon/Examples.antt =====
-- The daemon at concrete inputs: two pools, whose boot adopts a running slot each.
use tentacles.Base.{
  ◌*◌, count, length, ◌≡◌, refl, true, false, none, some, List, [], ◌∷◌, Text, codes, max, arith,
}
use tentacles.Base.Int.{pos}
use tentacles.Table.{count_live, active, set_desired}
use tentacles.Table.Clean.{retry_cleanup}
use tentacles.Table.Ensure.{ensure}
use tentacles.Table.Surplus.{stop_surplus, chosen, select_surplus}
use tentacles.Table.Examples.{numbers, places, world}
use tentacles.Table.Examples.Boot.{boot, units}
use tentacles.Pool.{desired_count}
use tentacles.Pool.Retry.{second, no_backoff, acquire_retry_wait, after_failures}
use tentacles.Schedule.Host.{Host, host_ensure, host_set_desired, host_waits, live_slots}
use tentacles.Schedule.Examples.{growing}
use tentacles.Config.{Pool}
use tentacles.Config.Defaults.{Document, decoded, end_of_file, loaded, load}
use tentacles.Config.Examples.{everything, pool_named, two, good_disk}
use tentacles.Daemon.Listener.{
  Round, returns, ends_in_pause, run_listener, error_counted, paused, stopped, IsPaced, listening,
  is_listening, is_counted, met, fails, expected_end, listener_restarts,
}
use tentacles.Daemon.Loop.{
  Loop, begun, woken, heard, request, tick, wake, is_ready, hear, shutdown_slots,
}
use tentacles.Daemon.Loop.Ceiling.{Holds, total_live}
use tentacles.Daemon.Loop.Timer.{GoesOff, IsWaiting, wake_sets_timer}
use tentacles.Daemon.Boot.{Setup, DaemonPool, table_settings, root_runner, not_set_up, runs, run}
use tentacles.Daemon.Boot.Checked.{IsRunning, run-IsRunning}
use tentacles.Daemon.Start.{StartWorld, new_pool, start}
use tentacles.Daemon.Start.Ceiling.{served_ceiling}

abbrev rounds : List Round
rounds = returns true ∷ returns false ∷ ends_in_pause true ∷ []

listened : run_listener 0 rounds ≡ (
  listening
      ∷ error_counted
      ∷ paused 1000000000
      ∷ listening
      ∷ paused 2000000000
      ∷ listening
      ∷ error_counted
      ∷ paused 5000000000
      ∷ [],
  stopped,
)
unfolding run_listener
listened = refl

listener_restarts_example :
    IsPaced false 1000000000 (run_listener 0 rounds).0
    × (count is_listening (run_listener 0 rounds).0 ≡ length (met rounds))
    × (count is_counted (run_listener 0 rounds).0 ≡ count fails (met rounds))
    × ((run_listener 0 rounds).1 ≡ expected_end rounds)
listener_restarts_example = listener_restarts rounds

-- Two pools that want a slot and have failed to start one at five seconds.
abbrev failed_host : Host
failed_host = record {
  pool = λ k. record growing { backoff = after_failures (5 * second ∷ []) };
  asked = 0;
}

abbrev before : Loop
before = record { host = failed_host; cursor = 1; requested = true; retry = none }

abbrev after : Loop
after = wake numbers (λ k. places) (λ k. world) (λ k. 5 * second) (λ k. true) 2 5 request before

two_live : count_live (after.host.pool 1).table.slots ≡ 2
unfolding wake count_live host_ensure host_set_desired host_waits live_slots ensure active
    set_desired retry_cleanup stop_surplus chosen select_surplus
two_live = refl

three_desired : (after.host.pool 1).desired ≡ 3
unfolding wake host_ensure host_set_desired host_waits live_slots ensure active set_desired
    retry_cleanup stop_surplus chosen select_surplus
three_desired = refl

one_second : acquire_retry_wait (5 * second) (after.host.pool 1).backoff ≡ second
unfolding wake host_ensure host_set_desired host_waits live_slots after_failures acquire_retry_wait
    ensure active set_desired retry_cleanup stop_surplus chosen select_surplus
one_second = refl

waiting : IsWaiting (5 * second) (after.host.pool 1)
waiting = record {
  wanting = omega (arith, two_live, three_desired);
  backing_off = omega (arith, one_second);
}

wake_sets_timer_example :
    GoesOff after.retry (acquire_retry_wait (5 * second) (after.host.pool 1).backoff)
wake_sets_timer_example =
    wake_sets_timer numbers (λ k. places) (λ k. world) (λ k. 5 * second) (λ k. true) 2 5 request
      before 1 (omega arith) waiting

abbrev setup : Setup
setup = record {
  runner_uid = some 1001;
  euid = 0;
  is_supported = true;
  latest = some (codes "2.320.0", codes "abc");
  has_payload = λ version digest url. true;
  has_history = true;
  hostname = some (codes "builder");
  read_key = λ path. some (codes "key");
  has_client = λ url key owner. true;
}

abbrev document : Document
document = record { is_readable = true; first = decoded two; second = end_of_file; tree = none }

-- A pool's settings while the daemon is set up, with the hostname `builder`.
abbrev built : Text → Pool → DaemonPool
built owner p = record {
  config = p;
  desired = p.capacity.min_runners;
  url = codes "https://github.com/acme";
  session_owner = owner;
  settings = table_settings two true p;
}

abbrev org_a : Pool
org_a = pool_named (codes "org-a") (pos 1) (pos 4)

abbrev org_b : Pool
org_b = pool_named (codes "org-b") (pos 2) (pos 6)

abbrev daemon_pools : List DaemonPool
daemon_pools = built (codes "builder-org-a") org_a ∷ built (codes "builder-org-b") org_b ∷ []

-- Root may not run the jobs.
root_refused :
    run everything good_disk (record setup { runner_uid = some 0 }) false document
    ≡ not_set_up root_runner
unfolding run
root_refused = refl

runs_two : run everything good_disk setup false document ≡ runs two daemon_pools
unfolding run
runs_two = refl

run-IsRunning_example :
    (false ≡ false)
    × (load document ≡ loaded two)
    × IsRunning everything good_disk setup two daemon_pools
run-IsRunning_example =
    run-IsRunning everything good_disk setup false document two daemon_pools runs_two

-- Pools as new as newDaemonContext makes them.
abbrev fresh : Host
fresh = record { pool = λ k. new_pool no_backoff (built (codes "builder-org-a") org_a); asked = 0 }

abbrev at_boot : StartWorld
at_boot = record { scale_set_ready = λ k. true; units = λ k. some units; adoption = λ k. boot }

-- The daemon after its boot adoption, and one wake-up of its loop later.
abbrev served : Loop
served = record {
  host = (start numbers (λ k. places) at_boot 2 fresh).0;
  cursor = 0;
  requested = true;
  retry = none;
}

served_ceiling_example :
    let h = (start numbers (λ k. places) at_boot 2 fresh).0 in
    let m =
      wake numbers
        (λ k. places)
        (λ k. world)
        (λ k. 5 * second)
        (λ k. false)
        2
        5
        tick
        (hear numbers (5 * second) 1 (desired_count 3) served) in
    let bound =
      max (total_live numbers (λ k. places) (λ k. world) (λ k. 5 * second) (λ k. false) 2 5 h) 5 in
    Holds numbers (λ k. places) (λ k. world) (λ k. 5 * second) (λ k. false) 2 5 bound m.host
    × Holds numbers
        (λ k. places)
        (λ k. world)
        (λ k. 5 * second)
        (λ k. false)
        2
        5
        bound
        (shutdown_slots numbers
          (λ k. places)
          (λ k. world)
          (λ k. 5 * second)
          (λ k. false)
          2
          5
          2
          0
          m.host)
unfolding new_pool is_ready
served_ceiling_example =
    served_ceiling numbers (λ k. places) at_boot (λ k. world) (λ k. 5 * second) (λ k. false) 2 5
      fresh (λ k. table_settings two true org_a) (λ k. refl) refl
      (woken tick (heard (5 * second) 1 (desired_count 3) begun) refl)
