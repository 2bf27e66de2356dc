-- ===== src/Schedule/Examples.antt =====
-- The scheduler at concrete inputs.
use tentacles.Base.{◌*◌, ◌≤◌, ◌≢◌, false, [], ◌∷◌, codes, max}
use tentacles.Table.Examples.{numbers, places, world, two_slots, two_slots-Inv}
use tentacles.Pool.{PoolRuntime}
use tentacles.Pool.Retry.{second, after_failures, no_backoff}
use tentacles.Schedule.{Pools, all_active, reconcile_pools, spread_ended, out_of_rounds}
use tentacles.Schedule.Rounds.{reconcile_pools_ends}
use tentacles.Schedule.Host.{Host, host_pools}
use tentacles.Schedule.Host.Laws.{reconcile_pools_ceiling}

-- A pool with two live slots that wants three.
abbrev pub growing : PoolRuntime
growing = record {
  pool_id = codes "org";
  min_runners = 0;
  max_runners = 4;
  table = two_slots;
  desired = 3;
  queued = [];
  backoff = no_backoff;
}

-- It fails to start one at five seconds.
abbrev failing : PoolRuntime
failing = record growing { backoff = after_failures (5 * second ∷ []) }

abbrev pub host : Host
host = record { pool = λ k. growing; asked = 0 }

abbrev pools : Pools Host
pools = host_pools numbers (λ k. places) (λ k. world) (λ k. 5 * second) (λ k. false) 2

reconcile_pools_ceiling_example :
    all_active pools 2 0 (reconcile_pools pools 5 0 host).0.0 ≤ max (all_active pools 2 0 host) 5
reconcile_pools_ceiling_example =
    reconcile_pools_ceiling numbers (λ k. places) (λ k. world) (λ k. 5 * second) (λ k. false) 2 5 0
      host (λ k. two_slots-Inv)

reconcile_pools_ends_example : (reconcile_pools pools 5 0 host).1 ≢ spread_ended out_of_rounds
reconcile_pools_ends_example = reconcile_pools_ends pools 5 0 host
