-- ===== src/ScaleSet/Examples.antt =====
-- Messages at a concrete pool.
use tentacles.Base.{◌≡◌, refl, true, some, none, [], ◌∷◌, codes}
use tentacles.Slot.{idle, busy}
use tentacles.Table.{SlotRec, at_ref}
use tentacles.Table.Surplus.{stop_surplus}
use tentacles.Table.Examples.{numbers, rec_of, two_slots, two_slots-Inv, stops_all}
use tentacles.Pool.{PoolRuntime}
use tentacles.Pool.Retry.{no_backoff}
use tentacles.ScaleSet.{JobStarted, handle_job_started, dispatch}
use tentacles.ScaleSet.Started.{started_job_survives}

abbrev pool : PoolRuntime
pool = record {
  pool_id = codes "org";
  min_runners = 0;
  max_runners = 4;
  table = two_slots;
  desired = 2;
  queued = [];
  backoff = no_backoff;
}

abbrev message : JobStarted
message = record {
  base = record {
    job_id = codes "j";
    job_workflow_ref = codes "build";
    workflow_run_id = 7;
    event_name = codes "push";
    queue_time = some 100;
    runner_assign_time = some 110;
    finish_time = none;
  };
  runner_name = codes "runner";
}

started_job_survives_example :
    (s : SlotRec) × (at_ref 0
        (stop_surplus numbers stops_all true 500 0
          (dispatch numbers 120 (handle_job_started (some message)) pool).0.table).slots
      ≡ some s)
    × (s.state ≡ busy)
    × (s.claimed ≡ true)
    × (s.workflow_ref ≡ codes "build")
started_job_survives_example =
    started_job_survives numbers stops_all true 120 500 0 message pool (rec_of 1 0 idle)
      (rec_of 2 1 busy ∷ []) two_slots-Inv refl refl refl
