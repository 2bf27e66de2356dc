-- ===== src/Pool.antt =====
-- internal/app/pool.go: what a pool keeps besides its slot table, and how the listener's events and the
-- table's hooks change it. Durations are in nanoseconds.
pub mod Retry
pub mod Queue
pub mod Admission
mod Examples
use tentacles.Base.{
  ℕ, ◌+◌, ◌-◌, ◌%◌, ◌/◌, Bool, true, false, Option, none, some, List, [], ◌∷◌, ◌++◌, Text, codes,
  text_eq, ltb, leb, if◌then◌else◌,
}
use tentacles.Base.Float.{Float64, FloatOps}
use tentacles.Slot.{
  SlotId, Slot, Event, started, exited, stopped, acquire_failure, admission_hold, ClaimJob,
  Completion,
}
use tentacles.UnitName.{format_id}
use tentacles.Table.{Table}
use tentacles.Table.Claim.{claim, mark_result}
use tentacles.Reconcile.{clamp}
use tentacles.History.{Record}
use tentacles.Pool.Retry.{Backoff, record_acquire_failure}
use tentacles.Pool.Queue.{Queued, note_queued, consume}

pub record PoolRuntime : Type 0 where
  pub pool_id : Text
  pub min_runners : ℕ
  pub max_runners : ℕ
  pub table : Table
  pub desired : ℕ
  pub queued : List (Text × Queued)
  pub backoff : Backoff

-- scaleset.Job: what a message of the listener says of a job
pub record Job : Type 0 where
  pub runner_name : Text
  pub job_id : Text
  pub workflow_ref : Text
  pub workflow_run_id : ℕ
  pub event_name : Text
  pub queue_time : Option ℕ
  pub runner_assign_time : Option ℕ
  pub finish_time : Option ℕ
  pub result : Text

-- queueWait
unfoldable pub queue_wait : FloatOps → Job → Float64
queue_wait fl job = waited job.queue_time job.runner_assign_time
  where
    waited : Option ℕ → Option ℕ → Float64
    waited none assigned = fl.zero_value
    waited (some t) none = fl.zero_value
    waited (some t) (some u) = if ltb u t then fl.zero_value else fl.seconds (u - t)

-- What the listener tells a pool.
pub data PoolEvent : Type 0 where
  desired_count : ℕ → PoolEvent
  job_start job_end : Job → PoolEvent
  queued_refs : List Text → PoolEvent

-- The callback JobStart, after Claim has answered.
unfoldable pub claimed_job : Text → Table × Bool → PoolRuntime → PoolRuntime
claimed_job ref (t, true) p = record p { table = t; queued = consume ref p.queued }
claimed_job ref (t, false) p = record p { table = t }

-- buildEvents; the result also tells whether the host's scheduler is nudged.
unfoldable pub on_event : FloatOps → ℕ → PoolEvent → PoolRuntime → PoolRuntime × Bool
unfolding claimed_job queue_wait
on_event fl now (desired_count n) p =
    (record p { desired = clamp n p.min_runners p.max_runners }, true)
on_event fl now (job_start job) p = (
  claimed_job job.workflow_ref
      (claim
        (record {
          runner_name = job.runner_name;
          workflow_ref = job.workflow_ref;
          run_id = job.workflow_run_id;
          queue_wait_seconds = queue_wait fl job;
        })
        now p.table)
      p,
  false,
)
on_event fl now (job_end job) p =
    (record p { table = mark_result job.runner_name job.result p.table }, false)
on_event fl now (queued_refs refs) p = (record p { queued = note_queued now refs p.queued }, false)

-- onSlotEvent; the result also tells whether the host's scheduler is nudged.
unfoldable pub on_slot_event : ℕ → Event → PoolRuntime → PoolRuntime × Bool
on_slot_event now acquire_failure p =
    (record p { backoff = record_acquire_failure now p.backoff }, false)
on_slot_event now admission_hold p = (p, false)
on_slot_event now started p = (p, false)
on_slot_event now exited p = (p, true)
on_slot_event now stopped p = (p, true)

-- The record that onCompletion appends to the history.
unfoldable pub history_record : Text → ℕ → Completion → Record
unfolding format_id
history_record pool_id now c = record {
  pool = pool_id;
  slot = format_id c.id;
  workflow_ref = c.workflow_ref;
  run_id = c.run_id;
  cpu_seconds = c.cpu_seconds;
  peak_mem_bytes = c.peak_mem_bytes;
  wall_seconds = c.wall_seconds;
  queue_wait_seconds = c.queue_wait_seconds;
  sampled = c.sampled;
  at = now;
}

hex_digit : ℕ → ℕ
hex_digit n = if ltb n 10 then 48 + n else 87 + n

-- hex.EncodeToString
unfoldable pub hex : List ℕ → Text
unfolding hex_digit
hex [] = []
hex (b ∷ bs) = hex_digit (b / 16) ∷ hex_digit (b % 16) ∷ hex bs

-- The name that mintJIT gives a runner.
unfoldable pub runner_name_for : Text → SlotId → List ℕ → Text
unfolding format_id hex
runner_name_for scale_set i random =
    scale_set ++ (codes "-" ++ (format_id i ++ (codes "-" ++ hex random)))
