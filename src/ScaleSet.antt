-- ===== src/ScaleSet.antt =====
-- internal/scaleset/adapter.go: how the messages of a scale set become events of its pool, and how the
-- scale set is resolved. The client of the CI service is outside.
pub mod Started
mod Examples
use tentacles.Base.{
  ℕ, Bool, true, false, Option, none, some, List, [], ◌∷◌, Text, codes, text_eq, if◌then◌else◌,
  ◌||◌, keep, not,
}
use tentacles.Base.Float.{FloatOps}
use tentacles.Reconcile.{clamp}
use tentacles.Pool.{
  PoolRuntime, Job, PoolEvent, desired_count, job_start, job_end, queued_refs, on_event,
}

-- What the client reports of a job in every message about it.
pub record JobMessageBase : Type 0 where
  pub job_id : Text
  pub job_workflow_ref : Text
  pub workflow_run_id : ℕ
  pub event_name : Text
  pub queue_time : Option ℕ
  pub runner_assign_time : Option ℕ
  pub finish_time : Option ℕ

pub record JobStarted : Type 0 where
  pub base : JobMessageBase
  pub runner_name : Text

pub record JobCompleted : Type 0 where
  pub base : JobMessageBase
  pub runner_name : Text
  pub result : Text

-- job
unfoldable pub job_of : JobMessageBase → Text → Text → Job
job_of base runner_name result = record {
  runner_name = runner_name;
  job_id = base.job_id;
  workflow_ref = base.job_workflow_ref;
  workflow_run_id = base.workflow_run_id;
  event_name = base.event_name;
  queue_time = base.queue_time;
  runner_assign_time = base.runner_assign_time;
  finish_time = base.finish_time;
  result = result;
}

-- HandleDesiredRunnerCount: the event, with the count that is returned to the listener
unfoldable pub handle_desired_runner_count : ℕ → ℕ → ℕ → PoolEvent × ℕ
handle_desired_runner_count min_runners max_runners count =
    let d = clamp count min_runners max_runners in (desired_count d, d)

-- HandleJobStarted and HandleJobCompleted; a missing message is an error.
unfoldable pub handle_job_started : Option JobStarted → Option PoolEvent
unfolding job_of
handle_job_started none = none
handle_job_started (some m) = some (job_start (job_of m.base m.runner_name []))

unfoldable pub handle_job_completed : Option JobCompleted → Option PoolEvent
unfolding job_of
handle_job_completed none = none
handle_job_completed (some m) = some (job_end (job_of m.base m.runner_name m.result))

-- The workflows of the jobs that wait; a message that is missing or names none is passed over.
unfoldable pub waiting_refs : List (Option JobMessageBase) → List Text
waiting_refs [] = []
waiting_refs (none ∷ ms) = waiting_refs ms
waiting_refs (some m ∷ ms) =
    let rest = waiting_refs ms in
    if text_eq m.job_workflow_ref [] then rest else m.job_workflow_ref ∷ rest

-- observeMessage, of the jobs that a message reports as waiting
unfoldable pub observe_message : List (Option JobMessageBase) → Option PoolEvent
unfolding waiting_refs
observe_message ms = elim (waiting_refs ms) [
  | [] ↦ none
  | ref ∷ refs ↦ some (queued_refs (ref ∷ refs))
]

-- An event, if there is one, at its pool.
unfoldable pub dispatch : FloatOps → ℕ → Option PoolEvent → PoolRuntime → PoolRuntime × Bool
unfolding on_event
dispatch fl now none p = (p, false)
dispatch fl now (some e) p = on_event fl now e p

-- buildLabels
unfoldable pub build_labels : Text → List Text → List Text
build_labels name extra = name ∷ keep (λ l. not (text_eq l [])) extra

-- What the client answers while a scale set is resolved; `none` is an error.
pub record Client : Type 0 where
  pub runner_group_by_name : Text → Option ℕ
  -- the scale set, or that there is none
  pub runner_scale_set : ℕ → Text → Option (Option ℕ)
  pub create_runner_scale_set : ℕ → Text → List Text → Option ℕ

unfoldable pub group_id : Client → Text → Option ℕ
group_id c group =
    if text_eq group [] || (text_eq group (codes "default") || text_eq group (codes "Default"))
    then some 1
    else c.runner_group_by_name group

unfoldable pub resolve : Client → Text → List Text → ℕ → Option (Option ℕ) → Option ℕ
unfolding build_labels
resolve c name extra group none = none
resolve c name extra group (some (some i)) = some i
resolve c name extra group (some none) =
    c.create_runner_scale_set group name (build_labels name extra)

-- EnsureScaleSet: the ID of the scale set
unfoldable pub ensure_scale_set : Client → Text → Text → List Text → Option ℕ
unfolding group_id resolve
ensure_scale_set c group name extra = in_group (group_id c group)
  where
    in_group : Option ℕ → Option ℕ
    in_group none = none
    in_group (some i) = resolve c name extra i (c.runner_scale_set i name)
