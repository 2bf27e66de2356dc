-- ===== src/Table/Exit.antt =====
-- internal/slot/manager.go: ObserveExit, the section that classifies a confirmed process exit and
-- the calls that follow it.
pub mod Once
use tentacles.Base.{
  ℕ, ◌-◌, Bool, true, false, ◌&&◌, ◌||◌, not, Option, none, some, List, ◌∷◌, ltb, leb, ◌==◌,
  if◌then◌else◌,
}
use tentacles.Base.Float.{Float64, FloatOps}
use tentacles.Slot.{
  SlotId, State, empty, stopping, failed, Event, exited, acquire_failure, Completion,
}
use tentacles.Table.{SlotRec, Table, Effect, open_, emitted, completed, set_state, at_id, update}
use tentacles.Table.Claim.{is_busy}
use tentacles.Table.Clean.{Worker, clean}

is_some : Option ℕ → Bool
is_some none = false
is_some (some n) = true

-- `time.Since(start) < grace`; the zero time lies further back than any grace.
since_lt : ℕ → Option ℕ → ℕ → Bool
since_lt now none grace = false
since_lt now (some t) grace = ltb (now - t) grace

start_time : Option ℕ → Option ℕ → Option ℕ
start_time none prov_start = prov_start
start_time (some t) prov_start = some t

-- quickNeverBusyExit
unfoldable pub quick_never_busy_exit : ℕ → ℕ → SlotRec → State → Bool
unfolding is_some since_lt start_time
quick_never_busy_exit grace now r prev =
    if leb grace 0
    then false
    else if is_busy prev || is_some r.busy_since
    then false
    else since_lt now (start_time r.started_at r.prov_start) grace

abbrev pub is_stopping : State → Bool
is_stopping stopping = true
is_stopping _ = false

abbrev pub is_gone : State → Bool
is_gone empty = true
is_gone failed = true
is_gone _ = false

-- The event of an exit; a stop that the table itself made leaves it as it was.
unfoldable pub exit_event : ℕ → ℕ → SlotRec → Option Event
unfolding quick_never_busy_exit
exit_event grace now r =
    if is_stopping r.state
    then r.exit_event
    else if quick_never_busy_exit grace now r r.state
    then some acquire_failure
    else some exited

abbrev pub is_failure : Option Event → Bool
is_failure (some acquire_failure) = true
is_failure _ = false

-- The event that is left for the end of the cleanup.
unfoldable pub event_left : Option Event → Option Event
event_left e = if is_failure e then none else e

wall_seconds : FloatOps → ℕ → Option ℕ → Float64
wall_seconds fl now none = fl.zero_value
wall_seconds fl now (some t) = fl.seconds (now - t)

unfoldable pub completion_of : FloatOps → ℕ → SlotRec → Completion
unfolding wall_seconds
completion_of fl now r = record {
  id = r.id;
  runner_name = r.runner_name;
  workflow_ref = r.workflow_ref;
  run_id = r.run_id;
  result = r.result;
  cpu_seconds =
      fl.maximum fl.zero_value (fl.sub r.last_usage.cpu_seconds r.usage_at_claim.cpu_seconds);
  peak_mem_bytes = r.last_usage.peak_mem_bytes;
  wall_seconds = wall_seconds fl now r.claim_at;
  queue_wait_seconds = r.queue_wait;
  sampled = r.sampled_ok;
}

unfoldable pub sends_completion : Bool → SlotRec → Bool
sends_completion has_hook r = r.claimed && (not r.completion_sent && has_hook)

-- The record after the locked section.
unfoldable pub exit_rec : Bool → ℕ → ℕ → SlotRec → SlotRec
unfolding exit_event event_left sends_completion
exit_rec has_hook grace now r = record (set_state stopping r) {
  cleanup_pending = true;
  clean_done = open_;
  exit_event = event_left (exit_event grace now r);
  completion_sent = if sends_completion has_hook r then true else r.completion_sent;
}

-- The calls of the event hook and of the completion hook, before the earlier ones.
unfoldable pub exit_calls : FloatOps → Bool → ℕ → ℕ → SlotRec → List Effect → List Effect
unfolding exit_event completion_of sends_completion
exit_calls fl has_hook grace now r es =
    let told =
      if is_failure (exit_event grace now r)
      then emitted acquire_failure (set_state stopping r).slot ∷ es
      else es in
    if sends_completion has_hook r then completed (completion_of fl now r) ∷ told else told

unfoldable pub exit_effects : FloatOps → ℕ → SlotRec → Table → Table
unfolding exit_calls
exit_effects fl now r t = record t {
  effects = exit_calls fl t.has_completion_hook t.acquire_grace now r t.effects;
}

is_other : Option ℕ → SlotRec → Bool
is_other none r = false
is_other (some p) r = not (r.ref == p)

-- Whether an exit of the record is taken up: it is the expected one, it is not being released
-- already, and it has been started.
unfoldable pub takes_exit : Option ℕ → SlotRec → Bool
unfolding is_other
takes_exit expected r =
    not (is_other expected r || (r.cleaning || r.cleanup_pending)) && not (is_gone r.state)

unfoldable pub exit_current : FloatOps → Option ℕ → ℕ → Worker → Option SlotRec → Table → Table
unfolding takes_exit exit_rec exit_effects
exit_current fl expected now w none t = t
exit_current fl expected now w (some r) t =
    if takes_exit expected r
    then clean w r.id r.ref (
        exit_effects fl now r (update r.ref (exit_rec t.has_completion_hook t.acquire_grace now) t))
    else t

-- Table.observeExitContext; ObserveExit expects no particular record.
unfoldable pub observe_exit : FloatOps → SlotId → Option ℕ → ℕ → Worker → Table → Table
unfolding exit_current
observe_exit fl i expected now w t = exit_current fl expected now w (at_id i t.slots) t
