-- ===== src/Table/Examples.antt =====
-- A slot table, outside answers and a job, for the tests in the child modules.
mod Sizing
mod Lifecycle
pub mod Boot
use tentacles.Base.{
  ℕ, zero, suc, ◌+◌, ◌-◌, ◌≤◌, ◌<◌, ◌≡◌, ◌≢◌, refl, inl, inr, ◌⊎◌, Bool, true, false, Option, none,
  some, List, [], ◌∷◌, Text, codes, arith, All, count, min, length, keep, sort_by, insert_by,
  text_eq, drop, take,
}
use tentacles.Base.Float.{FloatOps}
use tentacles.Slot.{SlotId, State, starting, idle, busy, stopping, Slot, Usage, ClaimJob, is_live}
use tentacles.Table.{
  SlotRec, Table, absent, at_id, at_ref, set_state, update, modify, count_live, snapshot,
  set_desired,
}
use tentacles.Table.Claim.{claim, Message, job_started}
use tentacles.Table.Clean.{Worker, ended, still_running, WipeCalls, pending}
use tentacles.Table.Start.{Places, Attempt, Launch, ready, jit_failed, start_one, next_id, new_rec}
use tentacles.Table.Invariant.{Inv}
use tentacles.Table.Invariant.Preserved.{Reach-Inv}
use tentacles.UnitName.{max_slot_id}
use tentacles.Table.Exit.{observe_exit, takes_exit}
use tentacles.Table.Exit.Once.{observe_exit_once}
use tentacles.Table.Claim.Lost.{lost_claim}
use tentacles.Table.Start.NextId.{Finds, next_id_lowest}
use tentacles.Table.Surplus.{StopWorld, chosen, older, eligible, select_surplus, stop_surplus}
use tentacles.Table.Surplus.Count.{select_surplus-count}
use tentacles.Table.Surplus.Oldest.{left_over, chosen_oldest}
use tentacles.Table.Surplus.Spared.{busy_survives, fresh_idle_survives}
use tentacles.Table.Ensure.{World, out_of_rounds, start_loop, ensure, shutdown}
use tentacles.Table.Ensure.Count.{start_one_live}
use tentacles.Table.Ensure.Loop.{start_loop_ends}
use tentacles.Table.Ensure.Settled.{ensure_settled}
use tentacles.Table.Ensure.Converge.{Succeeds, ensure_converges}
use tentacles.Table.Runs.Ensure.{ensure-Reach, shutdown-Reach}
use tentacles.Table.Steps.{Step, Reach, here, next, claims, sets_desired, becomes_stopping}

-- Floats as plain numbers.
abbrev pub numbers : FloatOps
numbers = record {
  zero_value = 0;
  add = λ a b. a + b;
  sub = λ a b. a - b;
  mul = λ a b. a;
  div = λ a b. a;
  maximum = λ a b. a;
  less = λ a b. false;
  of_uint = λ n. n;
  to_uint = λ n. n;
  seconds = λ n. n;
}

abbrev pub slot_of : SlotId → State → Option ℕ → Slot
slot_of i s started_at = record {
  pool = codes "org";
  id = i;
  dir = codes "/slots";
  unit = codes "unit";
  runner_name = codes "runner";
  workflow_ref = [];
  run_id = 0;
  state = s;
  started_at = started_at;
  jit_path = [];
  current_mem_bytes = 0;
  reserved_cores = 0;
  reserved_mem_bytes = 0;
}

abbrev pub no_use : Usage
no_use = record { cpu_seconds = 0; peak_mem_bytes = 0; current_mem_bytes = 0 }

abbrev pub rec_of : SlotId → ℕ → State → SlotRec
rec_of i p s = record {
  slot = slot_of i s (some 100);
  ref = p;
  busy_since = none;
  prov_start = some 90;
  claimed = false;
  result = [];
  queue_wait = 0;
  claim_at = none;
  usage_at_claim = no_use;
  last_usage = no_use;
  sampled_ok = false;
  cleaning = false;
  cleanup_pending = false;
  exit_event = none;
  completion_sent = false;
  clean_done = absent;
}

-- An idle slot and a busy one.
abbrev pub two_slots : Table
two_slots = record {
  namespace = codes "org";
  acquire_grace = 50;
  idle_grace = 30;
  has_completion_hook = true;
  slots = rec_of 1 0 idle ∷ rec_of 2 1 busy ∷ [];
  desired = 2;
  is_closed = false;
  next_ref = 2;
  effects = [];
}

pub two_slots-Inv : Inv two_slots
two_slots-Inv = ground arith

abbrev pub places : Places
places = record { slot_dir = λ i. codes "/slots"; jit_file = λ i. codes "/jit" }

abbrev pub job : ClaimJob
job = record {
  runner_name = codes "runner";
  workflow_ref = codes "w";
  run_id = 7;
  queue_wait_seconds = 0;
}

-- A start that succeeds while a job is claimed for another runner.
abbrev pub good_start : Attempt
good_start = record {
  allowed = true;
  gate = λ live. true;
  begun_at = 200;
  reservation = (1, 2);
  launch = ready (codes "runner-3") 210;
  during = job_started job 205 ∷ [];
  worker = still_running;
}

abbrev pub good_wipe : WipeCalls
good_wipe = record {
  expired_at_start = false;
  expired_after_diag = false;
  has_jit_dir = true;
  jit_removed = true;
  expired_after_jit = false;
  dir_removed = true;
}

abbrev pub stops_all : StopWorld
stops_all = record { stops = λ i. true; exit_time = λ i. 300; worker = λ i. ended good_wipe }

abbrev pub world : World
world = record {
  acquired = true;
  retry_expired = false;
  retry_expired_at = λ i. false;
  retry_worker = λ i. still_running;
  start_expired = λ k. false;
  attempt = λ k. good_start;
  select_time = 250;
  stop = stops_all;
  expired_at_end = false;
}

pub good_start-Succeeds : Succeeds good_start
good_start-Succeeds = record {
  may_start = refl;
  admitted = λ live. refl;
  runner_name = codes "runner-3";
  idle_at = 210;
  launches = refl;
}
