-- ===== src/Table/Start.antt =====
-- internal/slot/manager.go: startOne, section by section, with the outcome of each outside call as
-- an argument. `during` are the listener's messages that arrive while the backend launches.
pub mod NextId
use tentacles.Base.{
  ℕ, zero, suc, ◌+◌, Bool, true, false, Option, none, some, List, [], ◌∷◌, Text, text_eq, ◌==◌,
  if◌then◌else◌,
}
use tentacles.Base.Float.{Float64, FloatOps}
use tentacles.Slot.{
  SlotId, State, starting, idle, busy, stopping, started, acquire_failure, admission_hold, Usage,
  Slot, is_live,
}
use tentacles.UnitName.{unit_name, max_slot_id}
use tentacles.Table.{
  SlotRec, Table, absent, launched, set_state, at_id, at_ref, modify, remove, update, emit,
  snapshot,
}
use tentacles.Table.Claim.{Message, deliver_all}
use tentacles.Table.Clean.{Worker, clean}

-- Where a slot's files lie: filepath.Join with the table's root and with its JIT directory.
pub record Places : Type 0 where
  pub slot_dir : SlotId → Text
  pub jit_file : SlotId → Text

pub data Launch : Type 0 where
  mkdir_failed materialize_failed jit_failed : Launch
  write_failed not_started uncertain : Text → Launch
  ready : Text → ℕ → Launch

-- What the world answers during one attempt to start a slot.
pub record Attempt : Type 0 where
  pub allowed : Bool
  pub gate : List Slot → Bool
  pub begun_at : ℕ
  pub reservation : Float64 × ℕ
  pub launch : Launch
  pub during : List Message
  pub worker : Worker

unfoldable pub id_free : SlotId → List SlotRec → Bool
unfolding at_id
id_free i rs = elim (at_id i rs) [ none ↦ true | some r ↦ false ]

-- The loop of nextIDLocked over `count` IDs from `n` on.
unfoldable pub next_id_from : ℕ → SlotId → List SlotRec → Option SlotId
unfolding id_free
next_id_from zero n rs = none
next_id_from (suc count) n rs =
    let rest = next_id_from count (suc n) rs in if id_free n rs then some n else rest

-- nextIDLocked
unfoldable pub next_id : List SlotRec → Option SlotId
unfolding next_id_from
next_id rs = next_id_from max_slot_id 1 rs

abbrev pub no_usage : FloatOps → Usage
no_usage fl = record { cpu_seconds = fl.zero_value; peak_mem_bytes = 0; current_mem_bytes = 0 }

-- The literal `&slotRec{Slot: Slot{…}}`, whose other fields are zero.
unfoldable pub new_rec : FloatOps → Slot → ℕ → Option ℕ → SlotRec
new_rec fl s p prov_start = record {
  slot = s;
  ref = p;
  busy_since = none;
  prov_start = prov_start;
  claimed = false;
  result = [];
  queue_wait = fl.zero_value;
  claim_at = none;
  usage_at_claim = no_usage fl;
  last_usage = no_usage fl;
  sampled_ok = false;
  cleaning = false;
  cleanup_pending = false;
  exit_event = none;
  completion_sent = false;
  clean_done = absent;
}

unfoldable pub fresh_slot : Places → Table → SlotId → Float64 × ℕ → Slot
unfolding unit_name
fresh_slot places t i (cores, memory) = record {
  pool = t.namespace;
  id = i;
  dir = places.slot_dir i;
  unit = unit_name t.namespace i;
  runner_name = [];
  workflow_ref = [];
  run_id = 0;
  state = starting;
  started_at = none;
  jit_path = [];
  current_mem_bytes = 0;
  reserved_cores = cores;
  reserved_mem_bytes = memory;
}

-- The section that takes the ID.
unfoldable pub reserve : FloatOps → Places → Attempt → SlotId → Table → Table
unfolding new_rec fresh_slot
reserve fl places a i t = record t {
  slots = new_rec fl (fresh_slot places t i a.reservation) t.next_ref (some a.begun_at) ∷ t.slots;
  next_ref = suc t.next_ref;
}

unfoldable pub emit_at : ℕ → Table → Table
unfolding at_ref emit
emit_at p t = elim (at_ref p t.slots) [ none ↦ t | some r ↦ emit acquire_failure r.slot t ]

-- The closure `fail`.
unfoldable pub fail_start : SlotId → ℕ → Worker → Table → Table
unfolding emit_at
fail_start i p w t = clean w i p (emit_at p (update p (set_state stopping) t))

-- The section that names the runner.
unfoldable pub name_rec : Text → Text → SlotRec → SlotRec
name_rec name path r = record r { slot = record r.slot { runner_name = name; jit_path = path } }

unfoldable pub name_runner : Places → SlotId → ℕ → Text → Table → Table
unfolding name_rec
name_runner places i p name = update p (name_rec name (places.jit_file i))

unfoldable pub set_idle : ℕ → SlotRec → SlotRec
set_idle now r = record r {
  slot = record r.slot {
    started_at = some now;
    state = elim r.state [ starting ↦ idle | other ↦ other ];
  };
}

unfoldable pub emit_started : ℕ → Table → Table
unfolding at_ref emit
emit_started p t = elim (at_ref p t.slots) [ none ↦ t | some r ↦ emit started r.slot t ]

unfoldable pub note_launch : SlotId → Table → Table
note_launch i t = record t { effects = launched i ∷ t.effects }

-- The rest of startOne after the ID has been taken. The result tells whether a runner has started.
unfoldable pub launch_slot : Places → Attempt → SlotId → ℕ → Launch → Table → Table × Bool
unfolding fail_start name_runner set_idle emit_started note_launch
launch_slot places a i p mkdir_failed t = (
  elim (at_ref p t.slots) [
    | none ↦ t
    | some r ↦ emit acquire_failure r.slot (record t { slots = remove p t.slots })
  ],
  false,
)
launch_slot places a i p materialize_failed t = (fail_start i p a.worker t, false)
launch_slot places a i p jit_failed t = (fail_start i p a.worker t, false)
launch_slot places a i p (write_failed name) t =
    (fail_start i p a.worker (name_runner places i p name t), false)
launch_slot places a i p (not_started name) t = (
  fail_start i p a.worker (deliver_all a.during (note_launch i (name_runner places i p name t))),
  false,
)
launch_slot places a i p (uncertain name) t = (
  emit_at p (
      update p (set_state busy)
        (deliver_all a.during (note_launch i (name_runner places i p name t)))),
  false,
)
launch_slot places a i p (ready name now) t = (
  emit_started p (
      update p (set_idle now)
        (deliver_all a.during (note_launch i (name_runner places i p name t)))),
  true,
)

unfoldable pub start_at :
    FloatOps → Places → Attempt → Option SlotId → Table → Table × Option SlotId
unfolding reserve launch_slot
start_at fl places a none t = (t, none)
start_at fl places a (some i) t =
    let done = launch_slot places a i t.next_ref a.launch (reserve fl places a i t) in
    (done.0, if done.1 then some i else none)

-- The slot that an admission hold is reported with.
unfoldable pub held_slot : FloatOps → Slot
held_slot fl = record {
  pool = [];
  id = 0;
  dir = [];
  unit = [];
  runner_name = [];
  workflow_ref = [];
  run_id = 0;
  state = starting;
  started_at = none;
  jit_path = [];
  current_mem_bytes = 0;
  reserved_cores = fl.zero_value;
  reserved_mem_bytes = 0;
}

-- Table.startOne
unfoldable pub start_one : FloatOps → Places → Attempt → Table → Table × Option SlotId
unfolding start_at held_slot next_id snapshot
start_one fl places a t =
    if a.allowed
    then if a.gate (snapshot is_live t.slots)
      then if t.is_closed then (t, none) else start_at fl places a (next_id t.slots) t
      else (emit admission_hold (held_slot fl) t, none)
    else (t, none)
