-- ===== src/Slot.antt =====
-- internal/slot/slot.go: the data of a runner slot. An ID is the number whose four digits the
-- source keeps (UnitName.antt has the text). A time is a number of nanoseconds; the zero time.Time
-- is `none`. A float64 is a bit pattern (Base/Float.antt).
use tentacles.Base.{ℕ, Bool, true, false, Option, Text}
use tentacles.Base.Float.{Float64}

abbrev pub SlotId : Type 0
SlotId = ℕ

pub data State : Type 0 where
  empty starting idle busy stopping failed : State

-- State.Live
abbrev pub is_live : State → Bool
is_live starting = true
is_live idle = true
is_live busy = true
is_live _ = false

pub data Event : Type 0 where
  started exited stopped acquire_failure admission_hold : Event

pub record Usage : Type 0 where
  pub cpu_seconds : Float64
  pub peak_mem_bytes : ℕ
  pub current_mem_bytes : ℕ

pub record ClaimJob : Type 0 where
  pub runner_name : Text
  pub workflow_ref : Text
  pub run_id : ℕ
  pub queue_wait_seconds : Float64

pub record Completion : Type 0 where
  pub id : SlotId
  pub runner_name : Text
  pub workflow_ref : Text
  pub run_id : ℕ
  pub result : Text
  pub cpu_seconds : Float64
  pub peak_mem_bytes : ℕ
  pub wall_seconds : Float64
  pub queue_wait_seconds : Float64
  pub sampled : Bool

pub record Slot : Type 0 where
  pub pool : Text
  pub id : SlotId
  pub dir : Text
  pub unit : Text
  pub runner_name : Text
  pub workflow_ref : Text
  pub run_id : ℕ
  pub state : State
  pub started_at : Option ℕ
  pub jit_path : Text
  pub current_mem_bytes : ℕ
  pub reserved_cores : Float64
  pub reserved_mem_bytes : ℕ
