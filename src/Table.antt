-- ===== src/Table.antt =====
-- internal/slot/manager.go: the state of a slot table. The Go map from IDs to records is a list of
-- records; an iteration over the map goes through the list, whose order is any. `ref` is the
-- record's address: the source compares records by pointer. What the table asks of the rest of the
-- daemon (hook and backend calls) is kept in `effects`, newest first.
pub mod Claim
pub mod Clean
pub mod Exit
pub mod Surplus
pub mod Start
pub mod Ensure
pub mod Adopt
pub mod Watch
pub mod Sample
pub mod Laws
pub mod Lookup
pub mod Steps
pub mod Invariant
pub mod Runs
pub mod Examples
use tentacles.Base.{
  ℕ, suc, ◌-◌, Bool, true, false, ◌&&◌, Option, none, some, List, [], ◌∷◌, Text, leb, ◌==◌,
  if◌then◌else◌, map, count, keep, ltb, sort_by,
}
use tentacles.Base.Float.{Float64}
use tentacles.Slot.{SlotId, State, is_live, Event, Usage, Completion, Slot}

-- A Go channel that is only ever closed.
pub data Done : Type 0 where
  absent open_ closed_ : Done

pub record SlotRec : Type 0 where
  pub slot : Slot
  pub open slot use *
  pub ref : ℕ
  pub busy_since : Option ℕ
  pub prov_start : Option ℕ
  pub claimed : Bool
  pub result : Text
  pub queue_wait : Float64
  pub claim_at : Option ℕ
  pub usage_at_claim : Usage
  pub last_usage : Usage
  pub sampled_ok : Bool
  pub cleaning : Bool
  pub cleanup_pending : Bool
  pub exit_event : Option Event
  pub completion_sent : Bool
  pub clean_done : Done

pub data Effect : Type 0 where
  emitted : Event → Slot → Effect
  completed : Completion → Effect
  launched : SlotId → Effect
  stop_called : SlotId → Effect

pub record Table : Type 0 where
  pub namespace : Text
  pub acquire_grace : ℕ
  pub idle_grace : ℕ
  pub has_completion_hook : Bool
  pub slots : List SlotRec
  pub desired : ℕ
  pub is_closed : Bool
  pub next_ref : ℕ
  pub effects : List Effect

-- The entry of the map at an ID.
unfoldable pub at_id : SlotId → List SlotRec → Option SlotRec
at_id i [] = none
at_id i (r ∷ rs) = let rest = at_id i rs in if r.id == i then some r else rest

unfoldable pub at_ref : ℕ → List SlotRec → Option SlotRec
at_ref p [] = none
at_ref p (r ∷ rs) = let rest = at_ref p rs in if r.ref == p then some r else rest

-- A write through a pointer.
unfoldable pub modify : ℕ → (SlotRec → SlotRec) → List SlotRec → List SlotRec
modify p f [] = []
modify p f (r ∷ rs) = (if r.ref == p then f r else r) ∷ modify p f rs

-- `delete(t.slots, id)`, where the entry is known to be this record.
unfoldable pub remove : ℕ → List SlotRec → List SlotRec
remove p [] = []
remove p (r ∷ rs) = let rest = remove p rs in if r.ref == p then rest else r ∷ rest

unfoldable pub update : ℕ → (SlotRec → SlotRec) → Table → Table
unfolding modify
update p f t = record t { slots = modify p f t.slots }

abbrev pub set_state : State → SlotRec → SlotRec
set_state s r = record r { slot = record r.slot { state = s } }

unfoldable pub emit : Event → Slot → Table → Table
emit e s t = record t { effects = emitted e s ∷ t.effects }

-- countLiveLocked
unfoldable pub count_live : List SlotRec → ℕ
count_live rs = count (λ r. is_live r.state) rs

-- snapshotLocked
unfoldable pub snapshot : (State → Bool) → List SlotRec → List Slot
unfolding sort_by
snapshot p rs = sort_by (λ s s'. ltb s.id s'.id) (map (λ r. r.slot) (keep (λ r. p r.state) rs))

-- Table.Active
unfoldable pub active : Table → List Slot
unfolding snapshot
active t = snapshot is_live t.slots

-- Table.Snapshot
unfoldable pub every_slot : Table → List Slot
unfolding snapshot
every_slot t = snapshot (λ s. true) t.slots

-- Whether a time lies at most `grace` back; the zero time never does.
unfoldable pub since_le : ℕ → Option ℕ → ℕ → Bool
since_le now none grace = false
since_le now (some t) grace = leb (now - t) grace

-- Table.SetDesired
unfoldable pub set_desired : ℕ → Table → Table
set_desired n t = record t { desired = n }

-- Table.Close
unfoldable pub close : Table → Table
close t = record t { is_closed = true }
