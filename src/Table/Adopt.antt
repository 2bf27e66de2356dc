-- ===== src/Table/Adopt.antt =====
-- internal/slot/manager.go: Adopt, which takes over at boot what an earlier daemon has left. The
-- answers of the file system and of the backend are arguments.
pub mod Kept
pub mod Running
use tentacles.Base.{
  ℕ, suc, Bool, true, false, not, Option, none, some, List, [], ◌∷◌, Text, text_eq, any,
  if◌then◌else◌,
}
use tentacles.Base.Float.{FloatOps}
use tentacles.Slot.{SlotId, State, busy, stopping, Slot}
use tentacles.UnitName.{unit_name, parse_id, id_from_unit}
use tentacles.Table.{SlotRec, Table, stop_called}
use tentacles.Table.Clean.{Worker, clean}
use tentacles.Table.Start.{Places, id_free, new_rec}

pub record DirEntry : Type 0 where
  pub name : Text
  pub is_dir : Bool

-- What Lstat says of a slot's directory.
pub data Stat : Type 0 where
  missing directory other_file stat_failed : Stat

pub data AdoptEnd : Type 0 where
  cancelled list_failed not_a_directory bad_slot_dir inspect_failed stop_failed : AdoptEnd

-- What the world answers. `…_expired` is the context before a round of the named loop.
pub record AdoptWorld : Type 0 where
  pub unit_expired : Text → Bool
  -- `none` is a failure to list; a root that does not exist has no entries
  pub entries : Option (List DirEntry)
  pub entry_expired : Text → Bool
  pub runner_name : SlotId → Text
  pub adopted_at : SlotId → ℕ
  pub worker : SlotId → Worker
  pub scan_expired : Text → Bool
  pub stat : SlotId → Stat
  pub stops : SlotId → Bool
  pub expired_at_end : Bool

-- A record that is not from a start of this table, under a new address.
unfoldable pub track : FloatOps → Slot → Table → Table
unfolding new_rec
track fl s t = record t {
  slots = new_rec fl s t.next_ref none ∷ t.slots;
  next_ref = suc t.next_ref;
}

unfoldable pub found_slot :
    FloatOps → Places → AdoptWorld → Table → SlotId → State → Option ℕ → Slot
found_slot fl places w t i s started_at = record {
  pool = t.namespace;
  id = i;
  dir = places.slot_dir i;
  unit = unit_name t.namespace i;
  runner_name = w.runner_name i;
  workflow_ref = [];
  run_id = 0;
  state = s;
  started_at = started_at;
  jit_path = [];
  current_mem_bytes = 0;
  reserved_cores = fl.zero_value;
  reserved_mem_bytes = 0;
}

-- `running[unitName(…)]`
unfoldable pub is_running : List Text → Text → Bool
is_running units u = any (text_eq u) units

unfoldable pub adopt_running : FloatOps → Places → AdoptWorld → SlotId → Table → Table
unfolding track found_slot
adopt_running fl places w i t = track fl (found_slot fl places w t i busy (some (w.adopted_at i))) t

unfoldable pub wipe_orphan : FloatOps → Places → AdoptWorld → SlotId → Table → Table
unfolding track found_slot
wipe_orphan fl places w i t =
    clean (w.worker i) i t.next_ref (track fl (found_slot fl places w t i stopping none) t)

-- A directory with the name of a slot ID.
unfoldable pub adopt_id : FloatOps → Places → AdoptWorld → List Text → SlotId → Table → Table
unfolding adopt_running wipe_orphan is_running
adopt_id fl places w units i t =
    if id_free i t.slots
    then if is_running units (unit_name t.namespace i)
      then adopt_running fl places w i t
      else wipe_orphan fl places w i t
    else t

unfoldable pub adopt_named :
    FloatOps
    → Places
    → AdoptWorld
    → List Text
    → Bool
    → Option SlotId
    → Table
    → Table × Option AdoptEnd
unfolding adopt_id
adopt_named fl places w units is_dir none t = (t, none)
adopt_named fl places w units false (some i) t = (t, some not_a_directory)
adopt_named fl places w units true (some i) t = (adopt_id fl places w units i t, none)

-- The rest of a loop is run unless an error has ended it.
abbrev pub and_then :
    Table × Option AdoptEnd → (Table → Table × Option AdoptEnd) → Table × Option AdoptEnd
and_then (t, none) rest = rest t
and_then (t, some e) rest = (t, some e)

-- The loop over the directory entries.
unfoldable pub adopt_entries :
    FloatOps → Places → AdoptWorld → List Text → List DirEntry → Table → Table × Option AdoptEnd
unfolding adopt_named
adopt_entries fl places w units [] t = (t, none)
adopt_entries fl places w units (e ∷ es) t =
    if w.entry_expired e.name
    then (t, some cancelled)
    else and_then (adopt_named fl places w units e.is_dir (parse_id e.name) t)
        (adopt_entries fl places w units es)

unfoldable pub note_stop_unit : SlotId → Table → Table
note_stop_unit i t = record t { effects = stop_called i ∷ t.effects }

-- A running unit whose slot is not tracked.
unfoldable pub scan_stat : AdoptWorld → SlotId → Stat → Table → Table × Option AdoptEnd
unfolding note_stop_unit
scan_stat w i directory t = (t, none)
scan_stat w i other_file t = (t, some bad_slot_dir)
scan_stat w i stat_failed t = (t, some inspect_failed)
scan_stat w i missing t = (note_stop_unit i t, if w.stops i then none else some stop_failed)

unfoldable pub scan_unit : AdoptWorld → Option SlotId → Table → Table × Option AdoptEnd
unfolding scan_stat
scan_unit w none t = (t, none)
scan_unit w (some i) t = if id_free i t.slots then scan_stat w i (w.stat i) t else (t, none)

-- The loop over the units.
unfoldable pub scan_units : AdoptWorld → List Text → Table → Table × Option AdoptEnd
unfolding scan_unit
scan_units w [] t = (t, none)
scan_units w (u ∷ us) t =
    if w.scan_expired u
    then (t, some cancelled)
    else and_then (scan_unit w (id_from_unit t.namespace u) t) (scan_units w us)

unfoldable pub adopt_listed :
    FloatOps
    → Places
    → AdoptWorld
    → List Text
    → Option (List DirEntry)
    → Table
    → Table × Option AdoptEnd
unfolding adopt_entries scan_units
adopt_listed fl places w units none t = (t, some list_failed)
adopt_listed fl places w units (some es) t = and_then (adopt_entries fl places w units es t) (λ u.
    and_then (scan_units w units u) (λ v. (v, if w.expired_at_end then some cancelled else none)))

-- Table.Adopt; no error is `none`.
unfoldable pub adopt : FloatOps → Places → AdoptWorld → List Text → Table → Table × Option AdoptEnd
unfolding adopt_listed
adopt fl places w units t =
    if t.is_closed
    then (t, none)
    else if any w.unit_expired units
    then (t, some cancelled)
    else adopt_listed fl places w units w.entries t
