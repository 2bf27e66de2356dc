-- ===== src/Backend/Query.antt =====
-- internal/systemd/backend.go: what isActive, Wait, Active and Usage read in the output of systemctl. A
-- command's outcome is an argument.
pub mod Lines
pub mod Confirmed
use tentacles.Base.{
  ℕ, suc, Bool, true, false, not, ◌&&◌, ◌||◌, Option, none, some, List, [], ◌∷◌, map, Text, codes,
  text_eq, any, find, put, ltb, if◌then◌else◌, keep,
}
use tentacles.Base.Split.{split_lines, fields, parse_uint, parse_natural}
use tentacles.Base.Float.{FloatOps}
use tentacles.Env.{trim_space, split_equals}
use tentacles.Slot.{Usage}
use tentacles.Backend.{
  UnitLine, no_fields, short_line, unit_line, known_states, active_units, valid_unit, Observed,
  query_error, context_ended, active_state, WaitEnd, wait,
}

-- A run of systemctl: it fails or its context ends, or it prints its output.
pub data Printout : Type 0 where
  command_failed : Printout
  printed : Text → Printout

abbrev pub load_states : List Text
load_states =
    codes "loaded"
    ∷ codes "not-found"
    ∷ codes "error"
    ∷ codes "masked"
    ∷ codes "bad-setting"
    ∷ codes "merged"
    ∷ codes "stub"
    ∷ []

abbrev pub is_one_of : List Text → Text → Bool
is_one_of ss s = any (text_eq s) ss

abbrev pub Values : Type 0
Values = List (Text × Text)

abbrev pub property_keys : List Text
property_keys = codes "LoadState" ∷ codes "ActiveState" ∷ []

-- A key of the output that is not a duplicate.
abbrev pub read_fresh : Text → Text → Values → Option Text → Option Values
read_fresh k v values none =
    if is_one_of property_keys k then some (put text_eq k v values) else none
read_fresh k v values (some old) = none

-- One line of the output; `none` is a malformed one.
unfoldable pub read_value : Values → Option (Text × Text) → Option Values
unfolding text_eq find put
read_value values none = none
read_value values (some (k, v)) = read_fresh k v values (find text_eq k values)

abbrev pub and_read : Option Values → (Values → Option Values) → Option Values
and_read none rest = none
and_read (some values) rest = rest values

unfoldable pub read_values : Values → List Text → Option Values
unfolding read_value split_equals
read_values values [] = some values
read_values values (l ∷ ls) =
    and_read (read_value values (split_equals l)) (λ more. read_values more ls)

abbrev pub or_nil : Option Text → Text
or_nil none = []
or_nil (some v) = v

-- values[key], of a map without the key too
unfoldable pub value_at : Text → Values → Text
unfolding find text_eq
value_at k values = or_nil (find text_eq k values)

-- The tests on the two values.
unfoldable pub state_of : Option Values → Observed
unfolding value_at text_eq
state_of none = query_error
state_of (some values) =
    let state = value_at (codes "ActiveState") values in
    if is_one_of load_states (value_at (codes "LoadState") values)
    then if is_one_of known_states state then active_state state else query_error
    else query_error

-- Backend.isActive
unfoldable pub is_active : Printout → Observed
unfolding state_of read_values split_lines trim_space
is_active command_failed = query_error
is_active (printed out) = state_of (read_values [] (split_lines (trim_space out)))

-- A round of Wait: its query, and whether the context ends in the pause after it.
pub data WaitRound : Type 0 where
  queried : Printout → WaitRound
  cut_short : WaitRound

unfoldable pub observe : WaitRound → Observed
unfolding is_active
observe (queried r) = is_active r
observe cut_short = context_ended

-- Backend.Wait, over the output of its queries
unfoldable pub wait_for : Text → Text → List WaitRound → WaitEnd
unfolding wait observe
wait_for namespace unit rs = wait namespace unit (map observe rs)

-- A line of `systemctl list-units`.
unfoldable pub unit_line_of : List Text → UnitLine
unit_line_of [] = no_fields
unit_line_of (unit ∷ loaded ∷ state ∷ sub ∷ rest) = unit_line unit state
unit_line_of _ = short_line

-- Backend.Active: the units, and which of those started are kept
unfoldable pub list_active : Text → Printout → Option (List Text)
unfolding active_units unit_line_of split_lines fields
list_active namespace command_failed = none
list_active namespace (printed out) =
    active_units namespace (map (λ l. unit_line_of (fields l)) (split_lines out))

unfoldable pub prune_started : List Text → List Text → List Text
unfolding text_eq
prune_started units started = keep (λ u. is_one_of units u) started

abbrev pub set_cpu : FloatOps → Option ℕ → Usage → Usage
set_cpu fl none u = u
set_cpu fl (some n) u =
    if ltb 0 n then record u { cpu_seconds = fl.div (fl.of_uint n) (fl.of_uint 1000000000) } else u

abbrev pub set_current : Option ℕ → Usage → Usage
set_current none u = u
set_current (some n) u = record u { current_mem_bytes = n }

abbrev pub set_peak : Option ℕ → Usage → Usage
set_peak none u = u
set_peak (some n) u = record u { peak_mem_bytes = n }

-- One line of the output of `systemctl show`.
unfoldable pub read_usage : FloatOps → Option (Text × Text) → Usage → Usage
unfolding parse_uint parse_natural text_eq
read_usage fl none u = u
read_usage fl (some (name, value)) u =
    if text_eq name (codes "CPUUsageNSec")
    then set_cpu fl (parse_natural value) u
    else if text_eq name (codes "MemoryCurrent")
    then set_current (parse_uint value) u
    else if text_eq name (codes "MemoryPeak")
    then set_peak (parse_uint value) u
    else u

unfoldable pub read_usages : FloatOps → List Text → Usage → Usage
unfolding read_usage trim_space split_equals
read_usages fl [] u = u
read_usages fl (l ∷ ls) u = read_usages fl ls (read_usage fl (split_equals (trim_space l)) u)

-- Backend.Usage; `none` is an error
unfoldable pub usage : FloatOps → Text → Text → Printout → Option Usage
unfolding valid_unit read_usages split_lines
usage fl namespace unit command_failed = none
usage fl namespace unit (printed out) =
    if valid_unit namespace unit
    then some (
        read_usages fl (split_lines out)
          (record { cpu_seconds = fl.zero_value; peak_mem_bytes = 0; current_mem_bytes = 0 }))
    else none
