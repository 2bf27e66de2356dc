-- ===== src/Backend.antt =====
-- internal/systemd/backend.go: which units a pool's backend takes for its own. The commands that it
-- runs are outside; what they answer is an argument.
pub mod Owned
pub mod Query
pub mod Start
pub mod Launch
mod Examples
use tentacles.Base.{
  ℕ, suc, Bool, true, false, not, ◌&&◌, ◌||◌, Option, none, some, List, [], ◌∷◌, ◌++◌, Text, codes,
  text_eq, starts_with, ends_with, trim_prefix, trim_suffix, ltb, leb, ◌==◌, if◌then◌else◌, length,
  any,
}

-- strings.LastIndexByte of '-': the text before and after the last one
unfoldable pub split_last_dash : Text → Option (Text × Text)
split_last_dash [] = none
split_last_dash (c ∷ s) = later (split_last_dash s)
  where
    later : Option (Text × Text) → Option (Text × Text)
    later none = if c == 45 then some ([], s) else none
    later (some (k, v)) = some (c ∷ k, v)

unfoldable pub is_digit : ℕ → Bool
is_digit c = leb 48 c && leb c 57

unfoldable pub is_name_start : ℕ → Bool
unfolding is_digit
is_name_start c = is_digit c || (leb 97 c && leb c 122)

unfoldable pub all_bytes : (ℕ → Bool) → Text → Bool
all_bytes p [] = true
all_bytes p (c ∷ s) = let rest = all_bytes p s in if p c then rest else false

-- validNamespace
unfoldable pub valid_namespace : Text → Bool
unfolding is_name_start all_bytes
valid_namespace [] = false
valid_namespace (c ∷ s) =
    leb (length (c ∷ s)) 32 && (is_name_start c && all_bytes (λ d. is_name_start d || (d == 45)) s)

abbrev is_empty : Text → Bool
is_empty [] = true
is_empty (c ∷ s) = false

-- The tests on the two parts of a unit's body.
unfoldable pub owner : Option (Text × Text) → Option Text
unfolding valid_namespace all_bytes is_digit
owner none = none
owner (some (k, v)) =
    if not (is_empty k || is_empty v) && (valid_namespace k && all_bytes is_digit v)
    then some k
    else none

-- namespaceFromUnit
unfoldable pub namespace_from_unit : Text → Option Text
unfolding owner split_last_dash
namespace_from_unit unit =
    let prefix = codes "tentacle-" in
    let suffix = codes ".service" in
    if starts_with prefix unit && ends_with suffix unit
    then owner (split_last_dash (trim_suffix suffix (trim_prefix prefix unit)))
    else none

-- validUnit
unfoldable pub valid_unit : Text → Text → Bool
unfolding namespace_from_unit text_eq
valid_unit namespace unit = elim (namespace_from_unit unit) [
  | none ↦ false
  | some k ↦ text_eq k namespace
]

-- One line of `systemctl list-units`, by its fields.
pub data UnitLine : Type 0 where
  no_fields short_line : UnitLine
  unit_line : Text → Text → UnitLine

abbrev pub known_states : List Text
known_states =
    codes "active"
    ∷ codes "activating"
    ∷ codes "deactivating"
    ∷ codes "reloading"
    ∷ codes "maintenance"
    ∷ codes "refreshing"
    ∷ codes "inactive"
    ∷ codes "failed"
    ∷ []

-- What a line adds to the result: nothing, a unit, or the end of the scan with an error.
pub data Scanned : Type 0 where
  passed_over scan_error : Scanned
  found : Text → Scanned

unfoldable pub scan_owned : Text → Text → Text → Option Text → Scanned
unfolding text_eq
scan_owned namespace unit state none = scan_error
scan_owned namespace unit state (some k) =
    if text_eq k namespace
    then if any (text_eq state) known_states then found unit else scan_error
    else passed_over

unfoldable pub scan_line : Text → UnitLine → Scanned
unfolding scan_owned namespace_from_unit
scan_line namespace no_fields = passed_over
scan_line namespace short_line = scan_error
scan_line namespace (unit_line unit state) =
    scan_owned namespace unit state (namespace_from_unit unit)

unfoldable pub add_scanned : Scanned → Option (List Text) → Option (List Text)
add_scanned passed_over rest = rest
add_scanned scan_error rest = none
add_scanned (found unit) none = none
add_scanned (found unit) (some units) = some (unit ∷ units)

-- Backend.Active, of the lines that systemctl prints; `none` is an error
unfoldable pub active_units : Text → List UnitLine → Option (List Text)
unfolding scan_line add_scanned
active_units namespace [] = some []
active_units namespace (l ∷ ls) = add_scanned (scan_line namespace l) (active_units namespace ls)

-- What one state query of Wait comes to: an error, a state of ActiveState, or the end of the context
-- in the pause after it.
pub data Observed : Type 0 where
  query_error context_ended : Observed
  active_state : Text → Observed

abbrev pub is_ended : Text → Bool
is_ended state = text_eq state (codes "inactive") || text_eq state (codes "failed")

pub data WaitEnd : Type 0 where
  wait_error exit_confirmed still_waiting : WaitEnd

-- The loop of Backend.Wait over its queries.
unfoldable pub wait_loop : List Observed → WaitEnd
unfolding text_eq
wait_loop [] = still_waiting
wait_loop (query_error ∷ os) = wait_error
wait_loop (context_ended ∷ os) = wait_error
wait_loop (active_state s ∷ os) =
    let rest = wait_loop os in if is_ended s then exit_confirmed else rest

-- Backend.Wait
unfoldable pub wait : Text → Text → List Observed → WaitEnd
unfolding valid_unit wait_loop
wait namespace unit os = if valid_unit namespace unit then wait_loop os else wait_error
