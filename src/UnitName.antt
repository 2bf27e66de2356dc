-- ===== src/UnitName.antt =====
-- internal/slot/manager.go: the text of a slot ID and of its backend unit.
pub mod RoundTrip
mod Examples
use tentacles.Base.{
  ℕ, ◌+◌, ◌-◌, ◌*◌, ◌/◌, ◌%◌, ◌&&◌, Option, none, some, [], ◌∷◌, ◌++◌, Text, codes, starts_with,
  ends_with, trim_prefix, trim_suffix, ltb, leb, ◌==◌, if◌then◌else◌, length,
}

abbrev pub max_slot_id : ℕ
max_slot_id = 9999

-- fmt.Sprintf("%04d", n) of a number of at most four digits
unfoldable pub format_id : ℕ → Text
format_id n = (48 + n / 1000) ∷ (48 + n / 100 % 10) ∷ (48 + n / 10 % 10) ∷ (48 + n % 10) ∷ []

-- The loop of validID: the number that the digits spell, if they all are digits.
unfoldable pub digits_value : ℕ → Text → Option ℕ
digits_value n [] = some n
digits_value n (c ∷ s) =
    let rest = digits_value (n * 10 + (c - 48)) s in
    if ltb c 48 then none else if ltb 57 c then none else rest

-- The range test that ends validID.
unfoldable pub in_range : Option ℕ → Option ℕ
in_range none = none
in_range (some n) = if leb 1 n && leb n max_slot_id then some n else none

-- validID, with the number of a valid ID
unfoldable pub parse_id : Text → Option ℕ
unfolding digits_value in_range
parse_id s = if length s == 4 then in_range (digits_value 0 s) else none

unfoldable pub unit_name : Text → ℕ → Text
unfolding format_id
unit_name namespace n =
    codes "tentacle-" ++ (namespace ++ (codes "-" ++ (format_id n ++ codes ".service")))

unfoldable pub id_from_unit : Text → Text → Option ℕ
id_from_unit namespace unit =
    let prefix = codes "tentacle-" ++ (namespace ++ codes "-") in
    let suffix = codes ".service" in
    if starts_with prefix unit && ends_with suffix unit
    then parse_id (trim_suffix suffix (trim_prefix prefix unit))
    else none
