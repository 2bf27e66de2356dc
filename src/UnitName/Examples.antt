-- ===== src/UnitName/Examples.antt =====
-- Unit names of concrete slots.
use tentacles.Base.{
  ◌≡◌, refl, some, codes, text_eq, starts_with, ends_with, trim_prefix, trim_suffix, arith,
}
use tentacles.UnitName.{format_id, digits_value, in_range, parse_id, unit_name, id_from_unit}
use tentacles.UnitName.RoundTrip.{id_from_unit-unit_name}

unit_of_seven : unit_name (codes "org") 7 ≡ codes "tentacle-org-0007.service"
unfolding unit_name format_id
unit_of_seven = refl

id_from_unit-unit_name_example : id_from_unit (codes "org") (unit_name (codes "org") 7) ≡ some 7
id_from_unit-unit_name_example = id_from_unit-unit_name (codes "org") 7 (omega arith) (omega arith)

id_of_seven : id_from_unit (codes "org") (codes "tentacle-org-0007.service") ≡ some 7
unfolding id_from_unit parse_id digits_value in_range text_eq starts_with ends_with trim_suffix
    trim_prefix
id_of_seven = refl
