-- ===== src/Backend/Owned.antt =====
-- The units of a slot table and the backend of its pool.
use tentacles.Base.{
  ℕ, ◌≤◌, ◌≡◌, refl, sym, ap, ◌∙◌, subst, true, false, ◌&&◌, none, some, [], ◌∷◌, ◌++◌, Text, codes,
  arith, All, starts_with, ends_with, trim_prefix, trim_suffix, starts_with-append,
  ends_with-append, trim_prefix-append, trim_suffix-append, if_true, ◌==◌,
}
use mathlib.Core.List.{append_assoc}
use tentacles.UnitName.{format_id, unit_name, max_slot_id}
use tentacles.Backend.{
  split_last_dash, is_digit, all_bytes, valid_namespace, owner, namespace_from_unit,
}

split_last_dash-plain : (s : Text) → All (λ c. (c == 45) ≡ false) s → split_last_dash s ≡ none
unfolding split_last_dash
split_last_dash-plain [] h = refl
split_last_dash-plain (c ∷ s) h = rw (split_last_dash-plain s h.1) (rw h.0 refl)

-- The last '-' is before a text without one.
split_last_dash-append :
    (k v : Text) → All (λ c. (c == 45) ≡ false) v → split_last_dash (k ++ (45 ∷ v)) ≡ some (k, v)
unfolding split_last_dash
split_last_dash-append [] v h = rw (split_last_dash-plain v h) refl
split_last_dash-append (c ∷ k) v h = rw (split_last_dash-append k v h) refl

format_id_plain : (n : ℕ) → All (λ c. (c == 45) ≡ false) (format_id n)
unfolding format_id
format_id_plain n = (ground arith, (ground arith, (ground arith, (ground arith, tt))))

format_id_digits : (n : ℕ) → n ≤ max_slot_id → all_bytes is_digit (format_id n) ≡ true
unfolding all_bytes is_digit format_id
format_id_digits n h = ground arith

owner_valid :
    (k : Text) (n : ℕ)
    → valid_namespace k ≡ true
    → n ≤ max_slot_id
    → owner (some (k, format_id n)) ≡ some k
owner_valid [] n ok h = absurd (unfold valid_namespace in cc ok)
owner_valid (c ∷ s) n ok h =
    let digits = format_id_digits n h in unfold owner in rw (ok, digits) (unfold format_id in refl)

-- A unit name as its prefix, its body and its suffix.
body : Text → ℕ → Text
body namespace n = namespace ++ (45 ∷ format_id n)

unit_name-body :
    (namespace : Text) (n : ℕ)
    → unit_name namespace n ≡ codes "tentacle-" ++ (body namespace n ++ codes ".service")
unfolding unit_name body
unit_name-body namespace n =
    ap (λ (s : Text). codes "tentacle-" ++ s)
      (sym (append_assoc namespace (45 ∷ format_id n) (codes ".service")))

namespace_from_parts :
    (b : Text)
    → namespace_from_unit (codes "tentacle-" ++ (b ++ codes ".service")) ≡ owner (split_last_dash b)
unfolding namespace_from_unit
namespace_from_parts b =
    let whole : Text = codes "tentacle-" ++ (b ++ codes ".service") in
    let first : starts_with (codes "tentacle-") whole ≡ true =
      starts_with-append (codes "tentacle-") (b ++ codes ".service") in
    let ends : ends_with (codes ".service") whole ≡ true =
      subst (λ x. ends_with (codes ".service") x ≡ true)
        (append_assoc (codes "tentacle-") b (codes ".service"))
        (ends_with-append (codes ".service") (codes "tentacle-" ++ b)) in
    let trimmed : trim_suffix (codes ".service") (trim_prefix (codes "tentacle-") whole) ≡ b =
      ap (trim_suffix (codes ".service"))
        (trim_prefix-append (codes "tentacle-") (b ++ codes ".service"))
      ∙ trim_suffix-append (codes ".service") b in
    if_true (starts_with (codes "tentacle-") whole && ends_with (codes ".service") whole) _ _
      (rw (first, ends) refl)
    ∙ ap (λ x. owner (split_last_dash x)) trimmed

-- The name that a slot table gives the unit of a slot is parsed by the systemd backend as a unit of
-- exactly that table's pool, if the pool's ID is a valid namespace and the slot's ID is at most 9999.
pub namespace_from_unit-unit_name :
    (namespace : Text) (n : ℕ)
    → valid_namespace namespace ≡ true
    → n ≤ max_slot_id
    → namespace_from_unit (unit_name namespace n) ≡ some namespace
namespace_from_unit-unit_name namespace n ok h =
    ap namespace_from_unit (unit_name-body namespace n)
    ∙ namespace_from_parts (body namespace n)
    ∙ split
    ∙ owner_valid namespace n ok h
  where
    split : owner (split_last_dash (body namespace n)) ≡ owner (some (namespace, format_id n))
    split =
        unfold body in ap owner (split_last_dash-append namespace (format_id n) (format_id_plain n))
