-- ===== src/Config/Owned.antt =====
-- internal/config/config.go and internal/systemd/backend.go: the pattern of pool IDs and the namespaces of
-- the backend.
use tentacles.Base.{ℕ, ◌≤◌, ◌≡◌, refl, sym, ◌∙◌, ◌||◌, some, List, [], ◌∷◌, Text, arith, All, ◌==◌}
use tentacles.Base.Int.{ℤ}
use tentacles.UnitName.{unit_name, max_slot_id}
use tentacles.Backend.{valid_namespace, all_bytes, is_name_start, is_digit, namespace_from_unit}
use tentacles.Backend.Owned.{namespace_from_unit-unit_name}
use tentacles.Config.{Config, Pool}
use tentacles.Config.Names.{pool_id_matches, lower, digit, all_of}
use tentacles.Config.Check.{Machine, validate}
use tentacles.Config.Accepted.{IsBounded}
use tentacles.Config.Bounds.{pools-IsBounded}

same_bytes :
    (s : Text)
    → all_bytes (λ d. is_name_start d || (d == 45)) s
      ≡ all_of (λ d. lower d || digit d || (d == 45)) s
unfolding all_bytes is_name_start is_digit
same_bytes [] = refl
same_bytes (c ∷ s) = ground (arith, same_bytes s)

-- The pattern that Validate asks of a pool's ID is the test of the systemd backend on namespaces: the two
-- agree on every text.
pub pool_id_matches-valid_namespace : (s : Text) → pool_id_matches s ≡ valid_namespace s
unfolding pool_id_matches valid_namespace is_name_start is_digit
pool_id_matches-valid_namespace [] = refl
pool_id_matches-valid_namespace (c ∷ s) = let bytes = same_bytes s in ground (arith, bytes)

all_owned :
    (host_max : ℤ) (ps : List Pool)
    → All (IsBounded host_max) ps
    → All (λ p. (n : ℕ) → n ≤ max_slot_id → namespace_from_unit (unit_name p.id n) ≡ some p.id) ps
all_owned host_max [] b = tt
all_owned host_max (p ∷ ps) b = (
  λ n h.
      namespace_from_unit-unit_name p.id n
        (sym (pool_id_matches-valid_namespace p.id) ∙ b.0.id_pattern) h,
  all_owned host_max ps b.1,
)

-- If Validate reports nothing, the systemd backend of each pool takes the unit of every slot ID up to 9999
-- of that pool's table for a unit of exactly that pool.
pub accepted_units_owned :
    (w : Machine) (c : Config)
    → validate w c ≡ []
    → All
        (λ p. (n : ℕ) → n ≤ max_slot_id → namespace_from_unit (unit_name p.id n) ≡ some p.id)
        c.pools
accepted_units_owned w c e = all_owned c.capacity.max_runners c.pools (pools-IsBounded w c e)
