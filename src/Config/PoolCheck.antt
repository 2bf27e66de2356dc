-- ===== src/Config/PoolCheck.antt =====
-- internal/config/config.go: the checks of one pool. What the file system answers is an argument.
use tentacles.Base.{Bool, not, ◌&&◌, List, [], ◌∷◌, Text, codes, text_eq, if◌then◌else◌}
use tentacles.Base.Int.{ℤ, pos, ltb_ℤ, leb_ℤ}
use tentacles.Config.{Pool, App, Scope, PoolCapacity}
use tentacles.Config.Failures.{when, gather}
use tentacles.Config.Names.{label_matches, pool_id_matches}

pub data PoolFailure : Type 0 where
  id_pattern min_negative max_below_one min_above_max max_above_host url_empty : PoolFailure
  installation_id_not_positive client_id_empty key_path_empty key_not_readable : PoolFailure
  repository_missing scope_kind_unknown owner_empty name_not_label : PoolFailure

-- The checks of a pool's capacity.
abbrev pub capacity_checks : ℤ → PoolCapacity → List (List PoolFailure)
capacity_checks host_max p =
    when (ltb_ℤ p.min_runners (pos 0)) min_negative
    ∷ when (ltb_ℤ p.max_runners (pos 1)) max_below_one
    ∷ when (ltb_ℤ p.max_runners p.min_runners) min_above_max
    ∷ when (ltb_ℤ (pos 0) host_max && ltb_ℤ host_max p.max_runners) max_above_host
    ∷ []

unfoldable pub check_capacity_of : ℤ → PoolCapacity → List PoolFailure
check_capacity_of host_max p = gather (capacity_checks host_max p)

unfoldable pub check_key : (Text → Bool) → Text → List PoolFailure
unfolding text_eq
check_key exists path =
    if text_eq path [] then key_path_empty ∷ [] else when (not (exists path)) key_not_readable

abbrev pub app_checks : (Text → Bool) → App → List (List PoolFailure)
app_checks exists a =
    when (leb_ℤ a.installation_id (pos 0)) installation_id_not_positive
    ∷ when (text_eq a.client_id []) client_id_empty
    ∷ check_key exists a.private_key_path
    ∷ []

unfoldable pub check_app : (Text → Bool) → App → List PoolFailure
unfolding check_key text_eq
check_app exists a = gather (app_checks exists a)

-- The switch over scope.kind.
unfoldable pub check_kind : Scope → List PoolFailure
unfolding text_eq
check_kind s =
    if text_eq s.kind (codes "organization")
    then []
    else if text_eq s.kind (codes "repository")
    then when (text_eq s.repository []) repository_missing
    else scope_kind_unknown ∷ []

abbrev pub scope_checks : Scope → List (List PoolFailure)
scope_checks s = check_kind s ∷ when (text_eq s.owner []) owner_empty ∷ []

unfoldable pub check_scope : Scope → List PoolFailure
unfolding check_kind text_eq
check_scope s = gather (scope_checks s)

-- The checks of validatePool. `exists` is whether os.FileStat succeeds.
abbrev pub pool_checks : (Text → Bool) → ℤ → Pool → List (List PoolFailure)
pool_checks exists host_max p =
    when (not (pool_id_matches p.id)) id_pattern
    ∷ check_capacity_of host_max p.capacity
    ∷ when (text_eq p.github.url []) url_empty
    ∷ check_app exists p.github.app
    ∷ check_scope p.github.scope
    ∷ when (not (label_matches p.scale_set.name)) name_not_label
    ∷ []

-- validatePool
unfoldable pub validate_pool : (Text → Bool) → ℤ → Pool → List PoolFailure
unfolding check_capacity_of check_app check_scope pool_id_matches label_matches text_eq
validate_pool exists host_max p = gather (pool_checks exists host_max p)
