-- ===== src/Config/Check.antt =====
-- internal/config/config.go: Validate, which lists every failed check. The answers of the host are a
-- record of functions.
use tentacles.Base.{
  ℕ, suc, Bool, true, false, not, ◌&&◌, ◌||◌, Option, none, some, List, [], ◌∷◌, ◌++◌, map, Text,
  codes, text_eq, ◌==◌, if◌then◌else◌, any, keep, find, put,
}
use tentacles.Base.Int.{ℤ, pos, ltb_ℤ, leb_ℤ, add_int}
use tentacles.FilePath.{is_abs, split_slash, dot, dot_dot}
use tentacles.Env
use tentacles.Env.{Vars, Parsed, variables, malformed_line, parse_file, value_of}
use tentacles.Config.{
  Config, Pool, Capacity, Runner, Runtime, Paths, Scaling, Observability, hard_cap_max_runners,
  max_cpu_quota_percent,
}
use tentacles.Config.Names.{version_matches, sha256_matches, address_family_matches}
use tentacles.Config.Failures.{when, gather}
use tentacles.Config.PoolCheck.{PoolFailure, validate_pool}
use tentacles.Config.JobHome.{
  FileStat, missing, plain_file, directory, Linked, HomeFailure, check_job_home, has_byte,
}

pub record Machine : Type 0 where
  pub stat : Text → FileStat
  pub links : Text → Linked
  pub getenv : Text → Text
  -- The lines of a file that can be read.
  pub lines : Text → Option (List Text)

pub data Failure : Type 0 where
  max_below_one max_above_cap cpu_quota_range memory_max_empty no_pools : Failure
  pool_failure : ℕ → PoolFailure → Failure
  duplicate_id duplicate_target : ℕ → ℕ → Failure
  min_sum_above_max version_pattern sha_without_version sha_pattern : Failure
  environment_file_empty environment_file_missing environment_file_malformed : Failure
  environment_variables_missing : Failure
  cache_path_empty cache_path_absolute cache_path_escapes cache_path_repeated : ℕ → Failure
  family_pattern family_repeated : ℕ → Failure
  home_failure : HomeFailure → Failure
  systemd_absent backend_unknown state_dir_empty cache_dir_empty log_dir_empty : Failure
  start_timeout stop_timeout cleanup_timeout acquire_grace idle_grace : Failure
  cpu_target_range memory_margin_range sample_interval : Failure
  diag_age_negative diag_bytes_negative listen_invalid log_level_unknown : Failure

unfoldable pub exists : FileStat → Bool
exists missing = false
exists plain_file = true
exists directory = true

abbrev pub host_checks : Capacity → List (List Failure)
host_checks c =
    when (ltb_ℤ c.max_runners (pos 1)) max_below_one
    ∷ when (ltb_ℤ hard_cap_max_runners c.max_runners) max_above_cap
    ∷ when
        (leb_ℤ c.job_cpu_quota_percent (pos 0)
          || ltb_ℤ max_cpu_quota_percent c.job_cpu_quota_percent)
        cpu_quota_range
    ∷ when (text_eq c.job_memory_max []) memory_max_empty
    ∷ []

unfoldable pub check_host : Capacity → List Failure
unfolding text_eq
check_host c = gather (host_checks c)

-- strings.Join with a zero byte
unfoldable pub join_nul : List Text → Text
join_nul [] = []
join_nul (s ∷ []) = s
join_nul (s ∷ t ∷ ts) = s ++ (0 ∷ join_nul (t ∷ ts))

-- The text by which two pools have the same scale set.
unfoldable pub target_of : Pool → Text
unfolding join_nul
target_of p =
    let scope = p.github.scope in
    join_nul (
      p.github.url ∷ scope.kind ∷ scope.owner ∷ scope.repository ∷ p.scale_set.runner_group
      ∷ p.scale_set.name ∷ [])

abbrev pub Seen : Type 0
Seen = List (Text × ℕ)

-- The failure of a text that was seen before, and the texts seen then.
abbrev pub noted : (ℕ → Failure) → ℕ → Text → Seen → Option ℕ → List Failure × Seen
noted f i k seen none = ([], put text_eq k i seen)
noted f i k seen (some j) = (f j ∷ [], seen)

unfoldable pub note_seen : (ℕ → Failure) → ℕ → Text → Seen → List Failure × Seen
unfolding find put
note_seen f i k seen = noted f i k seen (find text_eq k seen)

-- The loop over the pools.
unfoldable pub check_pools : (Text → FileStat) → ℤ → ℕ → Seen → Seen → List Pool → List Failure
unfolding validate_pool note_seen target_of exists
check_pools stat host_max i ids targets [] = []
check_pools stat host_max i ids targets (p ∷ ps) =
    let same_id = note_seen (duplicate_id i) i p.id ids in
    let same_target = note_seen (duplicate_target i) i (target_of p) targets in
    map (pool_failure i) (validate_pool (λ f. exists (stat f)) host_max p)
    ++ (same_id.0
        ++ (same_target.0 ++ check_pools stat host_max (suc i) same_id.1 same_target.1 ps))

-- totalMin, from a sum before it
unfoldable pub total_min : ℤ → List Pool → ℤ
unfolding add_int
total_min sum [] = sum
total_min sum (p ∷ ps) = total_min (add_int sum p.capacity.min_runners) ps

abbrev pub check_some : List Pool → List Failure
check_some [] = no_pools ∷ []
check_some (p ∷ ps) = []

abbrev pub pools_checks : (Text → FileStat) → ℤ → List Pool → List (List Failure)
pools_checks stat host_max ps =
    check_some ps
    ∷ check_pools stat host_max 0 [] [] ps
    ∷ when (ltb_ℤ host_max (total_min (pos 0) ps)) min_sum_above_max
    ∷ []

unfoldable pub check_all_pools : (Text → FileStat) → ℤ → List Pool → List Failure
unfolding check_pools total_min
check_all_pools stat host_max ps = gather (pools_checks stat host_max ps)

unfoldable pub check_payload : (Text → Text) → Runner → List Failure
unfolding version_matches sha256_matches text_eq
check_payload getenv r =
    let tracks_latest = text_eq r.version [] in
    gather (
      when (not tracks_latest && not (version_matches r.version)) version_pattern
      ∷ when (tracks_latest && not (text_eq r.sha256 [])) sha_without_version
      ∷ when
          (not tracks_latest
            && (not (text_eq (getenv (codes "TENTACLES_ALLOW_UNVERIFIED_PAYLOAD")) (codes "1"))
                && not (sha256_matches r.sha256)))
          sha_pattern
      ∷ [])

-- The failures of a parsed environment file, and its HOME.
unfoldable pub check_vars : Option Parsed → List Failure × Text
unfolding Env.validate value_of
check_vars none = (environment_file_malformed ∷ [], [])
check_vars (some (malformed_line n)) = (environment_file_malformed ∷ [], [])
check_vars (some (variables vars)) = required (Env.validate vars)
  where
    required : List Text → List Failure × Text
    required [] = ([], value_of vars (codes "HOME"))
    required (k ∷ ks) = (environment_variables_missing ∷ [], [])

unfoldable pub check_environment : Machine → Text → List Failure × Text
unfolding check_vars parse_file text_eq exists
check_environment w file =
    if text_eq file []
    then (environment_file_empty ∷ [], [])
    else if exists (w.stat file)
    then check_vars (parsed (w.lines file))
    else (environment_file_missing ∷ [], [])
  where
    parsed : Option (List Text) → Option Parsed
    parsed none = none
    parsed (some ls) = some (parse_file ls)

abbrev pub is_in : Text → List Text → Bool
is_in s seen = any (λ t. text_eq t s) seen

-- One shared cache path.
unfoldable pub check_cache_path : ℕ → List Text → Text → List Failure
unfolding text_eq is_abs split_slash
check_cache_path i seen p = gather (
    (if text_eq p [] || text_eq p dot
      then cache_path_empty i ∷ []
      else when (is_abs p) (cache_path_absolute i))
    ∷ map (λ _. cache_path_escapes i) (keep (λ s. text_eq s dot_dot) (split_slash p))
    ∷ when (is_in p seen) (cache_path_repeated i)
    ∷ [])

unfoldable pub check_cache_paths : ℕ → List Text → List Text → List Failure
unfolding check_cache_path
check_cache_paths i seen [] = []
check_cache_paths i seen (p ∷ ps) =
    check_cache_path i seen p ++ check_cache_paths (suc i) (p ∷ seen) ps

unfoldable pub check_families : ℕ → List Text → List Text → List Failure
unfolding address_family_matches text_eq
check_families i seen [] = []
check_families i seen (f ∷ fs) = gather (
    when (not (address_family_matches f)) (family_pattern i)
    ∷ when (is_in f seen) (family_repeated i)
    ∷ check_families (suc i) (f ∷ seen) fs
    ∷ [])

unfoldable pub check_backend : (Text → FileStat) → Text → List Failure
unfolding text_eq exists
check_backend stat backend =
    if text_eq backend (codes "systemd")
    then when (not (exists (stat (codes "/run/systemd/system")))) systemd_absent
    else when (not (text_eq backend (codes "process"))) backend_unknown

unfoldable pub check_paths : Paths → List Failure
unfolding text_eq
check_paths p = gather (
    when (text_eq p.state_dir []) state_dir_empty
    ∷ when (text_eq p.cache_dir []) cache_dir_empty
    ∷ when (text_eq p.log_dir []) log_dir_empty
    ∷ [])

unfoldable pub check_timeouts : Runtime → List Failure
check_timeouts r = gather (
    when (leb_ℤ r.slot_start_timeout (pos 0)) start_timeout
    ∷ when (leb_ℤ r.slot_stop_timeout (pos 0)) stop_timeout
    ∷ when (leb_ℤ r.cleanup_timeout (pos 0)) cleanup_timeout
    ∷ when (leb_ℤ r.acquire_grace (pos 0)) acquire_grace
    ∷ when (leb_ℤ r.idle_grace (pos 0)) idle_grace
    ∷ [])

unfoldable pub check_scaling : Scaling → List Failure
check_scaling s =
    if s.admission_control
    then when (leb_ℤ s.cpu_target_percent (pos 0) || ltb_ℤ (pos 100) s.cpu_target_percent)
        cpu_target_range
      ++ when (ltb_ℤ s.memory_margin_percent (pos 0) || ltb_ℤ (pos 90) s.memory_margin_percent)
          memory_margin_range
      ++ when (leb_ℤ s.sample_interval (pos 0)) sample_interval
    else []

-- Whether net.SplitHostPort takes a text: its last colon ends the host, which has no colon unless it
-- stands in brackets, and no bracket stands elsewhere.
unfoldable pub splits_host_port : Text → Bool
splits_host_port [] = false
splits_host_port (c ∷ s) =
    if c == 91
    then not (has_byte 91 s) && past_bracket s
    else one_colon (c ∷ s) && not (has_byte 91 (c ∷ s) || has_byte 93 (c ∷ s))
  where
    one_colon : Text → Bool
    one_colon [] = false
    one_colon (d ∷ t) = let rest = one_colon t in if d == 58 then not (has_byte 58 t) else rest

    is_port : Text → Bool
    is_port [] = false
    is_port (d ∷ t) = (d == 58) && not (has_byte 58 t || has_byte 93 t)

    past_bracket : Text → Bool
    past_bracket [] = false
    past_bracket (d ∷ t) = let rest = past_bracket t in if d == 93 then is_port t else rest

abbrev pub log_levels : List Text
log_levels = codes "debug" ∷ codes "info" ∷ codes "warn" ∷ codes "error" ∷ []

unfoldable pub check_observability : Observability → List Failure
unfolding splits_host_port text_eq
check_observability o = gather (
    when (ltb_ℤ o.diag_max_age (pos 0)) diag_age_negative
    ∷ when (ltb_ℤ o.diag_max_bytes (pos 0)) diag_bytes_negative
    ∷ when (not (splits_host_port o.listen)) listen_invalid
    ∷ when (not (is_in o.log_level log_levels)) log_level_unknown
    ∷ [])

-- The checks of Validate.
abbrev pub all_checks : Machine → Config → List (List Failure)
all_checks w c =
    let environment = check_environment w c.runner.environment_file in
    check_host c.capacity
    ∷ check_all_pools w.stat c.capacity.max_runners c.pools
    ∷ check_payload w.getenv c.runner
    ∷ environment.0
    ∷ check_cache_paths 0 [] c.runner.shared_cache_paths
    ∷ check_families 0 [] c.runner.extra_address_families
    ∷ map home_failure (check_job_home w.stat w.links environment.1 c)
    ∷ check_backend w.stat c.runtime.backend
    ∷ check_paths c.paths
    ∷ check_timeouts c.runtime
    ∷ check_scaling c.scaling
    ∷ check_observability c.observability
    ∷ []

-- Validate
unfoldable pub validate : Machine → Config → List Failure
unfolding check_host check_all_pools check_payload check_environment check_cache_paths
    check_families check_job_home check_backend check_paths check_timeouts check_scaling
    check_observability
validate w c = gather (all_checks w c)
