-- ===== src/Config/Filled.antt =====
-- internal/config/load.go: what the defaults do to the checks and to a configuration that has them.
use tentacles.Base.{
  ℕ, ◌≡◌, ◌≢◌, refl, ap, inl, inr, Bool, true, false, List, [], ◌∷◌, map, Text, codes, arith, All,
  ◌==◌, if◌then◌else◌, Bool-cases,
}
use mathlib.Core.Path.{ap₂}
use tentacles.Base.Int.{ℤ, pos, negsuc, ◌≤ℤ◌}
use tentacles.Config.{Config, Pool, Runtime, default_shared_cache_paths}
use tentacles.Config.Defaults.{
  or_text, or_int, or_list, or_flag, trim_slashes, before_cut, default_pool, default_runner,
  default_paths, default_runtime, default_observability, default_scaling, Present, apply_defaults,
}

-- No timeout is negative.
pub record IsFromZero (r : Runtime) : Type 0 where
  pub start_from_zero : pos 0 ≤ℤ r.slot_start_timeout
  pub stop_from_zero : pos 0 ≤ℤ r.slot_stop_timeout
  pub cleanup_from_zero : pos 0 ≤ℤ r.cleanup_timeout
  pub acquire_from_zero : pos 0 ≤ℤ r.acquire_grace
  pub idle_from_zero : pos 0 ≤ℤ r.idle_grace

-- A flag of the document is kept, and one that it does not set is on.
abbrev pub IsFlag : Bool → Bool → Bool → Type 0
IsFlag true given used = used ≡ given
IsFlag false given used = used ≡ true

-- A path of the document is kept.
abbrev pub Keeps : Text → Text → Type 0
Keeps given used = given ≢ [] → used ≡ given

-- The paths and flags of a configuration after its defaults.
pub record IsFilled (e : Present) (c f : Config) : Type 0 where
  pub state_kept : Keeps c.paths.state_dir f.paths.state_dir
  pub cache_kept : Keeps c.paths.cache_dir f.paths.cache_dir
  pub logs_kept : Keeps c.paths.log_dir f.paths.log_dir
  pub jit_kept : Keeps c.runtime.jit_dir f.runtime.jit_dir
  pub updates : IsFlag e.disable_update_set c.runner.disable_update f.runner.disable_update
  pub shipping : IsFlag e.ship_diag_set c.observability.ship_diag f.observability.ship_diag
  pub admission : IsFlag e.admission_set c.scaling.admission_control f.scaling.admission_control

or_text_again : (s d : Text) → or_text (or_text s d) d ≡ or_text s d
or_text_again [] [] = refl
or_text_again [] (c ∷ d) = refl
or_text_again (c ∷ s) d = refl

or_list_again : (s d : List Text) → or_list (or_list s d) d ≡ or_list s d
or_list_again [] [] = refl
or_list_again [] (c ∷ d) = refl
or_list_again (c ∷ s) d = refl

or_int_again : (n : ℤ) (d : ℕ) → or_int (or_int n (pos d)) (pos d) ≡ or_int n (pos d)
or_int_again (pos n) d = ground arith
or_int_again (negsuc n) d = refl

or_flag_again : (b x : Bool) → or_flag b (or_flag b x) ≡ or_flag b x
or_flag_again true x = refl
or_flag_again false x = refl

margin_again :
    (b : Bool) (n : ℤ)
    → (if b then (if b then n else pos 20) else pos 20) ≡ (if b then n else pos 20)
margin_again true n = refl
margin_again false n = refl

before_cut_again :
    (c : ℕ) (t : Text) → trim_slashes t ≡ t → trim_slashes (before_cut c t) ≡ before_cut c t
unfolding trim_slashes
before_cut_again c [] h = elim (Bool-cases (c == 47)) [
  | inl e ↦ rw e refl
  | inr e ↦ rw e (unfold trim_slashes in rw e refl)
]
before_cut_again c (d ∷ t) h = ap (before_cut c) h

-- A text that is cut of its slashes has none to cut.
trim_slashes_again : (s : Text) → trim_slashes (trim_slashes s) ≡ trim_slashes s
unfolding trim_slashes
trim_slashes_again [] = refl
trim_slashes_again (c ∷ s) = before_cut_again c (trim_slashes s) (trim_slashes_again s)

-- The URL is not slashes only.
abbrev pub HasHost : Pool → Type 0
HasHost p = trim_slashes (or_text p.github.url (codes "https://github.com")) ≢ []

url_again : (u d : Text) → u ≢ [] → trim_slashes u ≡ u → trim_slashes (or_text u d) ≡ u
url_again [] d h k = absurd (h refl)
url_again (c ∷ u) d h k = k

pool_again : (p : Pool) → HasHost p → default_pool (default_pool p) ≡ default_pool p
unfolding default_pool
pool_again p h =
    rw
      (
        url_again (trim_slashes (or_text p.github.url (codes "https://github.com")))
            (codes "https://github.com") h
            (trim_slashes_again (or_text p.github.url (codes "https://github.com"))),
        or_text_again p.scale_set.runner_group (codes "Default"),
      )
      refl

pools_again :
    (ps : List Pool) → All HasHost ps → map default_pool (map default_pool ps) ≡ map default_pool ps
pools_again [] h = refl
pools_again (p ∷ ps) h = ap₂ ◌∷◌ (pool_again p h.0) (pools_again ps h.1)

-- Applying the defaults to a configuration that has them changes nothing, if the URL of no pool consists of
-- slashes only. Which flags the document sets is the same both times.
pub apply_defaults_again :
    (e : Present) (c : Config)
    → All HasHost c.pools
    → apply_defaults e (apply_defaults e c) ≡ apply_defaults e c
unfolding apply_defaults default_runner default_paths default_runtime default_observability
    default_scaling
apply_defaults_again e c h =
    rw
      (
        pools_again c.pools h,
        or_text_again c.runner.work_directory (codes "_work"),
        or_text_again c.runner.user (codes "gha-runner"),
        or_flag_again e.disable_update_set c.runner.disable_update,
        or_list_again c.runner.shared_cache_paths default_shared_cache_paths,
        or_text_again c.paths.state_dir (codes "/var/lib/tentacles"),
        or_text_again c.paths.cache_dir (codes "/var/cache/tentacles"),
        or_text_again c.paths.log_dir (codes "/var/log/tentacles"),
        or_text_again c.runtime.backend (codes "systemd"),
        or_text_again c.runtime.jit_dir (codes "/run/tentacles"),
        or_int_again c.runtime.slot_start_timeout 90000000000,
        or_int_again c.runtime.slot_stop_timeout 30000000000,
        or_int_again c.runtime.cleanup_timeout 60000000000,
        or_int_again c.runtime.acquire_grace 180000000000,
        or_int_again c.runtime.idle_grace 30000000000,
        or_flag_again e.admission_set c.scaling.admission_control,
        or_int_again c.scaling.cpu_target_percent 90,
        margin_again e.margin_set c.scaling.memory_margin_percent,
        or_int_again c.scaling.sample_interval 30000000000,
        or_text_again c.observability.listen (codes "127.0.0.1:9090"),
        or_text_again c.observability.log_level (codes "info"),
        or_flag_again e.ship_diag_set c.observability.ship_diag,
        or_int_again c.observability.diag_max_age 604800000000000,
        or_int_again c.observability.diag_max_bytes 1073741824,
      )
      refl
