-- ===== src/Config.antt =====
-- internal/config/config.go and load.go: the configuration as the YAML decoder fills it. An integer may
-- be negative; a duration is its nanoseconds.
pub mod Names
pub mod Failures
pub mod PoolCheck
pub mod JobHome
pub mod Check
pub mod Defaults
pub mod Dirs
pub mod Overlap
pub mod Accepted
pub mod Bounds
pub mod Forks
pub mod Apart
pub mod Owned
pub mod Filled
pub mod Acceptable
pub mod Prepared
pub mod Examples
use tentacles.Base.{ℕ, ◌*◌, Bool, List, [], ◌∷◌, Text, codes}
use tentacles.Base.Int.{ℤ, pos}

pub record App : Type 0 where
  pub client_id : Text
  pub installation_id : ℤ
  pub private_key_path : Text

pub record Scope : Type 0 where
  pub kind : Text
  pub owner : Text
  pub repository : Text

pub record GitHub : Type 0 where
  pub url : Text
  pub app : App
  pub scope : Scope

pub record ScaleSet : Type 0 where
  pub name : Text
  pub runner_group : Text
  pub extra_labels : List Text

pub record PoolCapacity : Type 0 where
  pub min_runners : ℤ
  pub max_runners : ℤ

pub record Pool : Type 0 where
  pub id : Text
  pub github : GitHub
  pub scale_set : ScaleSet
  pub capacity : PoolCapacity

pub record Capacity : Type 0 where
  pub max_runners : ℤ
  pub job_cpu_quota_percent : ℤ
  pub job_memory_max : Text

pub record Runner : Type 0 where
  pub version : Text
  pub download_url : Text
  pub sha256 : Text
  pub work_directory : Text
  pub disable_update : Bool
  pub user : Text
  pub group : Text
  pub environment_file : Text
  pub shared_cache_paths : List Text
  pub extra_address_families : List Text
  pub job_home : Text

pub record Paths : Type 0 where
  pub state_dir : Text
  pub cache_dir : Text
  pub log_dir : Text

pub record Runtime : Type 0 where
  pub backend : Text
  pub slot_start_timeout : ℤ
  pub slot_stop_timeout : ℤ
  pub cleanup_timeout : ℤ
  pub acquire_grace : ℤ
  pub idle_grace : ℤ
  pub jit_dir : Text

pub record Scaling : Type 0 where
  pub admission_control : Bool
  pub cpu_target_percent : ℤ
  pub memory_margin_percent : ℤ
  pub sample_interval : ℤ

pub record Observability : Type 0 where
  pub listen : Text
  pub log_level : Text
  pub ship_diag : Bool
  pub diag_max_age : ℤ
  pub diag_max_bytes : ℤ

pub record Config : Type 0 where
  pub pools : List Pool
  pub capacity : Capacity
  pub runner : Runner
  pub paths : Paths
  pub runtime : Runtime
  pub scaling : Scaling
  pub observability : Observability

abbrev pub seconds : ℕ → ℤ
seconds n = pos (n * 1000000000)

-- HardCapMaxRunners
abbrev pub hard_cap_max_runners : ℤ
hard_cap_max_runners = pos 32

-- MaxCPUQuotaPercent
abbrev pub max_cpu_quota_percent : ℤ
max_cpu_quota_percent = pos 102400

-- DefaultSharedCachePaths
abbrev pub default_shared_cache_paths : List Text
default_shared_cache_paths = codes ".cache" ∷ codes ".local/share/mise" ∷ codes "go/pkg/mod" ∷ []
