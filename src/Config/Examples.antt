-- ===== src/Config/Examples.antt =====
-- A configuration with two pools, and hosts.
use tentacles.Base.{
  ℕ, none, ◌≤◌, ◌≡◌, ◌≢◌, ◌↔◌, refl, not, text_eq, some, true, false, List, [], ◌∷◌, Text, codes,
  arith, All, AllPairs,
}
use tentacles.Base.Int.{ℤ, pos, ◌≤ℤ◌}
use tentacles.FilePath.{render}
use tentacles.FilePath.Segments.{IsPlain}
use tentacles.UnitName.{unit_name, max_slot_id}
use tentacles.Backend.{namespace_from_unit}
use tentacles.Config.{Config, Pool, seconds, default_shared_cache_paths, hard_cap_max_runners}
use tentacles.Config.JobHome.{directory, resolved, paths_overlap, path_contains, overlaps_state_dir}
use tentacles.Config.Check.{
  Machine, validate, duplicate_id, duplicate_target, min_sum_above_max, home_failure,
}
use tentacles.Config.PoolCheck.{validate_pool}
use tentacles.Config.Defaults.{Present}
use tentacles.Config.Dirs.{Disk, real_directory, ensure_dirs, not_writable}
use tentacles.Config.Accepted.{IsBounded}
use tentacles.Config.Bounds.{accepted_capacities, min_sum}
use tentacles.Config.Apart.{DirsApart, accepted-DirsApart}
use tentacles.Config.Owned.{accepted_units_owned}
use tentacles.Config.Acceptable.{IsAcceptable, validate_pool_iff}
use tentacles.Config.Prepared.{AllPrepared, ensure_dirs-AllPrepared}
use tentacles.Config.Overlap.{apart_share_nothing}

abbrev pub pool_named : Text → ℤ → ℤ → Pool
pool_named id least most = record {
  id = id;
  github = record {
    url = codes "https://github.com";
    app = record {
      client_id = codes "Iv1";
      installation_id = pos 7;
      private_key_path = codes "/etc/key";
    };
    scope = record { kind = codes "organization"; owner = codes "acme"; repository = [] };
  };
  scale_set = record { name = id; runner_group = codes "Default"; extra_labels = [] };
  capacity = record { min_runners = least; max_runners = most };
}

abbrev pub config_of : List Pool → Text → Config
config_of ps job_home = record {
  pools = ps;
  capacity = record {
    max_runners = pos 6;
    job_cpu_quota_percent = pos 200;
    job_memory_max = codes "4G";
  };
  runner = record {
    version = [];
    download_url = [];
    sha256 = [];
    work_directory = codes "_work";
    disable_update = true;
    user = codes "gha";
    group = [];
    environment_file = codes "/etc/runner.env";
    shared_cache_paths = default_shared_cache_paths;
    extra_address_families = codes "AF_NETLINK" ∷ [];
    job_home = job_home;
  };
  paths = record {
    state_dir = codes "/var/lib/t";
    cache_dir = codes "/var/cache";
    log_dir = codes "/var/log";
  };
  runtime = record {
    backend = codes "systemd";
    slot_start_timeout = seconds 90;
    slot_stop_timeout = seconds 30;
    cleanup_timeout = seconds 60;
    acquire_grace = seconds 180;
    idle_grace = seconds 30;
    jit_dir = codes "/run/t";
  };
  scaling = record {
    admission_control = true;
    cpu_target_percent = pos 90;
    memory_margin_percent = pos 20;
    sample_interval = seconds 30;
  };
  observability = record {
    listen = codes "127.0.0.1:9090";
    log_level = codes "info";
    ship_diag = true;
    diag_max_age = seconds 604800;
    diag_max_bytes = pos 1000;
  };
}

abbrev pub everything : Machine
everything = record {
  stat = λ _. directory;
  links = resolved;
  getenv = λ _. [];
  lines = λ _. some (codes "PATH=/bin" ∷ codes "HOME=/home/gha" ∷ []);
}

abbrev pub two_pools : List Pool
two_pools =
    pool_named (codes "org-a") (pos 1) (pos 4) ∷ pool_named (codes "org-b") (pos 2) (pos 6) ∷ []

abbrev pub two : Config
two = config_of two_pools []

two-accepted : validate everything two ≡ []
unfolding validate
two-accepted = refl

-- The job home lies in the state directory.
home_inside :
    validate everything (config_of two_pools (codes "/var/lib/t/home"))
    ≡ home_failure overlaps_state_dir ∷ []
unfolding validate
home_inside = refl

-- Two pools with one ID and one target that together ask for too many runners.
abbrev twice : Config
twice =
    config_of
      (pool_named (codes "org-a") (pos 4) (pos 4) ∷ pool_named (codes "org-a") (pos 4) (pos 4) ∷ [])
      []

twice-refused :
    validate everything twice ≡ duplicate_id 1 0 ∷ duplicate_target 1 0 ∷ min_sum_above_max ∷ []
unfolding validate
twice-refused = refl

-- A disk on which nothing fails but the probe in one directory.
sealed :
    ensure_dirs
      (record {
        mkdir_all = λ _. true;
        lstat = λ _. real_directory;
        chmod = λ _. true;
        create_probe = λ s. not (text_eq s (codes "/run/t/org-b"));
        remove_probe = λ _. true;
      })
      two
    ≡ some (not_writable (codes "/run/t/org-b"))
unfolding ensure_dirs
sealed = refl

accepted_capacities_example :
    (pos 1 ≤ℤ pos 6)
    × (pos 6 ≤ℤ hard_cap_max_runners)
    × All (IsBounded (pos 6)) two_pools
    × AllPairs (λ p q. p.id ≢ q.id) two_pools
    × (pos (min_sum two_pools) ≤ℤ pos 6)
accepted_capacities_example = accepted_capacities everything two two-accepted (omega arith)

accepted-DirsApart_example : AllPairs (DirsApart two) two_pools
accepted-DirsApart_example = accepted-DirsApart everything two two-accepted

accepted_units_owned_example :
    All
      (λ p. (n : ℕ) → n ≤ max_slot_id → namespace_from_unit (unit_name p.id n) ≡ some p.id)
      two_pools
accepted_units_owned_example = accepted_units_owned everything two two-accepted

abbrev one_pool : Pool
one_pool = pool_named (codes "org-a") (pos 1) (pos 4)

validate_pool_iff_example :
    (validate_pool (λ _. true) (pos 6) one_pool ≡ []) ↔ IsAcceptable (λ _. true) (pos 6) one_pool
validate_pool_iff_example = validate_pool_iff (λ _. true) (pos 6) one_pool

abbrev nothing_set : Present
nothing_set = record {
  disable_update_set = false;
  ship_diag_set = false;
  admission_set = false;
  margin_set = true;
}

abbrev bare : Config
bare = config_of (pool_named (codes "org-a") (pos 0) (pos 1) ∷ []) []

abbrev home_gha : List Text
home_gha = codes "home" ∷ codes "gha" ∷ []

abbrev srv : List Text
srv = codes "srv" ∷ []

abbrev srv_x : List Text
srv_x = codes "srv" ∷ codes "x" ∷ []

home_gha-IsPlain : All IsPlain home_gha
unfolding text_eq
home_gha-IsPlain = (
  (refl, refl, refl, (refl, (refl, (refl, (refl, tt))))),
  ((refl, refl, refl, (refl, (refl, (refl, tt)))), tt),
)

srv_x-IsPlain : All IsPlain srv_x
unfolding text_eq
srv_x-IsPlain =
    ((refl, refl, refl, (refl, (refl, (refl, tt)))), ((refl, refl, refl, (refl, tt)), tt))

apart : paths_overlap (render true srv) (render true home_gha) ≡ false
unfolding paths_overlap render
apart = refl

inside : path_contains (render true srv) (render true srv_x) ≡ true
unfolding path_contains render
inside = refl

apart_share_nothing_example : path_contains (render true home_gha) (render true srv_x) ≡ false
apart_share_nothing_example =
    apart_share_nothing srv home_gha srv_x (srv_x-IsPlain.0, tt) home_gha-IsPlain srv_x-IsPlain
      apart inside

abbrev pub good_disk : Disk
good_disk = record {
  mkdir_all = λ _. true;
  lstat = λ _. real_directory;
  chmod = λ _. true;
  create_probe = λ _. true;
  remove_probe = λ _. true;
}

good_disk-none : ensure_dirs good_disk two ≡ none
unfolding ensure_dirs
good_disk-none = refl

ensure_dirs-AllPrepared_example : AllPrepared good_disk two
ensure_dirs-AllPrepared_example = ensure_dirs-AllPrepared good_disk two good_disk-none
