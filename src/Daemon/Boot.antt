-- ===== src/Daemon/Boot.antt =====
-- internal/app/app.go: Run up to the main loop, newDaemonContext with its pools, and the start of run. What
-- the operating system, the payload and the client answer is a record.
pub mod Checked
use tentacles.Base.{
  ℕ, zero, suc, Bool, true, false, not, ◌&&◌, Option, none, some, List, [], ◌∷◌, ◌++◌, Text, codes,
  text_eq, trim_suffix, find, put, ◌==◌, if◌then◌else◌,
}
use tentacles.Base.Int.{ℤ}
use tentacles.Config.{Config, Pool, Runner}
use tentacles.Config.Defaults.{
  Document, Loaded, loaded, not_readable, no_document, many_documents, malformed_document, load,
}
use tentacles.Config.Check.{Machine, Failure, validate}
use tentacles.Config.Dirs.{Disk, DirFailure, ensure_dirs, pool_slots_dir, pool_jit_dir}

abbrev pub Keys : Type 0
Keys = List (Text × Text)

-- daemon.privateKey: the keys read so far, and the key of a path
unfoldable pub private_key : (Text → Option Text) → Keys → Text → Keys × Option Text
unfolding find put
private_key read keys path = held (find text_eq path keys)
  where
    fresh : Option Text → Keys × Option Text
    fresh none = (keys, none)
    fresh (some contents) = (put text_eq path contents keys, some contents)

    held : Option Text → Keys × Option Text
    held none = fresh (read path)
    held (some key) = (keys, some key)

-- The URL of the owner or the repository of a pool.
unfoldable pub github_url : Pool → Text
unfolding trim_suffix text_eq
github_url p =
    let owner = trim_suffix (codes "/") p.github.url ++ (codes "/" ++ p.github.scope.owner) in
    if text_eq p.github.scope.kind (codes "repository")
    then owner ++ (codes "/" ++ p.github.scope.repository)
    else owner

-- What the daemon gets from outside while it is set up.
pub record Setup : Type 0 where
  -- runner.ResolveIdentity: the user's ID
  pub runner_uid : Option ℕ
  pub euid : ℕ
  pub is_supported : Bool
  -- payload.ResolveLatest: the version and the digest
  pub latest : Option (Text × Text)
  -- Manager.Ensure of a version, a digest and a URL
  pub has_payload : Text → Text → Text → Bool
  pub has_history : Bool
  pub hostname : Option Text
  pub read_key : Text → Option Text
  -- scaleset.New, of a URL, a key and a session's owner
  pub has_client : Text → Text → Text → Bool

pub data SetupFailure : Type 0 where
  identity_unknown root_runner not_supervisor not_supported : SetupFailure
  version_unresolved payload_missing hostname_unknown : SetupFailure
  key_not_readable client_refused : Text → SetupFailure

pub data Tried {ℓ} (A : Type ℓ) : Type ℓ where
  done : A → Tried A
  failed : SetupFailure → Tried A

infixl 5 ◌>>=◌
abbrev pub ◌>>=◌ {ℓ κ} : {A : Type ℓ} {B : Type κ} → Tried A → (A → Tried B) → Tried B
done a >>= f = f a
failed e >>= f = failed e

abbrev pub refuse_if : Bool → SetupFailure → Tried (Unit {0})
refuse_if true e = failed e
refuse_if false e = done tt

abbrev pub known {ℓ} : {A : Type ℓ} → Option A → SetupFailure → Tried A
known none e = failed e
known (some a) e = done a

-- The options of a pool's slot table.
pub record TableSettings : Type 0 where
  pub namespace : Text
  pub slots_dir : Text
  pub jit_dir : Text
  pub acquire_grace : ℤ
  pub idle_grace : ℤ
  pub start_timeout : ℤ
  pub stop_timeout : ℤ
  pub cleanup_timeout : ℤ
  pub sample_interval : ℤ
  pub work_dir : Text
  pub cpu_quota_percent : ℤ
  pub memory_max : Text
  pub user : Text
  pub group : Text
  pub env_file : Text
  -- WithGate and WithReservation are given
  pub is_gated : Bool

pub record DaemonPool : Type 0 where
  pub config : Pool
  pub desired : ℤ
  pub url : Text
  pub session_owner : Text
  pub settings : TableSettings

unfoldable pub table_settings : Config → Bool → Pool → TableSettings
unfolding pool_slots_dir pool_jit_dir
table_settings c has_history p = record {
  namespace = p.id;
  slots_dir = pool_slots_dir c p.id;
  jit_dir = pool_jit_dir c p.id;
  acquire_grace = c.runtime.acquire_grace;
  idle_grace = c.runtime.idle_grace;
  start_timeout = c.runtime.slot_start_timeout;
  stop_timeout = c.runtime.slot_stop_timeout;
  cleanup_timeout = c.runtime.cleanup_timeout;
  sample_interval = c.scaling.sample_interval;
  work_dir = c.runner.work_directory;
  cpu_quota_percent = c.capacity.job_cpu_quota_percent;
  memory_max = c.capacity.job_memory_max;
  user = c.runner.user;
  group = c.runner.group;
  env_file = c.runner.environment_file;
  is_gated = c.scaling.admission_control && has_history;
}

-- daemon.scaleSetFor, without an injected one: the keys afterwards, the URL and the session's owner
unfoldable pub scale_set_for : Setup → Keys → Text → Pool → Tried (Keys × Text × Text)
unfolding private_key github_url
scale_set_for s keys hostname p =
    let read = private_key s.read_key keys p.github.app.private_key_path in
    let owner = hostname ++ (codes "-" ++ p.id) in
    known read.1 (key_not_readable p.id) >>= λ key.
    if s.has_client (github_url p) key owner
    then done (read.0, github_url p, owner)
    else failed (client_refused p.id)

-- The loop over the configured pools.
unfoldable pub build_pools : Setup → Config → Text → Keys → List Pool → Tried (List DaemonPool)
unfolding scale_set_for table_settings
build_pools s c hostname keys [] = done []
build_pools s c hostname keys (p ∷ ps) = scale_set_for s keys hostname p >>= λ client.
    build_pools s c hostname client.0 ps >>= λ rest. done (
      record {
        config = p;
        desired = p.capacity.min_runners;
        url = client.1;
        session_owner = client.2;
        settings = table_settings c s.has_history p;
      }
      ∷ rest)

-- The checks of the user and of the host, for the systemd backend.
unfoldable pub check_privileges : Setup → Text → Tried (Unit {0})
unfolding text_eq
check_privileges s backend =
    let systemd = text_eq backend (codes "systemd") in
    known s.runner_uid identity_unknown >>= λ uid.
    refuse_if (systemd && (uid == 0)) root_runner >>= λ _.
    refuse_if (systemd && not (s.euid == 0)) not_supervisor >>= λ _.
    refuse_if (systemd && not s.is_supported) not_supported

-- The version and the digest of the runner's payload.
unfoldable pub runner_version : Setup → Runner → Tried (Text × Text)
unfolding text_eq
runner_version s r =
    if text_eq r.version [] then known s.latest version_unresolved else done (r.version, r.sha256)

-- payload.DownloadURL
unfoldable pub payload_url : Text → Text
payload_url version =
    codes "https://github.com/actions/runner/releases/download/v"
    ++ (version ++ (codes "/actions-runner-linux-x64-" ++ (version ++ codes ".tar.gz")))

unfoldable pub download_url : Runner → Text → Text
unfolding payload_url text_eq
download_url r version = if text_eq r.download_url [] then payload_url version else r.download_url

-- newDaemonContext
unfoldable pub new_daemon : Setup → Config → Tried (List DaemonPool)
unfolding check_privileges runner_version download_url build_pools
new_daemon s c = check_privileges s c.runtime.backend >>= λ _.
    runner_version s c.runner >>= λ pinned.
    refuse_if (not (s.has_payload pinned.0 pinned.1 (download_url c.runner pinned.0)))
      payload_missing
    >>= λ _. known s.hostname hostname_unknown >>= λ hostname. build_pools s c hostname [] c.pools

-- How Run goes on, up to the daemon's own run.
pub data Outcome : Type 0 where
  not_loaded : Outcome
  invalid : List Failure → Outcome
  valid_dry_run : Outcome
  no_dirs : DirFailure → Outcome
  not_set_up : SetupFailure → Outcome
  runs : Config → List DaemonPool → Outcome

abbrev set_up_end : Config → Tried (List DaemonPool) → Outcome
set_up_end c (done ps) = runs c ps
set_up_end c (failed e) = not_set_up e

abbrev dirs_end : Option DirFailure → Outcome → Outcome
dirs_end (some e) rest = no_dirs e
dirs_end none rest = rest

abbrev checked_end : List Failure → Bool → Outcome → Outcome
checked_end (e ∷ es) dry_run rest = invalid (e ∷ es)
checked_end [] true rest = valid_dry_run
checked_end [] false rest = rest

unfoldable pub run_loaded : Machine → Disk → Setup → Bool → Loaded → Outcome
unfolding validate ensure_dirs new_daemon
run_loaded w d s dry_run (loaded c) =
    checked_end (validate w c) dry_run (dirs_end (ensure_dirs d c) (set_up_end c (new_daemon s c)))
run_loaded w d s dry_run _ = not_loaded

-- Run
unfoldable pub run : Machine → Disk → Setup → Bool → Document → Outcome
unfolding run_loaded load
run w d s dry_run document = run_loaded w d s dry_run (load document)
