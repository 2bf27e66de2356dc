-- ===== src/Config/Dirs.antt =====
-- internal/config/config.go: the directories of the pools, and EnsureDirs. What the file system answers is
-- a record of functions.
use tentacles.Base.{
  Bool, false, not, Option, none, some, List, [], ◌∷◌, Text, codes, text_eq, if◌then◌else◌,
}
use tentacles.FilePath.{join}
use tentacles.Config.{Config, Pool}

-- PoolStateDir
unfoldable pub pool_state_dir : Config → Text → Text
unfolding join
pool_state_dir c id = join (c.paths.state_dir ∷ codes "pools" ∷ id ∷ [])

-- PoolSlotsDir
unfoldable pub pool_slots_dir : Config → Text → Text
unfolding pool_state_dir join
pool_slots_dir c id = join (pool_state_dir c id ∷ codes "slots" ∷ [])

-- PoolJITDir
unfoldable pub pool_jit_dir : Config → Text → Text
unfolding join
pool_jit_dir c id = join (c.runtime.jit_dir ∷ id ∷ [])

-- PoolLogDir
unfoldable pub pool_log_dir : Config → Text → Text
unfolding join
pool_log_dir c id = join (c.paths.log_dir ∷ codes "pools" ∷ id ∷ [])

-- The mode of a directory: 0o755, or 0o700 for credentials.
pub data Mode : Type 0 where
  shared private : Mode

pub record DirSpec : Type 0 where
  pub path : Text
  pub mode : Mode

unfoldable pub pool_dirs : Config → List Pool → List DirSpec
unfolding pool_slots_dir pool_jit_dir pool_log_dir
pool_dirs c [] = []
pool_dirs c (p ∷ ps) =
    record { path = pool_slots_dir c p.id; mode = shared }
    ∷ record { path = pool_jit_dir c p.id; mode = private }
    ∷ record { path = pool_log_dir c p.id; mode = shared }
    ∷ pool_dirs c ps

unfoldable pub all_dirs : Config → List DirSpec
unfolding pool_dirs join
all_dirs c =
    record { path = c.paths.state_dir; mode = shared }
    ∷ record { path = c.paths.cache_dir; mode = shared }
    ∷ record { path = c.paths.log_dir; mode = shared }
    ∷ record { path = join (c.paths.state_dir ∷ codes "template" ∷ []); mode = shared }
    ∷ record { path = c.runtime.jit_dir; mode = private }
    ∷ pool_dirs c c.pools

-- os.Lstat
pub data Lstat : Type 0 where
  real_directory something_else lstat_error : Lstat

-- Whether each call on a path succeeds.
pub record Disk : Type 0 where
  pub mkdir_all : Text → Bool
  pub lstat : Text → Lstat
  pub chmod : Text → Bool
  pub create_probe : Text → Bool
  pub remove_probe : Text → Bool

pub data DirFailure : Type 0 where
  empty_path : DirFailure
  not_created not_inspected not_real mode_not_set not_writable : Text → DirFailure

-- probeWritable
unfoldable pub probe_writable : Disk → Text → Bool
probe_writable d path = if d.create_probe path then d.remove_probe path else false

unfoldable pub check_private : Disk → Text → Lstat → Option DirFailure
check_private d path real_directory = if d.chmod path then none else some (mode_not_set path)
check_private d path something_else = some (not_real path)
check_private d path lstat_error = some (not_inspected path)

unfoldable pub secure : Disk → Text → Mode → Option DirFailure
unfolding check_private
secure d path shared = none
secure d path private = check_private d path (d.lstat path)

-- One directory of the loop of EnsureDirs.
unfoldable pub ensure_dir : Disk → DirSpec → Option DirFailure
unfolding secure probe_writable text_eq
ensure_dir d spec =
    if text_eq spec.path []
    then some empty_path
    else if not (d.mkdir_all spec.path)
    then some (not_created spec.path)
    else elim (secure d spec.path spec.mode) [
      | some f ↦ some f
      | none ↦ if probe_writable d spec.path then none else some (not_writable spec.path)
    ]

-- The loop, up to its first error.
unfoldable pub ensure_each : Disk → List DirSpec → Option DirFailure
unfolding ensure_dir
ensure_each d [] = none
ensure_each d (spec ∷ specs) = elim (ensure_dir d spec) [
  | some f ↦ some f
  | none ↦ ensure_each d specs
]

-- EnsureDirs
unfoldable pub ensure_dirs : Disk → Config → Option DirFailure
unfolding ensure_each all_dirs
ensure_dirs d c = ensure_each d (all_dirs c)
