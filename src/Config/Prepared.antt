-- ===== src/Config/Prepared.antt =====
-- internal/config/config.go: what EnsureDirs leaves behind.
use tentacles.Base.{
  ◌≡◌, ◌≢◌, refl, inl, inr, true, none, List, [], ◌∷◌, Text, codes, text_eq, text_eq_iff, arith,
  All, Bool-cases, Option-cases,
}
use tentacles.FilePath.{join}
use tentacles.Config.{Config, Pool}
use tentacles.Config.Dirs.{
  Disk, DirSpec, Mode, shared, private, Lstat, real_directory, something_else, lstat_error, secure,
  check_private, probe_writable, ensure_dir, ensure_each, ensure_dirs, all_dirs, pool_dirs,
  pool_slots_dir, pool_jit_dir, pool_log_dir,
}

-- A private directory is a real one, and its mode was set.
abbrev pub IsSecure : Disk → Text → Mode → Type 0
IsSecure d path shared = Unit
IsSecure d path private = (d.lstat path ≡ real_directory) × (d.chmod path ≡ true)

pub record IsReady (d : Disk) (spec : DirSpec) : Type 0 where
  pub named : spec.path ≢ []
  pub created : d.mkdir_all spec.path ≡ true
  pub secured : IsSecure d spec.path spec.mode
  pub probed : d.create_probe spec.path ≡ true
  pub cleared : d.remove_probe spec.path ≡ true

secure-none : (d : Disk) (path : Text) (m : Mode) → secure d path m ≡ none → IsSecure d path m
unfolding secure
secure-none d path shared e = tt
secure-none d path private e = from (d.lstat path) e
  where
    from :
        (l : Lstat) → check_private d path l ≡ none → (l ≡ real_directory) × (d.chmod path ≡ true)
    from real_directory h = (refl, unfold check_private in ground (arith, h))
    from something_else h = absurd (unfold check_private in cc h)
    from lstat_error h = absurd (unfold check_private in cc h)

probe_writable_parts :
    (d : Disk) (path : Text)
    → probe_writable d path ≡ true
    → (d.create_probe path ≡ true) × (d.remove_probe path ≡ true)
unfolding probe_writable
probe_writable_parts d path h = ground (arith, h)

ensure_dir-IsReady : (d : Disk) (spec : DirSpec) → ensure_dir d spec ≡ none → IsReady d spec
unfolding ensure_dir
ensure_dir-IsReady d spec e = elim (Bool-cases (text_eq spec.path [])) [
  | inl a ↦ absurd (cc (rw a at e))
  | inr a ↦ elim (Bool-cases (d.mkdir_all spec.path)) [
    | inr b ↦ absurd (cc (rw (a, b) at e))
    | inl b ↦ elim (Option-cases (secure d spec.path spec.mode)) [
      | inr (f, s) ↦ absurd (cc (rw (a, b, s) at e))
      | inl s ↦ elim (Bool-cases (probe_writable d spec.path)) [
        | inr p ↦ absurd (cc (rw (a, b, s, p) at e))
        | inl p ↦
            let probe = probe_writable_parts d spec.path p in
            record {
              named = λ n. cc ((text_eq_iff spec.path []).1 n, a);
              created = b;
              secured = secure-none d spec.path spec.mode s;
              probed = probe.0;
              cleared = probe.1;
            }
      ]
    ]
  ]
]

ensure_each-IsReady :
    (d : Disk) (specs : List DirSpec) → ensure_each d specs ≡ none → All (IsReady d) specs
unfolding ensure_each
ensure_each-IsReady d [] e = tt
ensure_each-IsReady d (spec ∷ specs) e = elim (Option-cases (ensure_dir d spec)) [
  | inl h ↦ (ensure_dir-IsReady d spec h, ensure_each-IsReady d specs (rw (ensure_each, h) at e))
  | inr (f, h) ↦ absurd (cc (rw (ensure_each, h) at e))
]

-- A directory was created and passed the probe.
pub record IsUsable (d : Disk) (path : Text) : Type 0 where
  pub named : path ≢ []
  pub created : d.mkdir_all path ≡ true
  pub probed : d.create_probe path ≡ true
  pub cleared : d.remove_probe path ≡ true

-- Besides, it is a real directory whose mode was set to the private one.
pub record IsPrivate (d : Disk) (path : Text) : Type 0 where
  pub usable : IsUsable d path
  pub real : d.lstat path ≡ real_directory
  pub restricted : d.chmod path ≡ true

-- The directories of a pool, its JIT directory private.
pub record IsPrepared (d : Disk) (c : Config) (p : Pool) : Type 0 where
  pub slots : IsUsable d (pool_slots_dir c p.id)
  pub jit : IsPrivate d (pool_jit_dir c p.id)
  pub logs : IsUsable d (pool_log_dir c p.id)

-- The directories of the host and of every pool.
pub record AllPrepared (d : Disk) (c : Config) : Type 0 where
  pub state : IsUsable d c.paths.state_dir
  pub cache : IsUsable d c.paths.cache_dir
  pub log : IsUsable d c.paths.log_dir
  pub template : IsUsable d (join (c.paths.state_dir ∷ codes "template" ∷ []))
  pub common_jit : IsPrivate d c.runtime.jit_dir
  pub pools : All (IsPrepared d c) c.pools

IsReady-IsUsable : (d : Disk) (spec : DirSpec) → IsReady d spec → IsUsable d spec.path
IsReady-IsUsable d spec r = record {
  named = r.named;
  created = r.created;
  probed = r.probed;
  cleared = r.cleared;
}

IsReady-IsPrivate :
    (d : Disk) (path : Text) → IsReady d (record { path = path; mode = private }) → IsPrivate d path
IsReady-IsPrivate d path r = record {
  usable = IsReady-IsUsable d _ r;
  real = r.secured.0;
  restricted = r.secured.1;
}

pool_dirs-IsPrepared :
    (d : Disk) (c : Config) (ps : List Pool)
    → All (IsReady d) (pool_dirs c ps)
    → All (IsPrepared d c) ps
unfolding pool_dirs
pool_dirs-IsPrepared d c [] all = tt
pool_dirs-IsPrepared d c (p ∷ ps) all =
    let (slots, others) = all in
    let (jit, more) = others in
    let (logs, rest) = more in
    (
      record {
        slots = IsReady-IsUsable d _ slots;
        jit = IsReady-IsPrivate d _ jit;
        logs = IsReady-IsUsable d _ logs;
      },
      pool_dirs-IsPrepared d c ps rest,
    )

all_dirs-AllPrepared : (d : Disk) (c : Config) → All (IsReady d) (all_dirs c) → AllPrepared d c
unfolding all_dirs
all_dirs-AllPrepared d c all =
    let (state, from_cache) = all in
    let (cache, from_log) = from_cache in
    let (log, from_template) = from_log in
    let (template, from_jit) = from_template in
    let (jit, rest) = from_jit in
    record {
      state = IsReady-IsUsable d _ state;
      cache = IsReady-IsUsable d _ cache;
      log = IsReady-IsUsable d _ log;
      template = IsReady-IsUsable d _ template;
      common_jit = IsReady-IsPrivate d _ jit;
      pools = pool_dirs-IsPrepared d c c.pools rest;
    }

-- If EnsureDirs returns no error, then the state, cache, log and template directories, the common JIT directory
-- and every pool's slots, JIT and log directories have a path, were created and passed the probe for a
-- writable directory; and the common JIT directory and that of every pool are real directories whose mode
-- was set to the private one.
pub ensure_dirs-AllPrepared : (d : Disk) (c : Config) → ensure_dirs d c ≡ none → AllPrepared d c
unfolding ensure_dirs
ensure_dirs-AllPrepared d c e = all_dirs-AllPrepared d c (ensure_each-IsReady d (all_dirs c) e)
