-- ===== src/Daemon/Boot/Checked.antt =====
-- What Run has checked when the daemon runs.
use tentacles.Base.{
  ℕ, ◌≡◌, ◌≢◌, ◌↔◌, ◌&&◌, refl, ap, subst, Bool, true, false, not, Option, none, some, List, [],
  ◌∷◌, map, Text, codes, text_eq, arith, All, AllPairs, ◌==◌,
}
use tentacles.Config.{Config, Pool}
use tentacles.Config.Defaults.{
  Document, Loaded, loaded, not_readable, no_document, many_documents, malformed_document, load,
}
use tentacles.Config.Check.{Machine, Failure, validate}
use tentacles.FilePath.{join}
use tentacles.Config.Dirs.{
  Disk, DirFailure, ensure_dirs, pool_state_dir, pool_slots_dir, pool_jit_dir,
}
use tentacles.Config.Apart.{DirsApart, accepted-DirsApart}
use tentacles.Config.Prepared.{AllPrepared, ensure_dirs-AllPrepared}
use tentacles.Daemon.Boot.{
  Setup, SetupFailure, Tried, done, failed, ◌>>=◌, refuse_if, known, DaemonPool, table_settings,
  scale_set_for, build_pools, check_privileges, runner_version, new_daemon, Keys, Outcome, runs,
  set_up_end, dirs_end, checked_end, run_loaded, run, identity_unknown, root_runner, not_supervisor,
  not_supported, hostname_unknown, payload_missing, download_url,
}

>>=-eq-done {ℓ κ} :
    {A : Type ℓ} {B : Type κ} (m : Tried A) (f : A → Tried B) {b : B}
    → (m >>= f) ≡ done b
    → (a : A) × (m ≡ done a) × (f a ≡ done b)
>>=-eq-done (done a) f h = (a, refl, h)
>>=-eq-done (failed e) f h = cc h

refuse_if-done : (b : Bool) (e : SetupFailure) (u : Unit {0}) → refuse_if b e ≡ done u → b ≡ false
refuse_if-done true e u h = cc h
refuse_if-done false e u h = refl

known-done {ℓ} :
    {A : Type ℓ} (o : Option A) (e : SetupFailure) (a : A) → known o e ≡ done a → o ≡ some a
known-done none e a h = cc h
known-done (some x) e a h = cc h

-- A pool with the table of its own: the namespace is its ID, the directories are its own, and the limits and
-- times are those of the configuration. The admission gate is there if it is on and there is a history.
pub record IsSetUp (s : Setup) (c : Config) (q : DaemonPool) : Type 0 where
  pub namespace : q.settings.namespace ≡ q.config.id
  pub slots :
      q.settings.slots_dir
      ≡ join (join (c.paths.state_dir ∷ codes "pools" ∷ q.config.id ∷ []) ∷ codes "slots" ∷ [])
  pub jit : q.settings.jit_dir ≡ join (c.runtime.jit_dir ∷ q.config.id ∷ [])
  pub graces :
      (q.settings.acquire_grace ≡ c.runtime.acquire_grace)
      × (q.settings.idle_grace ≡ c.runtime.idle_grace)
  pub timeouts :
      (q.settings.start_timeout ≡ c.runtime.slot_start_timeout)
      × (q.settings.stop_timeout ≡ c.runtime.slot_stop_timeout)
      × (q.settings.cleanup_timeout ≡ c.runtime.cleanup_timeout)
  pub limits :
      (q.settings.cpu_quota_percent ≡ c.capacity.job_cpu_quota_percent)
      × (q.settings.memory_max ≡ c.capacity.job_memory_max)
  pub user : (q.settings.user ≡ c.runner.user) × (q.settings.group ≡ c.runner.group)
  pub gate :
      (q.settings.is_gated ≡ true) ↔ ((c.scaling.admission_control ≡ true) × (s.has_history ≡ true))
  pub least : q.desired ≡ q.config.capacity.min_runners

-- The pools that are built: the configured ones in their order, each set up.
abbrev pub IsBuilt : Setup → Config → List Pool → List DaemonPool → Type 0
IsBuilt s c ps qs = (map (λ (q : DaemonPool). q.config) qs ≡ ps) × All (IsSetUp s c) qs

gate_iff : (a b : Bool) → ((a && b) ≡ true) ↔ ((a ≡ true) × (b ≡ true))
gate_iff a b = (λ h. ground (arith, h), λ h. ground (arith, h))

made-IsSetUp :
    (s : Setup) (c : Config) (p : Pool) (url owner : Text)
    → IsSetUp s c (record {
      config = p;
      desired = p.capacity.min_runners;
      url = url;
      session_owner = owner;
      settings = table_settings c s.has_history p;
    })
unfolding table_settings pool_slots_dir pool_state_dir pool_jit_dir
made-IsSetUp s c p url owner = record {
  namespace = refl;
  slots = refl;
  jit = refl;
  graces = (refl, refl);
  timeouts = (refl, refl, refl);
  limits = (refl, refl);
  user = (refl, refl);
  gate = gate_iff c.scaling.admission_control s.has_history;
  least = refl;
}

built_one :
    (s : Setup) (c : Config) (ps : List Pool) (q : DaemonPool) (qs : List DaemonPool)
    → IsSetUp s c q
    → IsBuilt s c ps qs
    → IsBuilt s c (q.config ∷ ps) (q ∷ qs)
built_one s c ps q qs h b = (ap (λ x. q.config ∷ x) b.0, (h, b.1))

build_pools-IsBuilt :
    (s : Setup) (c : Config) (hostname : Text) (keys : Keys) (ps : List Pool) (qs : List DaemonPool)
    → build_pools s c hostname keys ps ≡ done qs
    → IsBuilt s c ps qs
unfolding build_pools
build_pools-IsBuilt s c hostname keys [] qs e =
    let same : [] ≡ qs = cc e in subst (IsBuilt s c []) same (refl, tt)
build_pools-IsBuilt s c hostname keys (p ∷ ps) qs e =
    let (client, _, built) = >>=-eq-done (scale_set_for s keys hostname p) _ e in
    let (rest, made, whole) = >>=-eq-done (build_pools s c hostname client.0 ps) _ built in
    let pool : DaemonPool = record {
      config = p;
      desired = p.capacity.min_runners;
      url = client.1;
      session_owner = client.2;
      settings = table_settings c s.has_history p;
    } in
    let same : pool ∷ rest ≡ qs = cc whole in
    subst (IsBuilt s c (p ∷ ps)) same (
      built_one s c ps pool rest (made-IsSetUp s c p client.1 client.2)
        (build_pools-IsBuilt s c hostname client.0 ps rest made))

-- With the systemd backend the jobs' user is known and not root, and the daemon is root on a host that is
-- supported.
pub record IsPrivileged (s : Setup) : Type 0 where
  pub uid : ℕ
  pub user : s.runner_uid ≡ some uid
  pub not_root : uid ≢ 0
  pub supervisor : s.euid ≡ 0
  pub supported : s.is_supported ≡ true

check_privileges-IsPrivileged :
    (s : Setup) (u : Unit {0}) → check_privileges s (codes "systemd") ≡ done u → IsPrivileged s
unfolding check_privileges text_eq
check_privileges-IsPrivileged s u e =
    let (uid, user, e1) = >>=-eq-done (known s.runner_uid identity_unknown) _ e in
    let (_, root, e2) = >>=-eq-done (refuse_if (uid == 0) root_runner) _ e1 in
    let (_, supervised, e3) = >>=-eq-done (refuse_if (not (s.euid == 0)) not_supervisor) _ e2 in
    let r = refuse_if-done (uid == 0) root_runner _ root in
    let v = refuse_if-done (not (s.euid == 0)) not_supervisor _ supervised in
    let h = refuse_if-done (not s.is_supported) not_supported _ e3 in
    record {
      uid = uid;
      user = known-done s.runner_uid identity_unknown uid user;
      not_root = ground (arith, r);
      supervisor = ground (arith, v);
      supported = ground (arith, h);
    }

new_daemon_parts :
    (s : Setup) (c : Config) (qs : List DaemonPool)
    → new_daemon s c ≡ done qs
    → ((u : Unit {0}) × (check_privileges s c.runtime.backend ≡ done u)) × IsBuilt s c c.pools qs
unfolding new_daemon
new_daemon_parts s c qs e =
    let (u, privileged, e1) = >>=-eq-done (check_privileges s c.runtime.backend) _ e in
    let (pinned, _, e2) = >>=-eq-done (runner_version s c.runner) _ e1 in
    let (_, _, e3) =
      >>=-eq-done
        (refuse_if (not (s.has_payload pinned.0 pinned.1 (download_url c.runner pinned.0)))
          payload_missing)
        _ e2 in
    let (hostname, _, e4) = >>=-eq-done (known s.hostname hostname_unknown) _ e3 in
    ((u, privileged), build_pools-IsBuilt s c hostname [] c.pools qs e4)

-- What holds when the daemon runs with a configuration and pools.
pub record IsRunning (w : Machine) (d : Disk) (s : Setup) (c : Config) (qs : List DaemonPool)
    : Type 0 where
  pub accepted : validate w c ≡ []
  pub prepared : AllPrepared d c
  pub privileged : c.runtime.backend ≡ codes "systemd" → IsPrivileged s
  pub built : IsBuilt s c c.pools qs
  pub apart : AllPairs (DirsApart c) c.pools

checked_end-runs :
    (es : List Failure) (dry_run : Bool) (rest : Outcome) {c : Config} {qs : List DaemonPool}
    → checked_end es dry_run rest ≡ runs c qs
    → (es ≡ []) × (dry_run ≡ false) × (rest ≡ runs c qs)
checked_end-runs (e ∷ es) dry_run rest h = cc h
checked_end-runs [] true rest h = cc h
checked_end-runs [] false rest h = (refl, refl, h)

dirs_end-runs :
    (o : Option DirFailure) (rest : Outcome) {c : Config} {qs : List DaemonPool}
    → dirs_end o rest ≡ runs c qs
    → (o ≡ none) × (rest ≡ runs c qs)
dirs_end-runs (some e) rest h = cc h
dirs_end-runs none rest h = (refl, h)

set_up_end-runs :
    (b : Config) (t : Tried (List DaemonPool)) {c : Config} {qs : List DaemonPool}
    → set_up_end b t ≡ runs c qs
    → (b ≡ c) × (t ≡ done qs)
set_up_end-runs b (done ps) h = (cc h, cc h)
set_up_end-runs b (failed e) h = cc h

IsRunning-of :
    (w : Machine) (d : Disk) (s : Setup) (c : Config) (qs : List DaemonPool)
    → validate w c ≡ []
    → ensure_dirs d c ≡ none
    → new_daemon s c ≡ done qs
    → IsRunning w d s c qs
IsRunning-of w d s c qs accepted dirs made =
    let parts = new_daemon_parts s c qs made in
    record {
      accepted = accepted;
      prepared = ensure_dirs-AllPrepared d c dirs;
      privileged = λ e.
          check_privileges-IsPrivileged s parts.0.0
            (subst (λ b. check_privileges s b ≡ done parts.0.0) e parts.0.1);
      built = parts.1;
      apart = accepted-DirsApart w c accepted;
    }

-- If Run gets as far as the daemon's own run with a configuration and pools, then it is not a dry run; Load
-- has given that configuration and Validate has reported nothing; every directory of the host and of the pools
-- was created and passed its probe, and the JIT directories are private; with the systemd backend, the jobs'
-- user is not root, and the daemon is root on a supported host; the pools are the configured ones in their
-- order, and each table has its pool's ID as its namespace, the slots and JIT directories of that pool, the
-- configured graces, timeouts, limits and user, and the admission gate exactly if that is on and the history
-- could be opened; and the directories of any two pools do not overlap.
pub run-IsRunning :
    (w : Machine) (d : Disk) (s : Setup) (dry_run : Bool) (doc : Document) (c : Config)
    (qs : List DaemonPool)
    → run w d s dry_run doc ≡ runs c qs
    → (dry_run ≡ false) × (load doc ≡ loaded c) × IsRunning w d s c qs
unfolding run
run-IsRunning w d s dry_run doc c qs = from (load doc)
  where
    from :
        (l : Loaded)
        → run_loaded w d s dry_run l ≡ runs c qs
        → (dry_run ≡ false) × (l ≡ loaded c) × IsRunning w d s c qs
    from (loaded b) e =
        unfold run_loaded in
        let (accepted, wet, e1) = checked_end-runs (validate w b) dry_run _ e in
        let (dirs, e2) = dirs_end-runs (ensure_dirs d b) _ e1 in
        let (same, made) = set_up_end-runs b (new_daemon s b) e2 in
        (
          wet,
          ap loaded same,
          IsRunning-of w d s c qs (subst (λ x. validate w x ≡ []) same accepted)
              (subst (λ x. ensure_dirs d x ≡ none) same dirs)
              (subst (λ x. new_daemon s x ≡ done qs) same made),
        )
    from not_readable e = absurd (unfold run_loaded in cc e)
    from no_document e = absurd (unfold run_loaded in cc e)
    from many_documents e = absurd (unfold run_loaded in cc e)
    from malformed_document e = absurd (unfold run_loaded in cc e)
