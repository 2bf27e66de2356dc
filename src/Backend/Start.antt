-- ===== src/Backend/Start.antt =====
-- internal/systemd/backend.go: New, Start with its arguments for systemd-run, and Stop. What the host
-- answers is a record.
use tentacles.Base.{
  ℕ, Bool, true, false, ◌||◌, List, [], ◌∷◌, ◌++◌, map, Text, codes, text_eq, any, leb, ◌==◌,
  if◌then◌else◌,
}
use tentacles.FilePath.{join}
use tentacles.Config.{default_shared_cache_paths}

-- Options, of what the model reads of it.
pub record Options : Type 0 where
  pub namespace : Text
  pub stop_timeout : ℕ
  pub cache_subdirs : List Text
  pub extra_address_families : List Text
  pub job_home : Text

pub record Backend : Type 0 where
  pub options : Options
  pub started : List Text

abbrev or_default : Text → Text → Text
or_default [] d = d
or_default (c ∷ s) d = c ∷ s

abbrev or_defaults : List Text → List Text → List Text
or_defaults [] d = d
or_defaults (s ∷ ss) d = s ∷ ss

-- New
unfoldable pub new_backend : Options → Backend
new_backend o = record {
  options = record {
    namespace = or_default o.namespace (codes "default");
    stop_timeout = if leb o.stop_timeout 0 then 30000000000 else o.stop_timeout;
    cache_subdirs = or_defaults o.cache_subdirs default_shared_cache_paths;
    extra_address_families = o.extra_address_families;
    job_home = o.job_home;
  };
  started = [];
}

-- strings.NewReplacer: a backslash and a quote take a backslash before them.
unfoldable pub escape : Text → Text
escape [] = []
escape (c ∷ s) = let rest = escape s in if (c == 92) || (c == 34) then 92 ∷ c ∷ rest else c ∷ rest

-- quotePath
unfoldable pub quote_path : Text → Text
unfolding escape
quote_path s = 34 ∷ (escape s ++ (34 ∷ []))

-- strings.Join with a space
unfoldable pub join_space : List Text → Text
join_space [] = []
join_space (s ∷ []) = s
join_space (s ∷ t ∷ ts) = s ++ (32 ∷ join_space (t ∷ ts))

abbrev pub base_address_families : List Text
base_address_families = codes "AF_UNIX" ∷ codes "AF_INET" ∷ codes "AF_INET6" ∷ []

-- The loop of addressFamilies.
unfoldable pub add_families : List Text → List Text → List Text
unfolding text_eq
add_families families [] = families
add_families families (f ∷ fs) =
    let seen = any (text_eq f) families in
    add_families (if seen then families else families ++ (f ∷ [])) fs

-- addressFamilies
unfoldable pub address_families : List Text → Text
unfolding add_families join_space
address_families extra = join_space (add_families base_address_families extra)

-- cachePaths
unfoldable pub cache_paths : Text → List Text → List Text
unfolding join
cache_paths home [] = []
cache_paths home (sub ∷ subs) = join (home ∷ sub ∷ []) ∷ cache_paths home subs

-- runner.Spec, of what Start reads
pub record Spec : Type 0 where
  pub unit_name : Text
  pub slot_dir : Text
  pub jit_path : Text
  pub user : Text
  pub group : Text
  pub env_file : Text
  pub cpu_quota : Text
  pub memory_max : Text

-- addProp
unfoldable pub add_prop : Text → Text → List Text
add_prop key [] = []
add_prop key (c ∷ s) = codes "-p" ∷ (key ++ (61 ∷ (c ∷ s))) ∷ []

abbrev given : Text → Bool
given [] = false
given (c ∷ s) = true

-- The properties that do not depend on the slot.
abbrev pub props : List Text → List Text
props [] = []
props (p ∷ ps) = codes "-p" ∷ p ∷ props ps

-- The paths that the job may write.
unfoldable pub write_paths : Text → Spec → List Text → List Text
write_paths job_home spec caches =
    (spec.slot_dir ∷ codes "/tmp" ∷ caches) ++ (if given job_home then job_home ∷ [] else [])

unfoldable pub bind_home : Text → Spec → List Text
unfolding quote_path join
bind_home job_home spec =
    if given job_home
    then codes "-p"
      ∷ (codes "BindPaths="
          ++ (quote_path (join (spec.slot_dir ∷ codes "home" ∷ [])) ++ (58 ∷ quote_path job_home)))
      ∷ []
    else []

-- runner.CredentialScript
abbrev pub credential_script : Text
credential_script =
    codes "jit=$(cat \"$CREDENTIALS_DIRECTORY/jit\") || exit; exec ./run.sh --jitconfig \"$jit\""

-- runner.CredentialScriptWithHome
abbrev pub credential_script_with_home : Text
credential_script_with_home = codes "HOME=$1; export HOME; " ++ credential_script

-- startArgs. `seconds` prints a number of nanoseconds as seconds.
unfoldable pub start_args : (ℕ → Text) → Options → Spec → List Text → List Text
unfolding add_prop write_paths bind_home quote_path join_space address_families
start_args seconds o spec caches =
    (codes "--collect"
      ∷ codes "--expand-environment=no"
      ∷ codes "--unit"
      ∷ spec.unit_name
      ∷ codes "--description"
      ∷ codes "GitHub Actions runner slot"
      ∷ codes "-p"
      ∷ codes "Type=exec"
      ∷ [])
    ++ add_prop (codes "User") spec.user
    ++ add_prop (codes "Group") spec.group
    ++ add_prop (codes "WorkingDirectory") spec.slot_dir
    ++ add_prop (codes "EnvironmentFile") spec.env_file
    ++ add_prop (codes "LoadCredential") (codes "jit:" ++ spec.jit_path)
    ++ add_prop (codes "CPUQuota") spec.cpu_quota
    ++ add_prop (codes "MemoryMax") spec.memory_max
    ++ props (
        codes "Nice=5"
        ∷ codes "KillMode=mixed"
        ∷ (codes "TimeoutStopSec=" ++ seconds o.stop_timeout)
        ∷ codes "TasksMax=4096"
        ∷ codes "PrivateTmp=yes"
        ∷ codes "NoNewPrivileges=yes"
        ∷ codes "CPUAccounting=yes"
        ∷ codes "MemoryAccounting=yes"
        ∷ codes "ProtectSystem=strict"
        ∷ codes "ProtectHome=read-only"
        ∷ (codes "ReadWritePaths="
            ++ join_space (map quote_path (write_paths o.job_home spec caches)))
        ∷ [])
    ++ bind_home o.job_home spec
    ++ props (
        (codes "RestrictAddressFamilies=" ++ address_families o.extra_address_families)
        ∷ codes "LockPersonality=yes"
        ∷ [])
    ++ (if given o.job_home
        then codes "/bin/sh"
          ∷ codes "-c"
          ∷ credential_script_with_home
          ∷ codes "sh"
          ∷ o.job_home
          ∷ []
        else codes "/bin/sh" ∷ codes "-c" ∷ credential_script ∷ [])
