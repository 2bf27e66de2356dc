-- ===== src/Backend/Launch.antt =====
-- internal/systemd/backend.go: Start and Stop, over what the host answers. `uncertain` is an error that
-- does not prove that no runner was started.
pub mod Outcome
use tentacles.Base.{
  ℕ, suc, Bool, true, false, not, ◌&&◌, ◌||◌, Option, none, some, List, [], ◌∷◌, ◌++◌, Text, codes,
  text_eq, any, find, ◌==◌, if◌then◌else◌,
}
use tentacles.FilePath.{is_abs, join}
use tentacles.Env.{Vars, Parsed, variables, malformed_line, parse_file}
use tentacles.Backend.{valid_unit}
use tentacles.Backend.Start.{Options, Backend, Spec, cache_paths, start_args}

pub record LaunchWorld : Type 0 where
  pub is_cancelled : Bool
  -- runner.ResolveIdentity: the user's ID and home
  pub identity : Option (ℕ × Text)
  -- the lines of the environment file, if it can be read
  pub env_lines : Option (List Text)
  pub has_jit : Bool
  pub makes_caches : Bool
  pub makes_home : Bool
  pub prepares_slot : Bool
  pub cancelled_after : Bool
  pub run_succeeds : Bool

-- The calls that reach outside.
pub data Called : Type 0 where
  mkdir_caches : List Text → Called
  mkdir_home : Text → Called
  prepare_slot : Called
  systemd_run : List Text → Called

pub data LaunchEnd : Type 0 where
  running not_started uncertain : LaunchEnd

pub record Launched : Type 0 where
  pub backend : Backend
  pub calls : List Called
  pub end : LaunchEnd

-- What the checks before the first call come to: the job's HOME, if they pass.
unfoldable pub read_env : Spec → Option (List Text) → Option Vars
unfolding is_abs parse_file
read_env spec lines = from spec.env_file
  where
    vars : Parsed → Option Vars
    vars (variables vs) = some vs
    vars (malformed_line n) = none

    parsed : Option (List Text) → Option Vars
    parsed none = none
    parsed (some ls) = vars (parse_file ls)

    from : Text → Option Vars
    from [] = some []
    from (c ∷ s) = if is_abs (c ∷ s) then parsed lines else none

abbrev pub home_of : Text → Option Text → Text
home_of home none = home
home_of home (some value) = value

unfoldable pub check_home : LaunchWorld → Text → Option Vars → Option Text
unfolding find text_eq is_abs
check_home w home none = none
check_home w home (some vars) =
    let used = home_of home (find text_eq (codes "HOME") vars) in
    if w.has_jit && is_abs used then some used else none

unfoldable pub check_identity : LaunchWorld → Text → Spec → Option (ℕ × Text) → Option Text
unfolding valid_unit is_abs read_env check_home
check_identity w namespace spec none = none
check_identity w namespace spec (some (uid, home)) =
    if not (uid == 0)
      && (valid_unit namespace spec.unit_name && (is_abs spec.slot_dir && is_abs spec.jit_path))
    then check_home w home (read_env spec w.env_lines)
    else none

unfoldable pub check_launch : LaunchWorld → Text → Spec → Option Text
unfolding check_identity text_eq
check_launch w namespace spec =
    if w.is_cancelled || text_eq spec.user []
    then none
    else check_identity w namespace spec w.identity

abbrev pub run_end : LaunchWorld → LaunchEnd
run_end w = if w.cancelled_after then uncertain else if w.run_succeeds then running else uncertain

abbrev pub mark_started : Text → LaunchEnd → Backend → Backend
mark_started unit running b = record b {
  started = if any (text_eq unit) b.started then b.started else unit ∷ b.started;
}
mark_started unit not_started b = b
mark_started unit uncertain b = b

abbrev pub failed_at : Backend → List Called → Launched
failed_at b calls = record { backend = b; calls = calls; end = not_started }

-- systemd-run, after the calls before it.
unfoldable pub run_unit :
    (ℕ → Text) → LaunchWorld → Backend → Spec → List Text → List Called → Launched
unfolding start_args text_eq
run_unit seconds w b spec caches calls = record {
  backend = mark_started spec.unit_name (run_end w) b;
  calls = calls ++ (systemd_run (start_args seconds b.options spec caches) ∷ []);
  end = run_end w;
}

unfoldable pub prepare_unit :
    (ℕ → Text) → LaunchWorld → Backend → Spec → List Text → List Called → Launched
unfolding run_unit
prepare_unit seconds w b spec caches calls =
    if w.prepares_slot
    then run_unit seconds w b spec caches (calls ++ (prepare_slot ∷ []))
    else failed_at b (calls ++ (prepare_slot ∷ []))

unfoldable pub with_home :
    (ℕ → Text) → LaunchWorld → Backend → Spec → List Text → List Called → Launched
unfolding prepare_unit text_eq join
with_home seconds w b spec caches calls =
    let made = calls ++ (mkdir_home (join (spec.slot_dir ∷ codes "home" ∷ [])) ∷ []) in
    if text_eq b.options.job_home []
    then prepare_unit seconds w b spec caches calls
    else if w.makes_home
    then prepare_unit seconds w b spec caches made
    else failed_at b made

unfoldable pub launch_at : (ℕ → Text) → LaunchWorld → Backend → Spec → Option Text → Launched
unfolding with_home cache_paths
launch_at seconds w b spec none = failed_at b []
launch_at seconds w b spec (some home) =
    let caches = cache_paths home b.options.cache_subdirs in
    if w.makes_caches
    then with_home seconds w b spec caches (mkdir_caches caches ∷ [])
    else failed_at b (mkdir_caches caches ∷ [])

-- Backend.Start
unfoldable pub launch : (ℕ → Text) → LaunchWorld → Backend → Spec → Launched
unfolding launch_at check_launch
launch seconds w b spec = launch_at seconds w b spec (check_launch w b.options.namespace spec)

-- Backend.Stop: whether systemctl is run, and whether it returns no error
unfoldable pub stop_unit : Text → Text → Bool → Bool → Bool × Bool
unfolding valid_unit
stop_unit namespace unit cancelled succeeds =
    if valid_unit namespace unit then (true, not cancelled && succeeds) else (false, false)
