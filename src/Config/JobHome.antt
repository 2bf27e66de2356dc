-- ===== src/Config/JobHome.antt =====
-- internal/config/config.go: the mount point of the per-job HOME has to be disjoint from every path that
-- a job still needs. The answers of the file system are arguments.
use tentacles.Base.{
  ℕ, Bool, false, not, ◌&&◌, ◌||◌, Option, none, some, List, [], ◌∷◌, ◌++◌, Text, codes, text_eq,
  starts_with, ◌==◌, if◌then◌else◌, any,
}
use mathlib.Core.List.{reverse}
use tentacles.FilePath.{
  is_abs, split_slash, join_slash, walk, render, clean_path, join, rel, dot_dot,
}
use tentacles.Config.{Config}
use tentacles.Config.Failures.{when, gather}

-- os.FileStat
pub data FileStat : Type 0 where
  missing plain_file directory : FileStat

-- filepath.EvalSymlinks
pub data Linked : Type 0 where
  resolved : Text → Linked
  not_exist link_error : Linked

pub data HomeFailure : Type 0 where
  not_clean has_colon unresolved env_home_unresolved overlaps_env_home : HomeFailure
  state_dir_unresolved overlaps_state_dir mount_missing mount_not_directory : HomeFailure
  needs_systemd holds_work_directory : HomeFailure

-- The test on the result of Rel.
abbrev pub is_below : Option Text → Bool
is_below none = false
is_below (some r) = not (text_eq r dot_dot) && not (starts_with (codes "../") r)

-- pathContains
unfoldable pub path_contains : Text → Text → Bool
unfolding rel text_eq starts_with
path_contains parent child = is_below (rel parent child)

-- pathsOverlap
unfoldable pub paths_overlap : Text → Text → Bool
unfolding path_contains
paths_overlap a b = path_contains a b || path_contains b a

-- The loop of resolvePathForOverlap: an ancestor of a clean path is a prefix of its segments, here the
-- last one first, and the segments past it are the suffix.
unfoldable pub resolve_from : (Text → Linked) → Bool → List Text → List Text → Option Text
unfolding render join join_slash
resolve_from links rooted [] suffix = last (links (render rooted []))
  where
    last : Linked → Option Text
    last (resolved p) = some (join (p ∷ join_slash suffix ∷ []))
    last not_exist = none
    last link_error = none
resolve_from links rooted (w ∷ up) suffix =
    next (links (render rooted (reverse (w ∷ up)))) (resolve_from links rooted up (w ∷ suffix))
  where
    next : Linked → Option Text → Option Text
    next (resolved p) more = some (join (p ∷ join_slash suffix ∷ []))
    next not_exist more = more
    next link_error more = none

-- resolvePathForOverlap
unfoldable pub resolve_path_for_overlap : (Text → Linked) → Text → Option Text
unfolding resolve_from is_abs walk split_slash
resolve_path_for_overlap links path =
    resolve_from links (is_abs path) (walk (is_abs path) [] (split_slash path)) []

-- A path that a job needs, where it is absolute.
unfoldable pub check_apart :
    (Text → Linked) → Text → Text → HomeFailure → HomeFailure → List HomeFailure
unfolding is_abs resolve_path_for_overlap paths_overlap
check_apart links home path unknown overlapping =
    if is_abs path
    then elim (resolve_path_for_overlap links path) [
      | none ↦ unknown ∷ []
      | some r ↦ when (paths_overlap home r) overlapping
    ]
    else []

unfoldable pub check_mount : FileStat → List HomeFailure
check_mount missing = mount_missing ∷ []
check_mount plain_file = mount_not_directory ∷ []
check_mount directory = []

abbrev pub has_byte : ℕ → Text → Bool
has_byte b s = any (λ c. c == b) s

-- What is checked of a clean absolute mount point.
unfoldable pub check_home_path :
    (Text → FileStat) → (Text → Linked) → Text → Text → Text → List HomeFailure
unfolding check_apart check_mount resolve_path_for_overlap
check_home_path stat links env_home state_dir home = gather (
    when (has_byte 58 home || has_byte 58 state_dir) has_colon
    ∷ elim (resolve_path_for_overlap links home) [
      | none ↦ unresolved ∷ []
      | some r ↦
          check_apart links r env_home env_home_unresolved overlaps_env_home
          ++ check_apart links r state_dir state_dir_unresolved overlaps_state_dir
    ]
    ∷ check_mount (stat home)
    ∷ [])

-- The checks of runner.job_home. `env_home` is the HOME of the environment file.
unfoldable pub check_job_home :
    (Text → FileStat) → (Text → Linked) → Text → Config → List HomeFailure
unfolding check_home_path path_contains clean_path is_abs text_eq
check_job_home stat links env_home c =
    let home = c.runner.job_home in
    if text_eq home []
    then []
    else (if not (is_abs home) || not (text_eq (clean_path home) home) || text_eq home (codes "/")
        then not_clean ∷ []
        else check_home_path stat links env_home c.paths.state_dir home)
      ++ when (not (text_eq c.runtime.backend (codes "systemd"))) needs_systemd
      ++ when (path_contains (codes "home") (clean_path c.runner.work_directory))
          holds_work_directory
