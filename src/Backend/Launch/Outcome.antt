-- ===== src/Backend/Launch/Outcome.antt =====
-- What the way in which Start returns says of its calls.
use tentacles.Base.{
  ℕ, ◌≡◌, ◌≢◌, refl, ap, subst, ◌∙◌, true, not, ◌&&◌, ◌||◌, Option, none, some, List, [], ◌∷◌, ◌++◌,
  Text, text_eq, arith, All, All-append, if_cases, ◌==◌, Option-cases, inl, inr,
}
use tentacles.FilePath.{is_abs}
use tentacles.Backend.{valid_unit}
use tentacles.Backend.Start.{Backend, Spec, cache_paths}
use tentacles.Backend.Launch.{
  LaunchWorld, Called, mkdir_caches, mkdir_home, prepare_slot, systemd_run, LaunchEnd, running,
  not_started, uncertain, Launched, run_end, mark_started, failed_at, run_unit, prepare_unit,
  with_home, launch_at, check_identity, check_launch, launch,
}

abbrev pub IsQuiet : Called → Type 0
IsQuiet (systemd_run args) = ⊥
IsQuiet _ = Unit

-- A return that says that nothing was started made no run, and only a success marks the unit.
pub record IsHonest (b : Backend) (l : Launched) : Type 0 where
  pub quiet : l.end ≡ not_started → All IsQuiet l.calls
  pub kept : l.end ≢ running → l.backend ≡ b

failed_at-IsHonest :
    (b : Backend) (calls : List Called) → All IsQuiet calls → IsHonest b (failed_at b calls)
failed_at-IsHonest b calls h = record { quiet = λ _. h; kept = λ _. refl }

run_end-started : (w : LaunchWorld) → run_end w ≢ not_started
run_end-started w =
    if_cases (λ (e : LaunchEnd). e ≢ not_started) w.cancelled_after _ _ (λ _ e. cc e)
      (λ _.
        if_cases (λ (e : LaunchEnd). e ≢ not_started) w.run_succeeds _ _ (λ _ e. cc e)
          (λ _ e. cc e))

mark_started-kept :
    (unit : Text) (e : LaunchEnd) (b : Backend) → e ≢ running → mark_started unit e b ≡ b
mark_started-kept unit running b h = absurd (h refl)
mark_started-kept unit not_started b h = refl
mark_started-kept unit uncertain b h = refl

module _ (seconds : ℕ → Text) (w : LaunchWorld) (b : Backend) (spec : Spec) where
  run_unit-IsHonest :
      (caches : List Text) (calls : List Called)
      → IsHonest b (run_unit seconds w b spec caches calls)
  unfolding run_unit
  run_unit-IsHonest caches calls = record {
    quiet = λ e. absurd (run_end-started w e);
    kept = λ h. mark_started-kept spec.unit_name (run_end w) b h;
  }

  prepare_unit-IsHonest :
      (caches : List Text) (calls : List Called)
      → All IsQuiet calls
      → IsHonest b (prepare_unit seconds w b spec caches calls)
  unfolding prepare_unit
  prepare_unit-IsHonest caches calls h =
      if_cases (IsHonest b) w.prepares_slot _ _
        (λ _. run_unit-IsHonest caches (calls ++ (prepare_slot ∷ [])))
        (λ _.
          failed_at-IsHonest b (calls ++ (prepare_slot ∷ []))
            (All-append IsQuiet calls (prepare_slot ∷ []) h (tt, tt)))

  with_home-IsHonest :
      (caches : List Text) (calls : List Called)
      → All IsQuiet calls
      → IsHonest b (with_home seconds w b spec caches calls)
  unfolding with_home
  with_home-IsHonest caches calls h =
      if_cases (IsHonest b) (text_eq b.options.job_home []) _ _
        (λ _. prepare_unit-IsHonest caches calls h)
        (λ _.
          if_cases (IsHonest b) w.makes_home _ _
            (λ _.
              prepare_unit-IsHonest caches _
                (All-append IsQuiet calls (mkdir_home _ ∷ []) h (tt, tt)))
            (λ _. failed_at-IsHonest b _ (All-append IsQuiet calls (mkdir_home _ ∷ []) h (tt, tt))))

  launch_at-IsHonest : (o : Option Text) → IsHonest b (launch_at seconds w b spec o)
  unfolding launch_at
  launch_at-IsHonest none = failed_at-IsHonest b [] tt
  launch_at-IsHonest (some home) =
      if_cases (IsHonest b) w.makes_caches _ _
        (λ _.
          with_home-IsHonest (cache_paths home b.options.cache_subdirs) (mkdir_caches _ ∷ [])
            (tt, tt))
        (λ _. failed_at-IsHonest b (mkdir_caches _ ∷ []) (tt, tt))

-- The checks that every call of Start has passed: the unit is one of the backend's pool, and the jobs' user
-- is known and not root.
pub record IsAllowed (w : LaunchWorld) (namespace : Text) (spec : Spec) : Type 0 where
  pub uid : ℕ
  pub home : Text
  pub user : w.identity ≡ some (uid, home)
  pub not_root : uid ≢ 0
  pub owned : valid_unit namespace spec.unit_name ≡ true

check_launch-IsAllowed :
    (w : LaunchWorld) (namespace : Text) (spec : Spec) (used : Text)
    → check_launch w namespace spec ≡ some used
    → IsAllowed w namespace spec
unfolding check_launch
check_launch-IsAllowed w namespace spec used =
    if_cases (λ (o : Option Text). o ≡ some used → IsAllowed w namespace spec)
      (w.is_cancelled || text_eq spec.user []) _ _ (λ _ e. absurd (cc e))
      (λ _ e. elim (Option-cases w.identity) [
        | inl unknown ↦
            absurd (nothing (subst (λ o. check_identity w namespace spec o ≡ some used) unknown e))
        | inr ((uid, home), known) ↦
            allowed uid home known
              (subst (λ o. check_identity w namespace spec o ≡ some used) known e)
      ])
  where
    nothing : check_identity w namespace spec none ≡ some used → ⊥
    nothing e = unfold check_identity in cc e

    allowed :
        (uid : ℕ) (home : Text)
        → w.identity ≡ some (uid, home)
        → check_identity w namespace spec (some (uid, home)) ≡ some used
        → IsAllowed w namespace spec
    allowed uid home known =
        unfold check_identity in
        if_cases (λ (o : Option Text). o ≡ some used → IsAllowed w namespace spec)
          (not (uid == 0)
            && (valid_unit namespace spec.unit_name
                && (is_abs spec.slot_dir && is_abs spec.jit_path)))
          _ _
          (λ passed _. record {
            uid = uid;
            home = home;
            user = known;
            not_root = ground (arith, passed);
            owned = ground (arith, passed);
          })
          (λ _ e. absurd (cc e))

launch_at-none :
    (seconds : ℕ → Text) (w : LaunchWorld) (b : Backend) (spec : Spec)
    → (launch_at seconds w b spec none).calls ≡ []
unfolding launch_at
launch_at-none seconds w b spec = refl

-- If Start returns an error that says that no runner was started, it has not run systemd-run; only a return
-- without an error puts the unit among the started ones; and if Start has made any call, the unit is one of
-- the backend's own pool and the jobs' user is not root.
pub launch_outcome :
    (seconds : ℕ → Text) (w : LaunchWorld) (b : Backend) (spec : Spec)
    → IsHonest b (launch seconds w b spec)
      × ((launch seconds w b spec).calls ≢ [] → IsAllowed w b.options.namespace spec)
unfolding launch
launch_outcome seconds w b spec = (
  launch_at-IsHonest seconds w b spec (check_launch w b.options.namespace spec),
  λ called. elim (Option-cases (check_launch w b.options.namespace spec)) [
    | inl e ↦ absurd (
        called (ap (λ o. (launch_at seconds w b spec o).calls) e ∙ launch_at-none seconds w b spec))
    | inr (used, e) ↦ check_launch-IsAllowed w b.options.namespace spec used e
  ],
)
