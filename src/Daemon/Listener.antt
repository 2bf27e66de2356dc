-- ===== src/Daemon/Listener.antt =====
-- internal/app/app.go: runPoolListener, which restarts a pool's listener with growing pauses. Durations
-- are in nanoseconds.
use tentacles.Base.{
  ℕ, zero, suc, ◌*◌, ◌≤◌, ◌≡◌, refl, Bool, true, false, List, [], ◌∷◌, arith, any, min, ap, ◌∙◌,
  if◌then◌else◌, count, length,
}

abbrev pub backoff_steps : List ℕ
backoff_steps = 1 ∷ 2 ∷ 5 ∷ 15 ∷ 30 ∷ []

abbrev nth_or : ℕ → List ℕ → ℕ → ℕ
nth_or d [] i = d
nth_or d (x ∷ xs) zero = x
nth_or d (x ∷ xs) (suc i) = nth_or d xs i

-- backoff[min(attempt, len(backoff)-1)]
unfoldable pub pause_after : ℕ → ℕ
pause_after attempt = nth_or 0 backoff_steps (min attempt 4) * 1000000000

-- What one round of the loop meets: the listener runs until the context ends, or it returns, with an
-- error or not, and the pause after it runs out or is cut short by the end of the context.
pub data Round : Type 0 where
  ends_in_run : Round
  returns : Bool → Round
  ends_in_pause : Bool → Round

-- What the loop does: it runs the listener, it counts an error, and it pauses.
pub data Deed : Type 0 where
  listening error_counted : Deed
  paused : ℕ → Deed

pub data ListenerEnd : Type 0 where
  stopped still_running : ListenerEnd

-- A run of the listener that returns, with what follows it.
abbrev after_run : Bool → ℕ → List Deed
after_run true wait = listening ∷ error_counted ∷ paused wait ∷ []
after_run false wait = listening ∷ paused wait ∷ []

abbrev prepend : List Deed → List Deed × ListenerEnd → List Deed × ListenerEnd
prepend [] r = r
prepend (d ∷ ds) r = let rest = prepend ds r in (d ∷ rest.0, rest.1)

-- runPoolListener, from an attempt on
unfoldable pub run_listener : ℕ → List Round → List Deed × ListenerEnd
unfolding pause_after
run_listener attempt [] = ([], still_running)
run_listener attempt (ends_in_run ∷ rs) = (listening ∷ [], stopped)
run_listener attempt (ends_in_pause failed ∷ rs) = (after_run failed (pause_after attempt), stopped)
run_listener attempt (returns failed ∷ rs) =
    prepend (after_run failed (pause_after attempt)) (run_listener (suc attempt) rs)

late_pause : (n : ℕ) → pause_after (suc (suc (suc (suc n)))) ≡ 30 * 1000000000
unfolding pause_after
late_pause n =
    let last : min (suc (suc (suc (suc n)))) 4 ≡ 4 = omega arith in
    ap (λ i. nth_or 0 backoff_steps i * 1000000000) last

pause_after_bounds :
    (attempt : ℕ) → (1000000000 ≤ pause_after attempt) × (pause_after attempt ≤ 30 * 1000000000)
unfolding pause_after
pause_after_bounds zero = (omega arith, omega arith)
pause_after_bounds (suc zero) = (omega arith, omega arith)
pause_after_bounds (suc (suc zero)) = (omega arith, omega arith)
pause_after_bounds (suc (suc (suc zero))) = (omega arith, omega arith)
pause_after_bounds (suc (suc (suc (suc n)))) =
    let late = late_pause n in (omega (arith, late), omega (arith, late))

pause_after_grows : (attempt : ℕ) → pause_after attempt ≤ pause_after (suc attempt)
unfolding pause_after
pause_after_grows zero = omega arith
pause_after_grows (suc zero) = omega arith
pause_after_grows (suc (suc zero)) = omega arith
pause_after_grows (suc (suc (suc zero))) = omega (arith, late_pause zero)
pause_after_grows (suc (suc (suc (suc n)))) = omega (arith, late_pause n, late_pause (suc n))

-- A trace in which the listener runs, each run but the last is followed by a pause before the next one,
-- with at most an error counted between, and each pause is at least `least` and the one before it, and at most
-- thirty seconds. The flag tells whether a run has gone before without its pause.
abbrev pub IsPaced : Bool → ℕ → List Deed → Type 0
IsPaced ran least [] = Unit
IsPaced false least (listening ∷ ds) = IsPaced true least ds
IsPaced true least (error_counted ∷ ds) = IsPaced true least ds
IsPaced true least (paused d ∷ ds) = (least ≤ d) × (d ≤ 30 * 1000000000) × IsPaced false d ds
IsPaced _ least _ = ⊥

-- Whether the context ends in a round.
abbrev pub is_last : Round → Bool
is_last ends_in_run = true
is_last (returns failed) = false
is_last (ends_in_pause failed) = true

abbrev pub expected_end : List Round → ListenerEnd
expected_end rs = if any is_last rs then stopped else still_running

-- The rounds up to the first one in which the context ends, with that one.
abbrev pub met : List Round → List Round
met [] = []
met (r ∷ rs) = let rest = met rs in if is_last r then r ∷ [] else r ∷ rest

-- Whether the listener returns with an error in a round.
abbrev pub fails : Round → Bool
fails ends_in_run = false
fails (returns failed) = failed
fails (ends_in_pause failed) = failed

abbrev pub is_listening : Deed → Bool
is_listening listening = true
is_listening _ = false

abbrev pub is_counted : Deed → Bool
is_counted error_counted = true
is_counted _ = false

after_run-IsPaced :
    (failed : Bool) (attempt least : ℕ)
    → least ≤ pause_after attempt
    → (rest : List Deed × ListenerEnd) → IsPaced false (pause_after attempt) rest.0
    → IsPaced false least (prepend (after_run failed (pause_after attempt)) rest).0
after_run-IsPaced true attempt least h rest g = (h, (pause_after_bounds attempt).1, g)
after_run-IsPaced false attempt least h rest g = (h, (pause_after_bounds attempt).1, g)

run_listener-IsPaced :
    (attempt least : ℕ) (rs : List Round)
    → least ≤ pause_after attempt
    → IsPaced false least (run_listener attempt rs).0
unfolding run_listener
run_listener-IsPaced attempt least [] h = tt
run_listener-IsPaced attempt least (ends_in_run ∷ rs) h = tt
run_listener-IsPaced attempt least (ends_in_pause true ∷ rs) h =
    (h, (pause_after_bounds attempt).1, tt)
run_listener-IsPaced attempt least (ends_in_pause false ∷ rs) h =
    (h, (pause_after_bounds attempt).1, tt)
run_listener-IsPaced attempt least (returns failed ∷ rs) h =
    after_run-IsPaced failed attempt least h (run_listener (suc attempt) rs)
      (run_listener-IsPaced (suc attempt) (pause_after attempt) rs (pause_after_grows attempt))

run_listener_runs :
    (attempt : ℕ) (rs : List Round)
    → count is_listening (run_listener attempt rs).0 ≡ length (met rs)
unfolding run_listener
run_listener_runs attempt [] = refl
run_listener_runs attempt (ends_in_run ∷ rs) = refl
run_listener_runs attempt (ends_in_pause true ∷ rs) = refl
run_listener_runs attempt (ends_in_pause false ∷ rs) = refl
run_listener_runs attempt (returns true ∷ rs) = ap (λ n. suc n) (run_listener_runs (suc attempt) rs)
run_listener_runs attempt (returns false ∷ rs) =
    ap (λ n. suc n) (run_listener_runs (suc attempt) rs)

run_listener_errors :
    (attempt : ℕ) (rs : List Round)
    → count is_counted (run_listener attempt rs).0 ≡ count fails (met rs)
unfolding run_listener
run_listener_errors attempt [] = refl
run_listener_errors attempt (ends_in_run ∷ rs) = refl
run_listener_errors attempt (ends_in_pause true ∷ rs) = refl
run_listener_errors attempt (ends_in_pause false ∷ rs) = refl
run_listener_errors attempt (returns true ∷ rs) =
    ap (λ n. suc n) (run_listener_errors (suc attempt) rs)
run_listener_errors attempt (returns false ∷ rs) = run_listener_errors (suc attempt) rs

prepend_end : (ds : List Deed) (r : List Deed × ListenerEnd) → (prepend ds r).1 ≡ r.1
prepend_end [] r = refl
prepend_end (d ∷ ds) r = prepend_end ds r

run_listener_end : (attempt : ℕ) (rs : List Round) → (run_listener attempt rs).1 ≡ expected_end rs
unfolding run_listener
run_listener_end attempt [] = refl
run_listener_end attempt (ends_in_run ∷ rs) = refl
run_listener_end attempt (ends_in_pause failed ∷ rs) = refl
run_listener_end attempt (returns failed ∷ rs) =
    prepend_end (after_run failed (pause_after attempt)) (run_listener (suc attempt) rs)
    ∙ run_listener_end (suc attempt) rs

-- runPoolListener runs a pool's listener once in every round up to the one in which the context ends, and returns
-- in that round; it counts an error for each run that returns one. Between two runs there is exactly one
-- pause, of at least one second and of at most thirty, and none is shorter than the one before it.
pub listener_restarts :
    (rs : List Round)
    → IsPaced false 1000000000 (run_listener 0 rs).0
      × (count is_listening (run_listener 0 rs).0 ≡ length (met rs))
      × (count is_counted (run_listener 0 rs).0 ≡ count fails (met rs))
      × ((run_listener 0 rs).1 ≡ expected_end rs)
listener_restarts rs = (
  run_listener-IsPaced 0 1000000000 rs (pause_after_bounds 0).0,
  run_listener_runs 0 rs,
  run_listener_errors 0 rs,
  run_listener_end 0 rs,
)
