-- ===== src/Pool/Examples.antt =====
-- The pool's bookkeeping at concrete inputs.
use tentacles.Base.{◌+◌, ◌*◌, ◌≤◌, refl, some, List, [], ◌∷◌, Text, codes, arith}
use tentacles.Slot.{Slot, busy}
use tentacles.Table.Examples.{numbers, slot_of}
use tentacles.History.{Store, empty_store, Weights, predict_mem}
use tentacles.Pool.Retry.{second, IsDelay, acquire_retry_wait, after_failures, retry_wait_bounded}
use tentacles.Pool.Queue.{Queued, noted, consumed, run_ops}
use tentacles.Pool.Queue.Bounds.{IsBounded, run_ops-IsBounded}
use tentacles.Pool.Admission.{
  Budget, outstanding, outstanding_sum, gate_with_history, admitted_fits,
}

retry_wait_bounded_example :
    IsDelay (acquire_retry_wait (5 * second) (after_failures (5 * second ∷ 3 * second ∷ [])))
retry_wait_bounded_example = retry_wait_bounded (5 * second) (3 * second ∷ [])

run_ops-IsBounded_example :
    IsBounded
      (run_ops (noted 10 (codes "build" ∷ codes "build" ∷ []) ∷ consumed (codes "build") ∷ []) [])
run_ops-IsBounded_example =
    run_ops-IsBounded
      (noted 10 (codes "build" ∷ codes "build" ∷ []) ∷ consumed (codes "build") ∷ [])

abbrev weights : Weights
weights = record { alpha = 1; rest = 3; half = 2 }

abbrev hist : Store
hist = empty_store numbers weights

abbrev hints : List (Text × Queued)
hints = (codes "build", record { count = 2; queued_at = 40 }) ∷ []

-- A limit of 900 for a candidate of 400, beside a busy runner that nothing is known of.
abbrev budget : Budget
budget = record { cpu_limit = 8; memory_limit = some 900 }

abbrev runner : Slot
runner = slot_of 2 busy (some 100)

admitted_fits_example :
    400 + outstanding_sum numbers weights hist (codes "org") (1, 400) (runner ∷ []) ≤ 900
unfolding outstanding predict_mem gate_with_history
admitted_fits_example =
    admitted_fits numbers weights hist (codes "org") (1, 400) budget 900 runner [] refl
      (omega arith) refl
