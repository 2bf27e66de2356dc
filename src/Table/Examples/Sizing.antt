-- ===== src/Table/Examples/Sizing.antt =====
-- The sizing of a table at concrete inputs.
use tentacles.Base.{◌≤◌, ◌≡◌, refl, true, false, some, arith, max}
use tentacles.Slot.{idle, busy}
use tentacles.Table.{at_ref, count_live}
use tentacles.Table.Clean.{pending}
use tentacles.Table.Surplus.{stop_surplus}
use tentacles.Table.Surplus.Spared.{busy_survives, fresh_idle_survives}
use tentacles.Table.Ensure.{ensure}
use tentacles.Table.Ensure.Total.{ensure_ceiling}
use tentacles.Table.Ensure.Settled.{ensure_settled}
use tentacles.Table.Ensure.Converge.{ensure_converges}
use tentacles.Table.Examples.{
  numbers, rec_of, two_slots, two_slots-Inv, places, good_start-Succeeds, stops_all, world,
}

-- Two more slots are started.
ensure_converges_example : count_live (ensure numbers places world 4 two_slots).0.slots ≡ 4
unfolding count_live pending
ensure_converges_example =
    (ensure_converges numbers places world 4 two_slots refl (λ j. refl) refl
      (λ j. good_start-Succeeds) refl refl (omega arith) (omega arith)).0

busy_survives_example :
    at_ref 1 (stop_surplus numbers stops_all true 500 0 two_slots).slots ≡ some (rec_of 2 1 busy)
busy_survives_example =
    busy_survives numbers stops_all true 500 0 two_slots 1 (rec_of 2 1 busy) two_slots-Inv
      (unfold at_ref in refl) refl

-- At time 120 the idle slot has been idle for 20, which is within its grace.
fresh_idle_survives_example :
    at_ref 0 (stop_surplus numbers stops_all false 120 0 two_slots).slots ≡ some (rec_of 1 0 idle)
fresh_idle_survives_example =
    fresh_idle_survives numbers stops_all 120 0 100 two_slots 0 (rec_of 1 0 idle) two_slots-Inv
      (unfold at_ref in refl) refl refl (omega arith) (omega arith)

ensure_settled_example : (ensure numbers places world 2 two_slots).0 ≡ two_slots
unfolding count_live pending
ensure_settled_example = ensure_settled numbers places world 2 two_slots refl refl

ensure_ceiling_example :
    count_live (ensure numbers places world 4 two_slots).0.slots
    ≤ max (count_live two_slots.slots) 4
ensure_ceiling_example = ensure_ceiling numbers places world 4 two_slots two_slots-Inv
