-- ===== src/Table/Examples/Lifecycle.antt =====
-- The course of a slot at concrete inputs.
use tentacles.Base.{◌≡◌, refl, true, none, some, List, [], ◌∷◌, codes}
use tentacles.Slot.{idle, busy, stopping}
use tentacles.Table.{SlotRec, Table, at_id, set_state, update, set_desired}
use tentacles.Table.Claim.{claim, claim_rec}
use tentacles.Table.Clean.{ended, still_running}
use tentacles.Table.Invariant.{Inv}
use tentacles.Table.Invariant.Preserved.{Reach-Inv}
use tentacles.Table.Exit.{observe_exit, takes_exit}
use tentacles.Table.Exit.Once.{observe_exit_once}
use tentacles.Table.Claim.Lost.{lost_claim}
use tentacles.Table.Ensure.{ensure, shutdown}
use tentacles.Table.Runs.Ensure.{ensure-Reach, shutdown-Reach}
use tentacles.Table.Steps.{Reach, here, next, claims, sets_desired}
use tentacles.Table.Examples.{
  numbers, rec_of, slot_of, two_slots, two_slots-Inv, places, job, good_wipe, world,
}

Reach-Inv_example : Inv (set_desired 5 (claim job 120 two_slots).0)
Reach-Inv_example = Reach-Inv (next (next here (claims job 120)) (sets_desired 5)) two_slots-Inv

ensure-Reach_example : Reach two_slots (ensure numbers places world 1 two_slots).0
ensure-Reach_example = ensure-Reach numbers places world 1 two_slots two_slots-Inv

shutdown-Reach_example : Reach two_slots (shutdown numbers world two_slots).0
shutdown-Reach_example = shutdown-Reach numbers world two_slots two_slots-Inv

-- A slot with the name of the job's runner and one with another, met in the other order the second time.
abbrev other_rec : SlotRec
other_rec = record (rec_of 2 1 busy) {
  slot = record (slot_of 2 busy (some 100)) { runner_name = codes "r-2" };
}

abbrev two_names : Table
two_names = record two_slots { slots = rec_of 1 0 idle ∷ other_rec ∷ [] }

abbrev met_again : List SlotRec
met_again = other_rec ∷ claim_rec job 120 (rec_of 1 0 idle) ∷ []

observe_exit_once_example :
    observe_exit numbers 2 none 320 still_running
      (observe_exit numbers 2 none 310 (ended good_wipe) two_slots)
    ≡ observe_exit numbers 2 none 310 (ended good_wipe) two_slots
observe_exit_once_example =
    observe_exit_once numbers 2 none none 310 320 (ended good_wipe) still_running two_slots
      (rec_of 2 1 busy) two_slots-Inv (unfold at_id in refl) (unfold takes_exit in refl)

lost_claim_example : (claim job 120 (update 0 (set_state stopping) two_slots)).1 ≡ true
lost_claim_example =
    (lost_claim two_slots job 120 (rec_of 1 0 idle) (rec_of 2 1 busy ∷ []) refl refl refl refl
      refl).0
