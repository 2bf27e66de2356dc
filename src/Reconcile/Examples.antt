-- ===== src/Reconcile/Examples.antt =====
-- The capacity window at concrete inputs.
use tentacles.Base.{◌≤◌, max}
use tentacles.Table.{count_live}
use tentacles.Table.Examples.{numbers, places, world, two_slots, two_slots-Inv}
use tentacles.Reconcile.{Reconciler, reconcile}
use tentacles.Reconcile.Window.{reconcile_ceiling}

abbrev one_to_four : Reconciler
one_to_four = record { min_runners = 1; max_runners = 4 }

reconcile_ceiling_example :
    count_live (reconcile numbers places world one_to_four 9 two_slots).0.slots
    ≤ max (count_live two_slots.slots) 4
reconcile_ceiling_example =
    reconcile_ceiling numbers places world one_to_four 9 two_slots two_slots-Inv
