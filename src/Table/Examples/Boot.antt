-- ===== src/Table/Examples/Boot.antt =====
-- Adopt and the watchers at concrete inputs.
use tentacles.Base.{◌≡◌, refl, inl, true, false, some, List, [], ◌∷◌, Text, codes, arith, text_eq}
use tentacles.Slot.{busy}
use tentacles.Table.{at_id}
use tentacles.Table.Clean.{still_running}
use tentacles.Table.Steps.{Reach}
use tentacles.Table.Examples.{numbers, rec_of, two_slots, two_slots-Inv, places}
use tentacles.Table.Adopt.{DirEntry, AdoptWorld, missing, adopt_entries, adopt}
use tentacles.Table.Adopt.Running.{BusyAt, adopts_running}
use tentacles.Table.Adopt.Kept.{adopt_keeps_tracked}
use tentacles.Table.Runs.Boot.{adopt-Reach}
use tentacles.UnitName.{unit_name, parse_id}

abbrev pub slot_three : DirEntry
slot_three = record { name = codes "0003"; is_dir = true }

abbrev pub boot : AdoptWorld
boot = record {
  unit_expired = λ u. false;
  entries = some (record { name = codes "lost+found"; is_dir = true } ∷ slot_three ∷ []);
  entry_expired = λ n. false;
  runner_name = λ i. codes "runner";
  adopted_at = λ i. 400;
  worker = λ i. still_running;
  scan_expired = λ u. false;
  stat = λ i. missing;
  stops = λ i. true;
  expired_at_end = false;
}

abbrev pub units : List Text
units = codes "tentacle-org-0003.service" ∷ []

adopts_running_example :
    BusyAt 3
      (adopt_entries numbers places boot units
        (record { name = codes "lost+found"; is_dir = true } ∷ slot_three ∷ [])
        two_slots).0
unfolding adopt_entries parse_id text_eq unit_name at_id
adopts_running_example =
    adopts_running numbers places boot units
      (record { name = codes "lost+found"; is_dir = true } ∷ []) [] slot_three 3 two_slots refl refl
      refl refl (inl refl)

adopt_keeps_tracked_example :
    at_id 2 (adopt numbers places boot units two_slots).0.slots ≡ some (rec_of 2 1 busy)
adopt_keeps_tracked_example =
    adopt_keeps_tracked numbers places boot units two_slots 2 (rec_of 2 1 busy)
      (unfold at_id in refl) (omega arith)

adopt-Reach_example : Reach two_slots (adopt numbers places boot units two_slots).0
adopt-Reach_example = adopt-Reach numbers places boot units two_slots two_slots-Inv
