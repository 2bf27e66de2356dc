-- ===== src/Table/Surplus/Oldest.antt =====
-- Which of the eligible slots are stopped.
use tentacles.Base.{
  ℕ, ◌-◌, ◌≡◌, Bool, true, false, List, arith, All, keep, drop, sort_by, sort_by-IsSortedBy,
  take-drop_sorted,
}
use tentacles.Table.{SlotRec, Table, count_live}
use tentacles.Table.Surplus.{eligible, older, chosen}

older_asym : (a b : SlotRec) → older a b ≡ true → older b a ≡ false
unfolding older
older_asym a b h = ground arith

older_trans : (a b c : SlotRec) → older b a ≡ false → older c b ≡ false → older c a ≡ false
unfolding older
older_trans a b c h k = ground arith

-- The eligible slots that are left when the surplus has been chosen.
abbrev pub left_over : Bool → ℕ → ℕ → Table → List SlotRec
left_over ignore_grace now target t =
    drop (count_live t.slots - target) (sort_by older (keep (eligible ignore_grace now t) t.slots))

-- No eligible slot that stopSurplusContext leaves running is older, by start time and then by ID, than
-- one that it stops.
pub chosen_oldest :
    (ignore_grace : Bool) (now target : ℕ) (t : Table)
    → All
        (λ c. All (λ d. older d c ≡ false) (left_over ignore_grace now target t))
        (chosen ignore_grace now target t)
unfolding chosen
chosen_oldest ignore_grace now target t =
    take-drop_sorted older (count_live t.slots - target) _
      (sort_by-IsSortedBy older older_asym older_trans (keep (eligible ignore_grace now t) t.slots))
