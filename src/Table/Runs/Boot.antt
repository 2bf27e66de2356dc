-- ===== src/Table/Runs/Boot.antt =====
-- Adopt as a run of sections.
use tentacles.Base.{
  ◌≡◌, ◌≤◌, refl, Bool, true, false, Option, none, some, List, [], ◌∷◌, Text, if_cases, any,
}
use tentacles.Base.Float.{FloatOps}
use tentacles.Slot.{SlotId, busy, stopping}
use tentacles.UnitName.{max_slot_id, parse_id, id_from_unit, unit_name}
use tentacles.UnitName.RoundTrip.{parse_id_bounds}
use tentacles.Table.{Table, at_id}
use tentacles.Table.Start.{Places, id_free, new_rec}
use tentacles.Table.Start.NextId.{id_free-none}
use tentacles.Table.Adopt.{
  DirEntry, Stat, missing, directory, other_file, stat_failed, AdoptEnd, AdoptWorld, track,
  found_slot, adopt_running, wipe_orphan, is_running, adopt_id, adopt_named, adopt_entries,
  note_stop_unit, scan_stat, scan_unit, scan_units, adopt_listed, adopt,
}
use tentacles.Table.Adopt.Kept.{and_then_cases}
use tentacles.Table.Invariant.{Inv}
use tentacles.Table.Invariant.Preserved.{Reach-Inv, FreshRef-of_IsSound}
use tentacles.Table.Steps.{tracks, tells, Reach, here, Reach-trans, Reach-Step}
use tentacles.Table.Runs.{At-of_FreshRef}
use tentacles.Table.Runs.Release.{clean-Reach}

wipe_orphan-Reach :
    (fl : FloatOps) (places : Places) (w : AdoptWorld) (i : SlotId) (t : Table)
    → at_id i t.slots ≡ none
    → 1 ≤ i
    → i ≤ max_slot_id
    → Inv t
    → Reach t (wipe_orphan fl places w i t)
unfolding wipe_orphan found_slot
wipe_orphan-Reach fl places w i t free low high v =
    Reach-trans (Reach-Step (tracks fl (found_slot fl places w t i stopping none) free low high)) (
      clean-Reach (w.worker i) i t.next_ref _ (
        unfold track new_rec in
        (
          (λ _. refl),
          At-of_FreshRef (λ r. r.state ≡ stopping) t.next_ref t.slots
              (FreshRef-of_IsSound t.next_ref t.slots v.sound),
        )))

adopt_id-Reach :
    (fl : FloatOps) (places : Places) (w : AdoptWorld) (units : List Text) (i : SlotId) (t : Table)
    → 1 ≤ i
    → i ≤ max_slot_id
    → Inv t
    → Reach t (adopt_id fl places w units i t)
unfolding adopt_id adopt_running found_slot
adopt_id-Reach fl places w units i t low high v =
    if_cases (λ u. Reach t u) (id_free i t.slots) _ _
      (λ e.
        let free = id_free-none i t.slots e in
        if_cases (λ u. Reach t u) (is_running units (unit_name t.namespace i)) _ _
          (λ _.
            Reach-Step
              (tracks fl (found_slot fl places w t i busy (some (w.adopted_at i))) free low high))
          (λ _. wipe_orphan-Reach fl places w i t free low high v))
      (λ _. here)

adopt_named-Reach :
    (fl : FloatOps) (places : Places) (w : AdoptWorld) (units : List Text) (is_dir : Bool)
    (name : Text) (t : Table)
    → Inv t
    → Reach t (adopt_named fl places w units is_dir (parse_id name) t).0
adopt_named-Reach fl places w units is_dir name t v = read (parse_id name) is_dir refl
  where
    read :
        (o : Option SlotId) (d : Bool)
        → parse_id name ≡ o
        → Reach t (adopt_named fl places w units d o t).0
    read none d e = unfold adopt_named in here
    read (some i) false e = unfold adopt_named in here
    read (some i) true e =
        let bounds = parse_id_bounds name i e in
        unfold adopt_named in adopt_id-Reach fl places w units i t bounds.0 bounds.1 v

adopt_entries-Reach :
    (fl : FloatOps) (places : Places) (w : AdoptWorld) (units : List Text) (es : List DirEntry)
    (t : Table)
    → Inv t
    → Reach t (adopt_entries fl places w units es t).0
unfolding adopt_entries
adopt_entries-Reach fl places w units [] t v = here
adopt_entries-Reach fl places w units (e ∷ es) t v =
    let done = adopt_named fl places w units e.is_dir (parse_id e.name) t in
    let first = adopt_named-Reach fl places w units e.is_dir e.name t v in
    if_cases (λ (u : Table × Option AdoptEnd). Reach t u.0) (w.entry_expired e.name) _ _ (λ _. here)
      (λ _.
        and_then_cases (λ u. Reach t u) done _ first
          (λ _.
            Reach-trans first
              (adopt_entries-Reach fl places w units es done.0 (Reach-Inv first v))))

scan_stat-Reach :
    (w : AdoptWorld) (i : SlotId) (st : Stat) (t : Table) → Reach t (scan_stat w i st t).0
unfolding scan_stat note_stop_unit
scan_stat-Reach w i missing t = Reach-Step (tells _)
scan_stat-Reach w i directory t = here
scan_stat-Reach w i other_file t = here
scan_stat-Reach w i stat_failed t = here

scan_unit-Reach : (w : AdoptWorld) (o : Option SlotId) (t : Table) → Reach t (scan_unit w o t).0
unfolding scan_unit
scan_unit-Reach w none t = here
scan_unit-Reach w (some i) t =
    if_cases (λ (u : Table × Option AdoptEnd). Reach t u.0) (id_free i t.slots) _ _
      (λ _. scan_stat-Reach w i (w.stat i) t) (λ _. here)

scan_units-Reach : (w : AdoptWorld) (us : List Text) (t : Table) → Reach t (scan_units w us t).0
unfolding scan_units
scan_units-Reach w [] t = here
scan_units-Reach w (u ∷ us) t =
    let done = scan_unit w (id_from_unit t.namespace u) t in
    let first = scan_unit-Reach w (id_from_unit t.namespace u) t in
    if_cases (λ (u : Table × Option AdoptEnd). Reach t u.0) (w.scan_expired u) _ _ (λ _. here)
      (λ _.
        and_then_cases (λ u. Reach t u) done _ first
          (λ _. Reach-trans first (scan_units-Reach w us done.0)))

adopt_listed-Reach :
    (fl : FloatOps) (places : Places) (w : AdoptWorld) (units : List Text)
    (o : Option (List DirEntry)) (t : Table)
    → Inv t
    → Reach t (adopt_listed fl places w units o t).0
unfolding adopt_listed
adopt_listed-Reach fl places w units none t v = here
adopt_listed-Reach fl places w units (some es) t v =
    let listed = adopt_entries fl places w units es t in
    let first = adopt_entries-Reach fl places w units es t v in
    and_then_cases (λ u. Reach t u) listed _ first
      (λ _.
        let second = Reach-trans first (scan_units-Reach w units listed.0) in
        and_then_cases (λ u. Reach t u) (scan_units w units listed.0) _ second (λ _. second))

-- From a table in which the invariant holds, Adopt is a run of the table's guarded sections, whatever
-- the outside calls answer.
pub adopt-Reach :
    (fl : FloatOps) (places : Places) (w : AdoptWorld) (units : List Text) (t : Table)
    → Inv t
    → Reach t (adopt fl places w units t).0
unfolding adopt
adopt-Reach fl places w units t v =
    if_cases (λ (u : Table × Option AdoptEnd). Reach t u.0) t.is_closed _ _ (λ _. here)
      (λ _.
        if_cases (λ (u : Table × Option AdoptEnd). Reach t u.0) (any w.unit_expired units) _ _
          (λ _. here) (λ _. adopt_listed-Reach fl places w units w.entries t v))
