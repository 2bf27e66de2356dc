-- ===== src/Table/Adopt/Kept.antt =====
-- What Adopt leaves alone.
use tentacles.Base.{
  ◌≡◌, refl, sym, ap, ◌∙◌, Bool, true, false, Option, none, some, List, [], ◌∷◌, Text, arith, ◌==◌,
  ◌<◌, if_cases, Bool-cases, inl, inr, any,
}
use tentacles.Base.Float.{FloatOps}
use tentacles.Slot.{SlotId, Slot, busy, stopping}
use tentacles.UnitName.{parse_id, id_from_unit, unit_name}
use tentacles.Table.{SlotRec, Table, at_id}
use tentacles.Table.Start.{Places, id_free, new_rec}
use tentacles.Table.Start.NextId.{id_free-none}
use tentacles.Table.Lookup.{Holds, clean-Holds, clean-next_ref}
use tentacles.Table.Adopt.{
  DirEntry, Stat, missing, directory, other_file, stat_failed, AdoptEnd, AdoptWorld, track,
  found_slot, adopt_running, wipe_orphan, is_running, adopt_id, adopt_named, and_then,
  adopt_entries, note_stop_unit, scan_stat, scan_unit, scan_units, adopt_listed, adopt,
}

-- A record that is tracked below the next address stays what its ID leads to.
pub record Kept (i : SlotId) (r : SlotRec) (t : Table) : Type 0 where
  pub held : Holds i r t
  pub below : r.ref < t.next_ref

track-Kept :
    (fl : FloatOps) (s : Slot) (i : SlotId) (r : SlotRec) (t : Table)
    → at_id s.id t.slots ≡ none
    → Kept i r t
    → Kept i r (track fl s t)
unfolding track new_rec at_id
track-Kept fl s i r t free k = elim (Bool-cases (s.id == i)) [
  | inl e ↦
      let same : s.id ≡ i = ground arith in
      absurd (cc (sym free ∙ ap (λ j. at_id j t.slots) same ∙ k.held))
  | inr e ↦ record { held = rw e k.held; below = omega (arith, k.below) }
]

pub wipe_orphan-Kept :
    (fl : FloatOps) (places : Places) (w : AdoptWorld) (j i : SlotId) (r : SlotRec) (t : Table)
    → at_id j t.slots ≡ none
    → Kept i r t
    → Kept i r (wipe_orphan fl places w j t)
unfolding wipe_orphan found_slot
wipe_orphan-Kept fl places w j i r t free k =
    let u = track fl (found_slot fl places w t j stopping none) t in
    let k' = track-Kept fl (found_slot fl places w t j stopping none) i r t free k in
    record {
      held = clean-Holds i r (w.worker j) j t.next_ref u (omega (arith, k.below)) k'.held;
      below = rw (clean-next_ref (w.worker j) j t.next_ref u) k'.below;
    }

pub adopt_id-Kept :
    (fl : FloatOps) (places : Places) (w : AdoptWorld) (units : List Text) (j i : SlotId)
    (r : SlotRec) (t : Table)
    → Kept i r t
    → Kept i r (adopt_id fl places w units j t)
unfolding adopt_id adopt_running found_slot
adopt_id-Kept fl places w units j i r t k =
    if_cases (λ u. Kept i r u) (id_free j t.slots) _ _
      (λ e.
        let free = id_free-none j t.slots e in
        if_cases (λ u. Kept i r u) (is_running units (unit_name t.namespace j)) _ _
          (λ _.
            track-Kept fl (found_slot fl places w t j busy (some (w.adopted_at j))) i r t free k)
          (λ _. wipe_orphan-Kept fl places w j i r t free k))
      (λ _. k)

pub adopt_named-Kept :
    (fl : FloatOps) (places : Places) (w : AdoptWorld) (units : List Text) (is_dir : Bool)
    (o : Option SlotId) (i : SlotId) (r : SlotRec) (t : Table)
    → Kept i r t
    → Kept i r (adopt_named fl places w units is_dir o t).0
unfolding adopt_named
adopt_named-Kept fl places w units false none i r t k = k
adopt_named-Kept fl places w units true none i r t k = k
adopt_named-Kept fl places w units false (some j) i r t k = k
adopt_named-Kept fl places w units true (some j) i r t k = adopt_id-Kept fl places w units j i r t k

-- What both parts of a sequence keep.
pub and_then_cases {ℓ} :
    (P : Table → Type ℓ) (done : Table × Option AdoptEnd) (rest : Table → Table × Option AdoptEnd)
    → P done.0
    → (done.1 ≡ none → P (rest done.0).0)
    → P (and_then done rest).0
and_then_cases P (t, none) rest h k = k refl
and_then_cases P (t, some e) rest h k = h

pub adopt_entries-Kept :
    (fl : FloatOps) (places : Places) (w : AdoptWorld) (units : List Text) (es : List DirEntry)
    (i : SlotId) (r : SlotRec) (t : Table)
    → Kept i r t
    → Kept i r (adopt_entries fl places w units es t).0
unfolding adopt_entries
adopt_entries-Kept fl places w units [] i r t k = k
adopt_entries-Kept fl places w units (e ∷ es) i r t k =
    if_cases (λ (u : Table × Option AdoptEnd). Kept i r u.0) (w.entry_expired e.name) _ _ (λ _. k)
      (λ _.
        let k' = adopt_named-Kept fl places w units e.is_dir (parse_id e.name) i r t k in
        and_then_cases (Kept i r) (adopt_named fl places w units e.is_dir (parse_id e.name) t) _ k'
          (λ _. adopt_entries-Kept fl places w units es i r _ k'))

scan_stat-Kept :
    (w : AdoptWorld) (j : SlotId) (st : Stat) (i : SlotId) (r : SlotRec) (t : Table)
    → Kept i r t
    → Kept i r (scan_stat w j st t).0
unfolding scan_stat note_stop_unit
scan_stat-Kept w j missing i r t k = record { held = k.held; below = k.below }
scan_stat-Kept w j directory i r t k = k
scan_stat-Kept w j other_file i r t k = k
scan_stat-Kept w j stat_failed i r t k = k

scan_unit-Kept :
    (w : AdoptWorld) (o : Option SlotId) (i : SlotId) (r : SlotRec) (t : Table)
    → Kept i r t
    → Kept i r (scan_unit w o t).0
unfolding scan_unit
scan_unit-Kept w none i r t k = k
scan_unit-Kept w (some j) i r t k =
    if_cases (λ (u : Table × Option AdoptEnd). Kept i r u.0) (id_free j t.slots) _ _
      (λ _. scan_stat-Kept w j (w.stat j) i r t k) (λ _. k)

scan_units-Kept :
    (w : AdoptWorld) (us : List Text) (i : SlotId) (r : SlotRec) (t : Table)
    → Kept i r t
    → Kept i r (scan_units w us t).0
unfolding scan_units
scan_units-Kept w [] i r t k = k
scan_units-Kept w (u ∷ us) i r t k =
    if_cases (λ (u : Table × Option AdoptEnd). Kept i r u.0) (w.scan_expired u) _ _ (λ _. k)
      (λ _.
        let k' = scan_unit-Kept w (id_from_unit t.namespace u) i r t k in
        and_then_cases (Kept i r) (scan_unit w (id_from_unit t.namespace u) t) _ k'
          (λ _. scan_units-Kept w us i r _ k'))

adopt_listed-Kept :
    (fl : FloatOps) (places : Places) (w : AdoptWorld) (units : List Text)
    (o : Option (List DirEntry)) (i : SlotId) (r : SlotRec) (t : Table)
    → Kept i r t
    → Kept i r (adopt_listed fl places w units o t).0
unfolding adopt_listed
adopt_listed-Kept fl places w units none i r t k = k
adopt_listed-Kept fl places w units (some es) i r t k =
    let k' = adopt_entries-Kept fl places w units es i r t k in
    and_then_cases (Kept i r) (adopt_entries fl places w units es t) _ k' (λ _.
      let u = (adopt_entries fl places w units es t).0 in
      let k'' = scan_units-Kept w units i r u k' in
      and_then_cases (Kept i r) (scan_units w units u) _ k'' (λ _. k''))

-- In a table whose addresses lie below the next one, Adopt leaves every slot that is already tracked
-- as it is, whatever the directories, the units and the outside calls are.
pub adopt_keeps_tracked :
    (fl : FloatOps) (places : Places) (w : AdoptWorld) (units : List Text) (t : Table) (i : SlotId)
    (r : SlotRec)
    → at_id i t.slots ≡ some r
    → r.ref < t.next_ref
    → at_id i (adopt fl places w units t).0.slots ≡ some r
unfolding adopt
adopt_keeps_tracked fl places w units t i r held below =
    let k : Kept i r t = record { held = held; below = below } in
    (if_cases (λ (u : Table × Option AdoptEnd). Kept i r u.0) t.is_closed _ _ (λ _. k)
      (λ _.
        if_cases (λ (u : Table × Option AdoptEnd). Kept i r u.0) (any w.unit_expired units) _ _
          (λ _. k) (λ _. adopt_listed-Kept fl places w units w.entries i r t k))).held
