-- ===== src/Table/Adopt/Running.antt =====
-- What Adopt makes of a running unit that has a slot directory.
use tentacles.Base.{
  ℕ, ◌≡◌, ◌≢◌, refl, sym, Bool, true, false, Option, none, some, List, [], ◌∷◌, Text, arith, ◌⊎◌,
  if_cases, inl, inr, ◌++◌, subst,
}
use native.Mathlib.Decide.{ℕ_discrete as dec_eq}
use tentacles.Base.Float.{FloatOps}
use tentacles.Slot.{SlotId, Slot, busy, stopping}
use tentacles.UnitName.{parse_id, unit_name}
use tentacles.Table.{SlotRec, Table, at_id}
use tentacles.Table.Clean.{clean, mark_cleaning, unmark}
use tentacles.Table.Start.{Places, id_free, new_rec}
use tentacles.Table.Laws.{at_id-none, at_id_fresh}
use tentacles.Table.Lookup.{clean-field}
use tentacles.Table.Runs.Release.{clean-All}
use tentacles.Table.Adopt.{
  DirEntry, AdoptEnd, AdoptWorld, track, found_slot, adopt_running, wipe_orphan, is_running,
  adopt_id, adopt_named, and_then, adopt_entries,
}
use tentacles.Table.Adopt.Kept.{Kept, adopt_id-Kept, adopt_entries-Kept}

-- `i` leads to a busy slot.
abbrev pub BusyAt : SlotId → Table → Type 0
BusyAt i t = (r : SlotRec) × Kept i r t × (r.state ≡ busy)

-- A slot of a pool that is not tracked, or is busy.
abbrev Ready : Text → SlotId → Table → Type 0
Ready namespace i t = (t.namespace ≡ namespace) × ((at_id i t.slots ≡ none) ⊎ BusyAt i t)

track-busy : (fl : FloatOps) (s : Slot) (t : Table) → s.state ≡ busy → BusyAt s.id (track fl s t)
unfolding track new_rec at_id
track-busy fl s t b =
    (new_rec fl s t.next_ref none, record { held = ground arith; below = omega arith }, b)

track-none :
    (fl : FloatOps) (s : Slot) (i : SlotId) (t : Table)
    → s.id ≢ i
    → at_id i t.slots ≡ none
    → at_id i (track fl s t).slots ≡ none
unfolding track new_rec at_id
track-none fl s i t ne e = ground arith

clean-none :
    (w : AdoptWorld) (j p i : ℕ) (t : Table)
    → at_id i t.slots ≡ none
    → at_id i (clean (w.worker j) j p t).slots ≡ none
clean-none w j p i t e = at_id_fresh i _ (
    clean-All (λ r. r.id ≢ i) (λ r h. unfold mark_cleaning in h) (λ r h. unfold unmark in h)
      (w.worker j) j p t (at_id-none i t.slots e))

adopt_id-namespace :
    (fl : FloatOps) (places : Places) (w : AdoptWorld) (units : List Text) (j : SlotId) (t : Table)
    → (adopt_id fl places w units j t).namespace ≡ t.namespace
unfolding adopt_id adopt_running wipe_orphan track
adopt_id-namespace fl places w units j t =
    if_cases (λ (u : Table). u.namespace ≡ t.namespace) (id_free j t.slots) _ _
      (λ _.
        if_cases (λ (u : Table). u.namespace ≡ t.namespace)
          (is_running units (unit_name t.namespace j)) _ _ (λ _. refl)
          (λ _. clean-field (λ u. u.namespace) (λ u rs. refl) (λ u es. refl) _ j t.next_ref _))
      (λ _. refl)

-- Another ID's directory does not make the slot tracked.
adopt_id-none :
    (fl : FloatOps) (places : Places) (w : AdoptWorld) (units : List Text) (j i : SlotId)
    (t : Table)
    → j ≢ i
    → at_id i t.slots ≡ none
    → at_id i (adopt_id fl places w units j t).slots ≡ none
unfolding adopt_id adopt_running wipe_orphan found_slot
adopt_id-none fl places w units j i t ne e =
    if_cases (λ (u : Table). at_id i u.slots ≡ none) (id_free j t.slots) _ _
      (λ _.
        if_cases (λ (u : Table). at_id i u.slots ≡ none)
          (is_running units (unit_name t.namespace j)) _ _
          (λ _. track-none fl (found_slot fl places w t j busy (some (w.adopted_at j))) i t ne e)
          (λ _.
            clean-none w j t.next_ref i _
              (track-none fl (found_slot fl places w t j stopping none) i t ne e)))
      (λ _. e)

id_free_of_none : (i : SlotId) (t : Table) → at_id i t.slots ≡ none → id_free i t.slots ≡ true
unfolding id_free
id_free_of_none i t e = rw (e, id_free)

-- A running unit's own directory makes it busy.
adopt_id-own :
    (fl : FloatOps) (places : Places) (w : AdoptWorld) (units : List Text) (i : SlotId) (t : Table)
    → is_running units (unit_name t.namespace i) ≡ true
    → Ready t.namespace i t
    → BusyAt i (adopt_id fl places w units i t)
unfolding adopt_id adopt_running found_slot
adopt_id-own fl places w units i t runs (_, inr (r, k, b)) =
    (r, adopt_id-Kept fl places w units i i r t k, b)
adopt_id-own fl places w units i t runs (_, inl e) =
    rw (id_free_of_none i t e, runs)
      (track-busy fl (found_slot fl places w t i busy (some (w.adopted_at i))) t refl)

adopt_id-Ready :
    (fl : FloatOps) (places : Places) (w : AdoptWorld) (units : List Text) (j i : SlotId)
    (t : Table)
    → is_running units (unit_name t.namespace i) ≡ true
    → Ready t.namespace i t
    → Ready t.namespace i (adopt_id fl places w units j t)
adopt_id-Ready fl places w units j i t runs (same, inr (r, k, b)) = (
  adopt_id-namespace fl places w units j t,
  inr (r, adopt_id-Kept fl places w units j i r t k, b),
)
adopt_id-Ready fl places w units j i t runs (same, inl e) = elim (dec_eq j i) [
  | yes q ↦ (
    adopt_id-namespace fl places w units j t,
    inr (
        subst (λ k. BusyAt i (adopt_id fl places w units k t)) (sym q)
          (adopt_id-own fl places w units i t runs (same, inl e))),
  )
  | no q ↦
      (adopt_id-namespace fl places w units j t, inl (adopt_id-none fl places w units j i t q e))
]

adopt_named-Ready :
    (fl : FloatOps) (places : Places) (w : AdoptWorld) (units : List Text) (is_dir : Bool)
    (o : Option SlotId) (i : SlotId) (t : Table)
    → is_running units (unit_name t.namespace i) ≡ true
    → Ready t.namespace i t
    → Ready t.namespace i (adopt_named fl places w units is_dir o t).0
unfolding adopt_named
adopt_named-Ready fl places w units false none i t runs k = k
adopt_named-Ready fl places w units true none i t runs k = k
adopt_named-Ready fl places w units false (some j) i t runs k = k
adopt_named-Ready fl places w units true (some j) i t runs k =
    adopt_id-Ready fl places w units j i t runs k

and_then-none :
    (done : Table × Option AdoptEnd) (rest : Table → Table × Option AdoptEnd)
    → (and_then done rest).1 ≡ none
    → ((rest done.0).1 ≡ none) × (and_then done rest ≡ rest done.0)
and_then-none (t, none) rest h = (h, refl)
and_then-none (t, some e) rest h = absurd (cc h)

-- A round of the loop that does not end it.
entries_step :
    (fl : FloatOps) (places : Places) (w : AdoptWorld) (units : List Text) (e : DirEntry)
    (es : List DirEntry) (t : Table)
    → (adopt_entries fl places w units (e ∷ es) t).1 ≡ none
    → let u = (adopt_named fl places w units e.is_dir (parse_id e.name) t).0 in
      ((adopt_entries fl places w units es u).1 ≡ none)
      × (adopt_entries fl places w units (e ∷ es) t ≡ adopt_entries fl places w units es u)
unfolding adopt_entries
entries_step fl places w units e es t =
    let done = adopt_named fl places w units e.is_dir (parse_id e.name) t in
    if_cases
      (λ (r : Table × Option AdoptEnd).
        r.1 ≡ none
        → ((adopt_entries fl places w units es done.0).1 ≡ none)
          × (r ≡ adopt_entries fl places w units es done.0))
      (w.entry_expired e.name) _ _ (λ _ h. absurd (cc h))
      (λ _. and_then-none done (adopt_entries fl places w units es))

adopt_named-own :
    (fl : FloatOps) (places : Places) (w : AdoptWorld) (units : List Text) (e : DirEntry)
    (i : SlotId) (t : Table)
    → e.is_dir ≡ true
    → parse_id e.name ≡ some i
    → is_running units (unit_name t.namespace i) ≡ true
    → (at_id i t.slots ≡ none) ⊎ BusyAt i t
    → BusyAt i (adopt_named fl places w units e.is_dir (parse_id e.name) t).0
adopt_named-own fl places w units e i t d p runs k =
    rw (d, p) (unfold adopt_named in adopt_id-own fl places w units i t runs (refl, k))

adopt_named-namespace :
    (fl : FloatOps) (places : Places) (w : AdoptWorld) (units : List Text) (is_dir : Bool)
    (o : Option SlotId) (t : Table)
    → (adopt_named fl places w units is_dir o t).0.namespace ≡ t.namespace
unfolding adopt_named
adopt_named-namespace fl places w units false none t = refl
adopt_named-namespace fl places w units true none t = refl
adopt_named-namespace fl places w units false (some j) t = refl
adopt_named-namespace fl places w units true (some j) t = adopt_id-namespace fl places w units j t

-- If the loop over the directories ends without an error, a directory among them that is named for a
-- slot whose unit runs, and which was busy or not tracked before, is tracked as a busy slot.
pub adopts_running :
    (fl : FloatOps) (places : Places) (w : AdoptWorld) (units : List Text) (xs ys : List DirEntry)
    (e : DirEntry) (i : SlotId) (t : Table)
    → (adopt_entries fl places w units (xs ++ (e ∷ ys)) t).1 ≡ none
    → e.is_dir ≡ true
    → parse_id e.name ≡ some i
    → is_running units (unit_name t.namespace i) ≡ true
    → (at_id i t.slots ≡ none) ⊎ BusyAt i t
    → BusyAt i (adopt_entries fl places w units (xs ++ (e ∷ ys)) t).0
adopts_running fl places w units [] ys e i t h d p runs k =
    let (more, step) = entries_step fl places w units e ys t h in
    let (r, kept, b) = adopt_named-own fl places w units e i t d p runs k in
    subst (λ (done : Table × Option AdoptEnd). BusyAt i done.0) (sym step)
      (r, adopt_entries-Kept fl places w units ys i r _ kept, b)
adopts_running fl places w units (x ∷ xs) ys e i t h d p runs k =
    let (more, step) = entries_step fl places w units x (xs ++ (e ∷ ys)) t h in
    let same = adopt_named-namespace fl places w units x.is_dir (parse_id x.name) t in
    let ready = adopt_named-Ready fl places w units x.is_dir (parse_id x.name) i t runs (refl, k) in
    subst (λ (done : Table × Option AdoptEnd). BusyAt i done.0) (sym step)
      (adopts_running fl places w units xs ys e i _ more d p (rw same runs) ready.1)
