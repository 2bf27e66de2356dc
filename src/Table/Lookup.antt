-- ===== src/Table/Lookup.antt =====
-- Lookups by ID past changes of other records.
use tentacles.Base.{
  ℕ, ◌≡◌, ◌≢◌, refl, ◌∙◌, ◌&&◌, not, Option, none, some, List, [], ◌∷◌, arith, ◌==◌, if_cases,
}
use tentacles.Slot.{SlotId, Slot, Event}
use tentacles.Table.{SlotRec, Table, Effect, at_id, modify, remove, update, emit}
use tentacles.Table.Laws.{KeepsIdentity}
use tentacles.Table.Clean.{
  Worker, ended, still_running, wipe, mark_cleaning, begin_clean, unmark, emit_event, end_clean,
  run_worker, clean_current, clean,
}

-- The record that an ID leads to is not changed through another pointer.
pub at_id-modify_ne :
    (i : SlotId) (p : ℕ) (f : SlotRec → SlotRec) (rs : List SlotRec) (r : SlotRec)
    → KeepsIdentity f
    → at_id i rs ≡ some r
    → r.ref ≢ p
    → at_id i (modify p f rs) ≡ some r
unfolding modify at_id
at_id-modify_ne i p f [] r k e ne = cc
at_id-modify_ne i p f (x ∷ rs) r k e ne = ground (arith, k x, at_id-modify_ne i p f rs r k)

pub at_id-remove_ne :
    (i : SlotId) (p : ℕ) (rs : List SlotRec) (r : SlotRec)
    → at_id i rs ≡ some r
    → r.ref ≢ p
    → at_id i (remove p rs) ≡ some r
unfolding remove at_id
at_id-remove_ne i p [] r e ne = cc
at_id-remove_ne i p (x ∷ rs) r e ne = ground (arith, at_id-remove_ne i p rs r)

-- `i` leads to `r`.
abbrev pub Holds : SlotId → SlotRec → Table → Type 0
Holds i r t = at_id i t.slots ≡ some r

emit_event-Holds :
    (i : SlotId) (r : SlotRec) (e : Option Event) (s : Slot) (t : Table)
    → Holds i r t
    → Holds i r (emit_event e s t)
unfolding emit_event emit
emit_event-Holds i r none s t h = h
emit_event-Holds i r (some e) s t h = h

run_worker-Holds :
    (i : SlotId) (r : SlotRec) (w : Worker) (x : SlotRec) (t : Table)
    → r.ref ≢ x.ref
    → Holds i r t
    → Holds i r (run_worker w x t)
unfolding run_worker end_clean update
run_worker-Holds i r still_running x t ne h = h
run_worker-Holds i r (ended w) x t ne h =
    if_cases (λ u. Holds i r u) (wipe w) _ _
      (λ _. emit_event-Holds i r x.exit_event x.slot _ (at_id-remove_ne i x.ref t.slots r h ne))
      (λ _. at_id-modify_ne i x.ref unmark t.slots r (λ y. unfold unmark in (refl, refl)) h ne)

-- The cleanup of one record leaves the others as they are.
pub clean-Holds :
    (i : SlotId) (r : SlotRec) (w : Worker) (j : SlotId) (p : ℕ) (t : Table)
    → r.ref ≢ p
    → Holds i r t
    → Holds i r (clean w j p t)
unfolding clean
clean-Holds i r w j p t ne h = current (at_id j t.slots)
  where
    current : (o : Option SlotRec) → Holds i r (clean_current w p o t)
    current none = unfold clean_current in h
    current (some x) =
        unfold clean_current begin_clean update in
        if_cases (λ u. Holds i r u) (x.ref == p && not x.cleaning) _ _
          (λ e.
            run_worker-Holds i r w x _ (λ same. ne (same ∙ ground arith))
              (at_id-modify_ne i p mark_cleaning t.slots r
                (λ y. unfold mark_cleaning in (refl, refl)) h ne))
          (λ _. h)

-- A field that neither a change of the slots nor a call of a hook concerns.
module _ {A : Type 0} (f : Table → A)
    (by_slots : (t : Table) (rs : List SlotRec) → f (record t { slots = rs }) ≡ f t)
    (by_effects : (t : Table) (es : List Effect) → f (record t { effects = es }) ≡ f t) where
  emit_event-field : (e : Option Event) (s : Slot) (t : Table) → f (emit_event e s t) ≡ f t
  unfolding emit_event emit
  emit_event-field none s t = refl
  emit_event-field (some e) s t = by_effects t _

  run_worker-field : (w : Worker) (x : SlotRec) (t : Table) → f (run_worker w x t) ≡ f t
  unfolding run_worker end_clean update
  run_worker-field still_running x t = refl
  run_worker-field (ended w) x t =
      if_cases (λ (u : Table). f u ≡ f t) (wipe w) _ _
        (λ _. emit_event-field x.exit_event x.slot _ ∙ by_slots t _) (λ _. by_slots t _)

  clean_current-field :
      (w : Worker) (p : ℕ) (o : Option SlotRec) (t : Table) → f (clean_current w p o t) ≡ f t
  unfolding clean_current begin_clean update
  clean_current-field w p none t = refl
  clean_current-field w p (some x) t =
      if_cases (λ (u : Table). f u ≡ f t) (x.ref == p && not x.cleaning) _ _
        (λ _. run_worker-field w x _ ∙ by_slots t _) (λ _. refl)

  -- A cleanup changes the slots and calls hooks, and does nothing else.
  pub clean-field : (w : Worker) (j : SlotId) (p : ℕ) (t : Table) → f (clean w j p t) ≡ f t
  unfolding clean
  clean-field w j p t = clean_current-field w p (at_id j t.slots) t

pub clean-next_ref :
    (w : Worker) (j : SlotId) (p : ℕ) (t : Table) → (clean w j p t).next_ref ≡ t.next_ref
clean-next_ref = clean-field (λ t. t.next_ref) (λ t rs. refl) (λ t es. refl)
