-- ===== src/Table/Exit/Once.antt =====
-- A confirmed exit is taken up once.
use tentacles.Base.{
  ℕ, ◌≡◌, refl, sym, ◌∙◌, Bool, true, Option, some, List, [], ◌∷◌, arith, ◌==◌, All, Bool-cases,
  Option-cases, inl, inr,
}
use tentacles.Base.Float.{FloatOps}
use tentacles.Slot.{SlotId}
use tentacles.Table.{SlotRec, Table, at_id, modify, update}
use tentacles.Table.Laws.{FreshId, Distinct}
use tentacles.Table.Invariant.{Inv}
use tentacles.Table.Clean.{Worker, mark_cleaning, unmark}
use tentacles.Table.Runs.Release.{clean-All}
use tentacles.Table.Exit.{exit_rec, exit_effects, takes_exit, exit_current, observe_exit}

-- The records of an ID are being released.
abbrev Released : SlotId → SlotRec → Type 0
Released i r = r.id ≡ i → r.cleanup_pending ≡ true

at_id-Released :
    (i : SlotId) (rs : List SlotRec) (r : SlotRec)
    → All (Released i) rs
    → at_id i rs ≡ some r
    → r.cleanup_pending ≡ true
unfolding at_id
at_id-Released i [] r h e = cc
at_id-Released i (x ∷ rs) r h e = ground (arith, at_id-Released i rs r h.1)

-- With distinct IDs an ID leads to one address.
only_address :
    (i : SlotId) (rs : List SlotRec) (r : SlotRec)
    → Distinct rs
    → at_id i rs ≡ some r
    → All (λ x. x.id ≡ i → x.ref ≡ r.ref) rs
unfolding at_id
only_address i [] r d e = tt
only_address i (x ∷ rs) r d e = elim (Bool-cases (x.id == i)) [
  | inl same ↦ ((λ _. ground arith), others x rs d.0 (ground arith))
  | inr other ↦ ((λ same. absurd (ground arith)), only_address i rs r d.2 (ground arith))
]
  where
    others :
        (x : SlotRec) (ys : List SlotRec)
        → FreshId x.id ys
        → x.id ≡ i
        → All (λ y. y.id ≡ i → y.ref ≡ r.ref) ys
    others x [] f same = tt
    others x (y ∷ ys) f same = ((λ also. absurd (f.0 (also ∙ sym same))), others x ys f.1 same)

exit_Released :
    (i : SlotId) (p : ℕ) (has_hook : Bool) (grace now : ℕ) (rs : List SlotRec)
    → All (λ x. x.id ≡ i → x.ref ≡ p) rs
    → All (Released i) (modify p (exit_rec has_hook grace now) rs)
unfolding modify exit_rec
exit_Released i p has_hook grace now [] h = tt
exit_Released i p has_hook grace now (x ∷ rs) h = elim (Bool-cases (x.ref == p)) [
  | inl e ↦ rw e ((λ _. refl), exit_Released i p has_hook grace now rs h.1)
  | inr e ↦
      rw e
        ((λ same. absurd (ground (arith, h.0 same))), exit_Released i p has_hook grace now rs h.1)
]

after_exit :
    (fl : FloatOps) (i : SlotId) (expected : Option ℕ) (now : ℕ) (w : Worker) (t : Table)
    (r : SlotRec)
    → Inv t
    → at_id i t.slots ≡ some r
    → takes_exit expected r ≡ true
    → All (Released i) (observe_exit fl i expected now w t).slots
unfolding observe_exit exit_current exit_effects update
after_exit fl i expected now w t r v e takes =
    rw (e, exit_current, takes)
      (clean-All (Released i) (λ x h. unfold mark_cleaning in (λ _. refl))
        (λ x h. unfold unmark in h) w r.id r.ref _
        (exit_Released i r.ref t.has_completion_hook t.acquire_grace now t.slots
          (only_address i t.slots r v.distinct e)))

refused :
    (fl : FloatOps) (i : SlotId) (expected : Option ℕ) (now : ℕ) (w : Worker) (t : Table)
    → All (Released i) t.slots
    → observe_exit fl i expected now w t ≡ t
unfolding observe_exit takes_exit
refused fl i expected now w t h = elim (Option-cases (at_id i t.slots)) [
  | inl e ↦ rw e (unfold exit_current in refl)
  | inr (r, e) ↦ rw e (ignored r (at_id-Released i t.slots r h e))
]
  where
    ignored :
        (r : SlotRec) → r.cleanup_pending ≡ true → exit_current fl expected now w (some r) t ≡ t
    ignored r p = unfold exit_current in ground arith

-- In a table that satisfies the invariant, after an exit of a slot has been taken up, whether its
-- cleanup has ended, failed or still runs, a further exit of that slot changes nothing and calls no
-- hook.
pub observe_exit_once :
    (fl : FloatOps) (i : SlotId) (expected other : Option ℕ) (now later : ℕ) (w w' : Worker)
    (t : Table) (r : SlotRec)
    → Inv t
    → at_id i t.slots ≡ some r
    → takes_exit expected r ≡ true
    → observe_exit fl i other later w' (observe_exit fl i expected now w t)
      ≡ observe_exit fl i expected now w t
observe_exit_once fl i expected other now later w w' t r v e takes =
    refused fl i other later w' _ (after_exit fl i expected now w t r v e takes)
