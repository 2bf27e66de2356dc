-- ===== src/Table/Surplus/Spared.antt =====
-- Which slots stopSurplusContext never touches.
use tentacles.Base.{
  ℕ, ◌-◌, ◌≤◌, ◌<◌, ◌≡◌, ◌≢◌, refl, sym, ◌∙◌, Bool, false, Option, none, some, List, [], ◌∷◌, arith,
  All-take, All-sort_by, keep, ◌==◌, ◌&&◌, not, Bool-cases, inl, inr, if_cases, ap,
}
use mathlib.Core.Bool.{false≢true}
use tentacles.Base.Float.{FloatOps}
use tentacles.Slot.{busy, idle, stopping, Slot, Event}
use tentacles.Table.{SlotRec, Table, at_ref, set_state, modify, remove, update, emit, count_live}
use tentacles.Table.Laws.{FreshRef, Distinct}
use tentacles.Table.Invariant.{Inv}
use tentacles.Table.Steps.{At}
use tentacles.Table.Clean.{
  Worker, ended, still_running, wipe, mark_cleaning, begin_clean, unmark, emit_event, end_clean,
  run_worker, clean_current, clean,
}
use tentacles.Table.Exit.{exit_rec, exit_effects, takes_exit, exit_current, observe_exit}
use tentacles.Table.Surplus.{
  eligible, eligible_in, older, chosen, mark_stopping, select_surplus, revert_rec, StopWorld,
  note_stop, stop_one, stop_all, stop_surplus,
}

-- A record is not changed through another pointer.
at_ref-modify_ne :
    (p q : ℕ) (f : SlotRec → SlotRec) (rs : List SlotRec)
    → p ≢ q
    → ((r : SlotRec) → (f r).ref ≡ r.ref)
    → at_ref q (modify p f rs) ≡ at_ref q rs
unfolding modify at_ref
at_ref-modify_ne p q f [] h k = refl
at_ref-modify_ne p q f (r ∷ rs) h k = ground (arith, k r, at_ref-modify_ne p q f rs h k)

at_ref-remove_ne : (p q : ℕ) (rs : List SlotRec) → p ≢ q → at_ref q (remove p rs) ≡ at_ref q rs
unfolding remove at_ref
at_ref-remove_ne p q [] h = refl
at_ref-remove_ne p q (r ∷ rs) h = ground (arith, at_ref-remove_ne p q rs h)

at_ref-emit_event :
    (q : ℕ) (e : Option Event) (s : Slot) (t : Table)
    → at_ref q (emit_event e s t).slots ≡ at_ref q t.slots
unfolding emit_event emit
at_ref-emit_event q none s t = refl
at_ref-emit_event q (some e) s t = refl

abbrev SameAt : ℕ → Table → Table → Type 0
SameAt q t u = at_ref q u.slots ≡ at_ref q t.slots

run_worker-SameAt :
    (w : Worker) (x : SlotRec) (t : Table) (q : ℕ) → x.ref ≢ q → SameAt q t (run_worker w x t)
unfolding run_worker end_clean update
run_worker-SameAt still_running x t q h = refl
run_worker-SameAt (ended w) x t q h =
    if_cases (λ u. SameAt q t u) (wipe w) _ _
      (λ _. at_ref-emit_event q _ _ _ ∙ at_ref-remove_ne x.ref q t.slots h)
      (λ _. at_ref-modify_ne x.ref q unmark t.slots h (λ r. unfold unmark in refl))

clean_current-SameAt :
    (w : Worker) (p : ℕ) (o : Option SlotRec) (t : Table) (q : ℕ)
    → p ≢ q
    → SameAt q t (clean_current w p o t)
unfolding clean_current begin_clean update
clean_current-SameAt w p none t q h = refl
clean_current-SameAt w p (some x) t q h =
    if_cases (λ u. SameAt q t u) (x.ref == p && not x.cleaning) _ _
      (λ e.
        run_worker-SameAt w x _ q (ground arith)
        ∙ at_ref-modify_ne p q mark_cleaning t.slots h (λ r. unfold mark_cleaning in refl))
      (λ _. refl)

exit_current-SameAt :
    (fl : FloatOps) (p : ℕ) (now : ℕ) (w : Worker) (o : Option SlotRec) (t : Table) (q : ℕ)
    → p ≢ q
    → SameAt q t (exit_current fl (some p) now w o t)
unfolding exit_current exit_effects update clean takes_exit
exit_current-SameAt fl p now w none t q h = refl
exit_current-SameAt fl p now w (some r) t q h =
    if_cases (λ u. SameAt q t u) (takes_exit (some p) r) _ _
      (λ e.
        let here : r.ref ≢ q = λ same. h (ground arith) in
        clean_current-SameAt w r.ref _ _ q here
        ∙ at_ref-modify_ne r.ref q _ t.slots here (λ x. unfold exit_rec in refl))
      (λ _. refl)

revert_rec_same_ref : (c r : SlotRec) → (revert_rec c.state r).ref ≡ r.ref
unfolding revert_rec
revert_rec_same_ref c r = ground arith

stop_one-SameAt :
    (fl : FloatOps) (w : StopWorld) (c : SlotRec) (t : Table) (q : ℕ)
    → c.ref ≢ q
    → SameAt q t (stop_one fl w c t)
unfolding stop_one note_stop emit observe_exit update
stop_one-SameAt fl w c t q h =
    if_cases (λ u. SameAt q t u) (w.stops c.id) _ _
      (λ _. exit_current-SameAt fl c.ref (w.exit_time c.id) (w.worker c.id) _ _ q h)
      (λ _. at_ref-modify_ne c.ref q (revert_rec c.state) t.slots h (revert_rec_same_ref c))

stop_all-SameAt :
    (fl : FloatOps) (w : StopWorld) (cs : List SlotRec) (t : Table) (q : ℕ)
    → FreshRef q cs
    → SameAt q t (stop_all fl w cs t)
unfolding stop_all
stop_all-SameAt fl w [] t q h = refl
stop_all-SameAt fl w (c ∷ cs) t q h =
    stop_all-SameAt fl w cs (stop_one fl w c t) q h.1 ∙ stop_one-SameAt fl w c t q h.0

mark_stopping-same :
    (cs rs : List SlotRec) (q : ℕ) → FreshRef q cs → at_ref q (mark_stopping cs rs) ≡ at_ref q rs
unfolding mark_stopping
mark_stopping-same [] rs q h = refl
mark_stopping-same (c ∷ cs) rs q h =
    mark_stopping-same cs (modify c.ref (set_state stopping) rs) q h.1
    ∙ at_ref-modify_ne c.ref q (set_state stopping) rs h.0 (λ r. refl)

-- The record at an address is the only one there.
at_ref_unique :
    (q : ℕ) (rs : List SlotRec) (r : SlotRec)
    → Distinct rs
    → at_ref q rs ≡ some r
    → At q (λ x. x ≡ r) rs
unfolding at_ref
at_ref_unique q [] r d e = tt
at_ref_unique q (x ∷ rs) r d e = elim (Bool-cases (x.ref == q)) [
  | inl same ↦ ((λ _. ground arith), others x rs d.1 (ground arith))
  | inr other ↦ ((λ same. absurd (ground arith)), at_ref_unique q rs r d.2 (ground arith))
]
  where
    others :
        (x : SlotRec) (rs : List SlotRec) → FreshRef x.ref rs → x.ref ≡ q → At q (λ y. y ≡ r) rs
    others x [] f same = tt
    others x (y ∷ rs) f same = ((λ also. absurd (f.0 (also ∙ sym same))), others x rs f.1 same)

keep-FreshRef :
    (q : ℕ) (r : SlotRec) (p : SlotRec → Bool) (rs : List SlotRec)
    → p r ≡ false
    → At q (λ x. x ≡ r) rs
    → FreshRef q (keep p rs)
keep-FreshRef q r p [] e h = tt
keep-FreshRef q r p (x ∷ rs) e h = elim (Bool-cases (p x)) [
  | inl passes ↦ rw passes (
    (λ same. absurd (false≢true (sym e ∙ ap p (sym (h.0 same)) ∙ passes))),
    keep-FreshRef q r p rs e h.1,
  )
  | inr fails ↦ rw fails (keep-FreshRef q r p rs e h.1)
]

chosen-FreshRef :
    (ignore_grace : Bool) (now target : ℕ) (t : Table) (q : ℕ) (r : SlotRec)
    → Inv t
    → at_ref q t.slots ≡ some r
    → eligible ignore_grace now t r ≡ false
    → FreshRef q (chosen ignore_grace now target t)
unfolding chosen
chosen-FreshRef ignore_grace now target t q r v e no_ =
    All-take (λ x. x.ref ≢ q) (count_live t.slots - target) _
      (All-sort_by (λ x. x.ref ≢ q) older _
        (keep-FreshRef q r (eligible ignore_grace now t) t.slots no_
          (at_ref_unique q t.slots r v.distinct e)))

-- A slot that is not eligible is the same after stopSurplusContext, whatever the backend and the
-- cleanups of the other slots do, in a table that satisfies the invariant.
pub stop_surplus_spares :
    (fl : FloatOps) (w : StopWorld) (ignore_grace : Bool) (now target : ℕ) (t : Table) (q : ℕ)
    (r : SlotRec)
    → Inv t
    → at_ref q t.slots ≡ some r
    → eligible ignore_grace now t r ≡ false
    → at_ref q (stop_surplus fl w ignore_grace now target t).slots ≡ some r
unfolding stop_surplus select_surplus
stop_surplus_spares fl w ignore_grace now target t q r v e no_ =
    let fresh = chosen-FreshRef ignore_grace now target t q r v e no_ in
    stop_all-SameAt fl w (chosen ignore_grace now target t) _ q fresh
    ∙ mark_stopping-same (chosen ignore_grace now target t) t.slots q fresh
    ∙ e

-- In a table that satisfies the invariant a busy slot is the same after stopSurplusContext, also at a
-- shutdown and whatever the desired count is.
pub busy_survives :
    (fl : FloatOps) (w : StopWorld) (ignore_grace : Bool) (now target : ℕ) (t : Table) (q : ℕ)
    (r : SlotRec)
    → Inv t
    → at_ref q t.slots ≡ some r
    → r.state ≡ busy
    → at_ref q (stop_surplus fl w ignore_grace now target t).slots ≡ some r
busy_survives fl w ignore_grace now target t q r v e b =
    stop_surplus_spares fl w ignore_grace now target t q r v e
      (unfold eligible eligible_in in ground arith)

-- In a table that satisfies the invariant an idle slot is the same after a scale-down whose time lies
-- within the idle grace of the slot's start.
pub fresh_idle_survives :
    (fl : FloatOps) (w : StopWorld) (now target since : ℕ) (t : Table) (q : ℕ) (r : SlotRec)
    → Inv t
    → at_ref q t.slots ≡ some r
    → r.state ≡ idle
    → r.started_at ≡ some since
    → 0 < t.idle_grace
    → now - since ≤ t.idle_grace
    → at_ref q (stop_surplus fl w false now target t).slots ≡ some r
fresh_idle_survives fl w now target since t q r v e i s g h =
    stop_surplus_spares fl w false now target t q r v e
      (unfold eligible eligible_in in ground arith)
