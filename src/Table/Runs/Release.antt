-- ===== src/Table/Runs/Release.antt =====
-- clean, retryCleanup and observeExit as runs of sections.
use tentacles.Base.{
  ℕ, ◌≡◌, refl, Bool, true, false, ◌&&◌, not, Option, none, some, List, [], ◌∷◌, arith, All, keep,
  ◌==◌, Bool-cases, if_cases, inl, inr,
}
use tentacles.Base.Float.{FloatOps}
use tentacles.Slot.{SlotId, stopping, Event, Slot}
use tentacles.Table.{SlotRec, Table, at_id, at_ref, modify, update, emit}
use tentacles.Table.Clean.{
  Worker, ended, still_running, wipe, mark_cleaning, begin_clean, unmark, emit_event, end_clean,
  WipeCalls, end_late, finish_clean, run_worker, clean_current, clean, pending, retry_all,
  retry_cleanup,
}
use tentacles.Table.Exit.{exit_rec, exit_effects, takes_exit, exit_current, observe_exit}
use tentacles.Table.Invariant.{IsSound, Inv, All-remove}
use tentacles.Table.Steps.{
  At, exits, begins_clean, ends_clean, deletes, tells, Reach, here, Reach-trans, Reach-Step,
}
use tentacles.Table.Runs.{All-modify_plain, At-modify_self, At-of_Distinct}

emit_event-Reach : (e : Option Event) (s : Slot) (t : Table) → Reach t (emit_event e s t)
unfolding emit_event emit
emit_event-Reach none s t = here
emit_event-Reach (some e) s t = Reach-Step (tells _)

end_clean-Reach : (ok : Bool) (r : SlotRec) (t : Table) → Reach t (end_clean ok r t)
unfolding end_clean
end_clean-Reach true r t = Reach-trans (Reach-Step (deletes r.ref)) (emit_event-Reach _ _ _)
end_clean-Reach false r t = Reach-Step (ends_clean r.ref)

end_late-Reach :
    (w : WipeCalls) (snap : Slot) (o : Option SlotRec) (t : Table) → Reach t (end_late w snap o t)
unfolding end_late
end_late-Reach w snap none t = here
end_late-Reach w snap (some r) t =
    if_cases (Reach t) r.cleaning _ _ (λ _. end_clean-Reach (wipe w) (record r { slot = snap }) t)
      (λ _. here)

-- So is the end of a worker after its caller has gone on.
pub finish_clean-Reach :
    (w : WipeCalls) (snap : Slot) (p : ℕ) (t : Table) → Reach t (finish_clean w snap p t)
unfolding finish_clean
finish_clean-Reach w snap p t = end_late-Reach w snap (at_ref p t.slots) t

run_worker-Reach : (w : Worker) (r : SlotRec) (t : Table) → Reach t (run_worker w r t)
unfolding run_worker
run_worker-Reach (ended w) r t = end_clean-Reach (wipe w) r t
run_worker-Reach still_running r t = here

clean_current-Reach :
    (w : Worker) (p : ℕ) (o : Option SlotRec) (t : Table)
    → At p (λ r. r.state ≡ stopping) t.slots
    → Reach t (clean_current w p o t)
unfolding clean_current
clean_current-Reach w p none t h = here
clean_current-Reach w p (some x) t h = elim (Bool-cases (x.ref == p && not x.cleaning)) [
  | inl e ↦ rw e (Reach-trans (Reach-Step (begins_clean p h)) (run_worker-Reach w x _))
  | inr e ↦ rw e here
]

pub clean-Reach :
    (w : Worker) (i : SlotId) (p : ℕ) (t : Table)
    → At p (λ r. r.state ≡ stopping) t.slots
    → Reach t (clean w i p t)
unfolding clean
clean-Reach w i p t = clean_current-Reach w p (at_id i t.slots) t

pub exit_effects-Reach :
    (fl : FloatOps) (now : ℕ) (r : SlotRec) (t : Table) → Reach t (exit_effects fl now r t)
unfolding exit_effects
exit_effects-Reach fl now r t = Reach-Step (tells _)

-- A predicate on records that the release of a slot keeps.
module _ (P : SlotRec → Type 0) (marked : (r : SlotRec) → P r → P (mark_cleaning r))
    (unmarked : (r : SlotRec) → P r → P (unmark r)) where
  emit_event-All :
      (e : Option Event) (s : Slot) (t : Table) → All P t.slots → All P (emit_event e s t).slots
  unfolding emit_event emit
  emit_event-All none s t h = h
  emit_event-All (some e) s t h = h

  run_worker-All :
      (w : Worker) (r : SlotRec) (t : Table) → All P t.slots → All P (run_worker w r t).slots
  unfolding run_worker end_clean update
  run_worker-All still_running r t h = h
  run_worker-All (ended w) r t h = elim (Bool-cases (wipe w)) [
    | inl e ↦ rw e (emit_event-All _ _ _ (All-remove P r.ref t.slots h))
    | inr e ↦ rw e (All-modify_plain P r.ref unmark t.slots unmarked h)
  ]

  clean_current-All :
      (w : Worker) (p : ℕ) (o : Option SlotRec) (t : Table)
      → All P t.slots
      → All P (clean_current w p o t).slots
  unfolding clean_current begin_clean update
  clean_current-All w p none t h = h
  clean_current-All w p (some x) t h = elim (Bool-cases (x.ref == p && not x.cleaning)) [
    | inl e ↦ rw e (run_worker-All w x _ (All-modify_plain P p mark_cleaning t.slots marked h))
    | inr e ↦ rw e h
  ]

  pub clean-All :
      (w : Worker) (i : SlotId) (p : ℕ) (t : Table) → All P t.slots → All P (clean w i p t).slots
  unfolding clean
  clean-All w i p t = clean_current-All w p (at_id i t.slots) t

  exit_current-All :
      (fl : FloatOps) (expected : Option ℕ) (now : ℕ) (w : Worker) (o : Option SlotRec) (t : Table)
      → ((has_hook : Bool) (grace : ℕ) (r : SlotRec) → P r → P (exit_rec has_hook grace now r))
      → All P t.slots
      → All P (exit_current fl expected now w o t).slots
  unfolding exit_current exit_effects update
  exit_current-All fl expected now w none t left h = h
  exit_current-All fl expected now w (some r) t left h = elim (Bool-cases (takes_exit expected r)) [
    | inl e ↦ rw e (
        clean-All w r.id r.ref _
          (All-modify_plain P r.ref _ t.slots (left t.has_completion_hook t.acquire_grace) h))
    | inr e ↦ rw e h
  ]

  pub observe_exit-All :
      (fl : FloatOps) (i : SlotId) (expected : Option ℕ) (now : ℕ) (w : Worker) (t : Table)
      → ((has_hook : Bool) (grace : ℕ) (r : SlotRec) → P r → P (exit_rec has_hook grace now r))
      → All P t.slots
      → All P (observe_exit fl i expected now w t).slots
  unfolding observe_exit
  observe_exit-All fl i expected now w t = exit_current-All fl expected now w (at_id i t.slots) t

exit_current-Reach :
    (fl : FloatOps) (expected : Option ℕ) (now : ℕ) (w : Worker) (o : Option SlotRec) (t : Table)
    → Reach t (exit_current fl expected now w o t)
unfolding exit_current update
exit_current-Reach fl expected now w none t = here
exit_current-Reach fl expected now w (some r) t = elim (Bool-cases (takes_exit expected r)) [
  | inl e ↦ rw e (
      Reach-trans (Reach-Step (exits r.ref t.has_completion_hook t.acquire_grace now)) (
        Reach-trans (exit_effects-Reach fl now r _)
          (clean-Reach w r.id r.ref _ (exited_stops t r.ref _ _ now))))
  | inr e ↦ rw e here
]
  where
    exited_stops :
        (t : Table) (p : ℕ) (has_hook : Bool) (grace now : ℕ)
        → At p (λ r. r.state ≡ stopping) (modify p (exit_rec has_hook grace now) t.slots)
    exited_stops t p has_hook grace now =
        At-modify_self (λ r. r.state ≡ stopping) p _ t.slots (λ r. unfold exit_rec in refl)

pub observe_exit-Reach :
    (fl : FloatOps) (i : SlotId) (expected : Option ℕ) (now : ℕ) (w : Worker) (t : Table)
    → Reach t (observe_exit fl i expected now w t)
unfolding observe_exit
observe_exit-Reach fl i expected now w t = exit_current-Reach fl expected now w (at_id i t.slots) t

-- The records that a retry starts with are stopping, and stay so until their turn.
abbrev AllStop : List SlotRec → Table → Type 0
AllStop rs t = All (λ r. At r.ref (λ x. x.state ≡ stopping) t.slots) rs

clean-AllStop :
    (w : Worker) (i : SlotId) (p : ℕ) (rs : List SlotRec) (t : Table)
    → AllStop rs t
    → AllStop rs (clean w i p t)
clean-AllStop w i p [] t h = tt
clean-AllStop w i p (r ∷ rs) t h = (
  clean-All (λ x. x.ref ≡ r.ref → x.state ≡ stopping) (λ x k. unfold mark_cleaning in k)
      (λ x k. unfold unmark in k) w i p t h.0,
  clean-AllStop w i p rs t h.1,
)

retry_all-Reach :
    (expired : SlotId → Bool) (worker : SlotId → Worker) (rs : List SlotRec) (t : Table)
    → AllStop rs t
    → Reach t (retry_all expired worker rs t)
unfolding retry_all
retry_all-Reach expired worker [] t h = here
retry_all-Reach expired worker (r ∷ rs) t h = elim (Bool-cases (expired r.id)) [
  | inl e ↦ rw e here
  | inr e ↦ rw e (
      Reach-trans (clean-Reach (worker r.id) r.id r.ref t h.0)
        (retry_all-Reach expired worker rs _ (clean-AllStop (worker r.id) r.id r.ref rs t h.1)))
]

keep-pending-AllStop :
    (b : ℕ) (rs ss : List SlotRec)
    → All (IsSound b) rs
    → All (λ r. r.state ≡ stopping → At r.ref (λ x. x.state ≡ stopping) ss) rs
    → All (λ r. At r.ref (λ x. x.state ≡ stopping) ss) (keep pending rs)
unfolding pending
keep-pending-AllStop b [] ss v h = tt
keep-pending-AllStop b (r ∷ rs) ss v h = elim (Bool-cases (pending r)) [
  | inl e ↦ rw e (h.0 (v.0.pending_stopping (ground arith)), keep-pending-AllStop b rs ss v.1 h.1)
  | inr e ↦ rw e (keep-pending-AllStop b rs ss v.1 h.1)
]

pub retry_cleanup-Reach :
    (expired_now : Bool) (expired : SlotId → Bool) (worker : SlotId → Worker) (t : Table)
    → Inv t
    → Reach t (retry_cleanup expired_now expired worker t)
unfolding retry_cleanup
retry_cleanup-Reach true expired worker t v = here
retry_cleanup-Reach false expired worker t v =
    retry_all-Reach expired worker (keep pending t.slots) t (
      keep-pending-AllStop t.next_ref t.slots t.slots v.sound
        (At-of_Distinct (λ x. x.state ≡ stopping) t.slots v.distinct))
