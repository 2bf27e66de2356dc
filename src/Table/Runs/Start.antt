-- ===== src/Table/Runs/Start.antt =====
-- startOne as a run of sections.
use tentacles.Base.{
  ℕ, ◌≡◌, ◌≢◌, refl, sym, ◌∙◌, false, Option, none, some, List, [], ◌∷◌, Text, arith, All,
  Bool-cases, Option-cases, if_cases, inl, inr, text_eq,
}
use tentacles.Base.Float.{FloatOps}
use tentacles.Slot.{SlotId, stopping, is_live, ClaimJob}
use tentacles.Table.{SlotRec, Table, at_ref, set_state, update, emit, snapshot}
use tentacles.Table.Claim.{
  claim, claim_rec, mark_result, Message, job_started, job_completed, deliver, deliver_all,
}
use tentacles.Table.Clean.{Worker}
use tentacles.Table.Start.{
  Places, Attempt, Launch, mkdir_failed, materialize_failed, jit_failed, write_failed, not_started,
  uncertain, ready, reserve, emit_at, fail_start, name_runner, name_rec, emit_started, note_launch,
  launch_slot, start_at, start_one, next_id, new_rec,
}
use tentacles.Table.Start.NextId.{next_id_fresh}
use tentacles.Table.Invariant.{IsSound, Inv}
use tentacles.Table.Invariant.Records.{claim_slots-Pointwise, result_slots-Pointwise}
use tentacles.Table.Laws.{All-Pointwise}
use tentacles.Table.Steps.{
  At, claims, results, reserves, names, becomes_idle, stays_busy, becomes_stopping, deletes, tells,
  Reach, here, Reach-trans, Reach-Step,
}
use tentacles.Table.Runs.{All-modify_plain, At-modify_self, At-of_FreshRef}
use tentacles.Table.Runs.Release.{clean-Reach}

emit_at-Reach : (p : ℕ) (t : Table) → Reach t (emit_at p t)
unfolding emit_at emit
emit_at-Reach p t = elim (Option-cases (at_ref p t.slots)) [
  | inl e ↦ rw (e, emit_at) here
  | inr (r, e) ↦ rw (e, emit_at) (Reach-Step (tells _))
]

pub emit_at-slots : (p : ℕ) (t : Table) → (emit_at p t).slots ≡ t.slots
unfolding emit_at emit
emit_at-slots p t = ground arith

emit_started-Reach : (p : ℕ) (t : Table) → Reach t (emit_started p t)
unfolding emit_started emit
emit_started-Reach p t = elim (Option-cases (at_ref p t.slots)) [
  | inl e ↦ rw (e, emit_started) here
  | inr (r, e) ↦ rw (e, emit_started) (Reach-Step (tells _))
]

fail_start-Reach : (i : SlotId) (p : ℕ) (w : Worker) (t : Table) → Reach t (fail_start i p w t)
unfolding fail_start
fail_start-Reach i p w t =
    let stopped = update p (set_state stopping) t in
    Reach-trans (Reach-Step (becomes_stopping p)) (
      Reach-trans (emit_at-Reach p stopped) (
        clean-Reach w i p (emit_at p stopped) (
          rw (emit_at-slots p stopped)
            (unfold update in At-modify_self (λ r. r.state ≡ stopping) p _ t.slots (λ r. refl)))))

deliver_all-Reach : (ms : List Message) (t : Table) → Reach t (deliver_all ms t)
unfolding deliver_all deliver
deliver_all-Reach [] t = here
deliver_all-Reach (job_started job now ∷ ms) t =
    Reach-trans (Reach-Step (claims job now)) (deliver_all-Reach ms _)
deliver_all-Reach (job_completed name res ∷ ms) t =
    Reach-trans (Reach-Step (results name res)) (deliver_all-Reach ms _)

-- The listener's messages start no release.
abbrev Kept : ℕ → List SlotRec → Type 0
Kept p = At p (λ r. r.cleanup_pending ≡ false)

claim_rec_pending :
    (job : ClaimJob) (now : ℕ) (r : SlotRec)
    → (claim_rec job now r).cleanup_pending ≡ r.cleanup_pending
unfolding claim_rec
claim_rec_pending job now r = ground arith

pub claim_rec_ref : (job : ClaimJob) (now : ℕ) (r : SlotRec) → (claim_rec job now r).ref ≡ r.ref
unfolding claim_rec
claim_rec_ref job now r = ground arith

deliver-Kept : (m : Message) (p : ℕ) (t : Table) → Kept p t.slots → Kept p (deliver m t).slots
unfolding deliver claim mark_result
deliver-Kept (job_started job now) p t h =
    All-Pointwise (λ r. r.ref ≡ p → r.cleanup_pending ≡ false) t.slots _
      (claim_slots-Pointwise
        (λ r s. (r.ref ≡ p → r.cleanup_pending ≡ false) → s.ref ≡ p → s.cleanup_pending ≡ false)
        (λ r k. k) job now t.slots
        (λ r k same. claim_rec_pending job now r ∙ k (sym (claim_rec_ref job now r) ∙ same)))
      h
deliver-Kept (job_completed name res) p t h = elim (Bool-cases (text_eq res [])) [
  | inl e ↦ rw e h
  | inr e ↦ rw e (
      All-Pointwise (λ r. r.ref ≡ p → r.cleanup_pending ≡ false) t.slots _
        (result_slots-Pointwise
          (λ r s. (r.ref ≡ p → r.cleanup_pending ≡ false) → s.ref ≡ p → s.cleanup_pending ≡ false)
          (λ r k. k) name res t.slots (λ r k. k))
        h)
]

deliver_all-Kept :
    (ms : List Message) (p : ℕ) (t : Table) → Kept p t.slots → Kept p (deliver_all ms t).slots
unfolding deliver_all
deliver_all-Kept [] p t h = h
deliver_all-Kept (m ∷ ms) p t h = deliver_all-Kept ms p (deliver m t) (deliver-Kept m p t h)

-- The part of startOne up to the return of backend.Start.
abbrev named : Places → Attempt → SlotId → ℕ → Text → Table → Table
named places a i p name t = deliver_all a.during (note_launch i (name_runner places i p name t))

named-Reach :
    (places : Places) (a : Attempt) (i : SlotId) (p : ℕ) (name : Text) (t : Table)
    → Reach t (named places a i p name t)
unfolding note_launch
named-Reach places a i p name t =
    Reach-trans (Reach-Step (names places i p name))
      (Reach-trans (Reach-Step (tells _)) (deliver_all-Reach a.during _))

named-Kept :
    (places : Places) (a : Attempt) (i : SlotId) (p : ℕ) (name : Text) (t : Table)
    → Kept p t.slots
    → Kept p (named places a i p name t).slots
unfolding note_launch name_runner update
named-Kept places a i p name t h = deliver_all-Kept a.during p _ (
    All-modify_plain (λ r. r.ref ≡ p → r.cleanup_pending ≡ false) p _ t.slots
      (λ r k. unfold name_rec in k) h)

launch_slot-Reach :
    (places : Places) (a : Attempt) (i : SlotId) (p : ℕ) (l : Launch) (t : Table)
    → Kept p t.slots
    → Reach t (launch_slot places a i p l t).0
unfolding launch_slot emit
launch_slot-Reach places a i p mkdir_failed t h = elim (Option-cases (at_ref p t.slots)) [
  | inl e ↦ rw (e, launch_slot) here
  | inr (r, e) ↦ rw (e, launch_slot) (Reach-trans (Reach-Step (deletes p)) (Reach-Step (tells _)))
]
launch_slot-Reach places a i p materialize_failed t h = fail_start-Reach i p a.worker t
launch_slot-Reach places a i p jit_failed t h = fail_start-Reach i p a.worker t
launch_slot-Reach places a i p (write_failed name) t h =
    Reach-trans (Reach-Step (names places i p name)) (fail_start-Reach i p a.worker _)
launch_slot-Reach places a i p (not_started name) t h =
    Reach-trans (named-Reach places a i p name t) (fail_start-Reach i p a.worker _)
launch_slot-Reach places a i p (uncertain name) t h =
    Reach-trans (named-Reach places a i p name t) (
      Reach-trans (Reach-Step (stays_busy p (named-Kept places a i p name t h)))
        (emit_at-Reach p _))
launch_slot-Reach places a i p (ready name now) t h =
    Reach-trans (named-Reach places a i p name t)
      (Reach-trans (Reach-Step (becomes_idle p now)) (emit_started-Reach p _))

pub FreshRef_of_sound : (b : ℕ) (rs : List SlotRec) → All (IsSound b) rs → All (λ r. r.ref ≢ b) rs
FreshRef_of_sound b [] h = tt
FreshRef_of_sound b (r ∷ rs) h = (omega arith, FreshRef_of_sound b rs h.1)

reserve-Kept :
    (fl : FloatOps) (places : Places) (a : Attempt) (i : SlotId) (t : Table)
    → Inv t
    → Kept t.next_ref (reserve fl places a i t).slots
unfolding reserve new_rec
reserve-Kept fl places a i t v = (
  (λ _. refl),
  At-of_FreshRef _ t.next_ref t.slots (FreshRef_of_sound t.next_ref t.slots v.sound),
)

start_at-Reach :
    (fl : FloatOps) (places : Places) (a : Attempt) (o : Option SlotId) (t : Table)
    → next_id t.slots ≡ o
    → Inv t
    → Reach t (start_at fl places a o t).0
unfolding start_at
start_at-Reach fl places a none t e v = here
start_at-Reach fl places a (some i) t e v =
    let fresh = next_id_fresh t.slots i e in
    Reach-trans (Reach-Step (reserves fl places a i fresh.0 fresh.1 fresh.2))
      (launch_slot-Reach places a i t.next_ref a.launch _ (reserve-Kept fl places a i t v))

pub start_one-Reach :
    (fl : FloatOps) (places : Places) (a : Attempt) (t : Table)
    → Inv t
    → Reach t (start_one fl places a t).0
unfolding start_one
start_one-Reach fl places a t v =
    if_cases ReachFst a.allowed _ _
      (λ _.
        if_cases ReachFst (a.gate (snapshot is_live t.slots)) _ _
          (λ _.
            if_cases ReachFst t.is_closed _ _ (λ _. here)
              (λ _. start_at-Reach fl places a (next_id t.slots) t refl v))
          (λ _. Reach-Step (tells _)))
      (λ _. here)
  where
    ReachFst : Table × Option SlotId → Type 0
    ReachFst done = Reach t done.0
