-- ===== src/Table/Ensure/Ceiling.antt =====
-- The live count through one start.
use tentacles.Base.{
  ℕ, suc, ◌≤◌, ◌≡◌, refl, sym, ◌∙◌, true, Option, none, some, List, [], ◌∷◌, Text, arith,
  Option-cases, if_cases, inl, inr, text_eq,
}
use tentacles.Base.Float.{FloatOps}
use tentacles.Slot.{SlotId, is_live, busy, stopping}
use tentacles.Table.{SlotRec, Table, count_live, set_state, modify, update, emit, at_ref, snapshot}
use tentacles.Table.Claim.{
  claim, mark_result, Message, job_started, job_completed, deliver, deliver_all,
}
use tentacles.Table.Clean.{Worker}
use tentacles.Table.Start.{
  Places, Attempt, Launch, mkdir_failed, materialize_failed, jit_failed, write_failed, not_started,
  uncertain, ready, reserve, emit_at, fail_start, name_runner, name_rec, note_launch, launch_slot,
  start_at, start_one, next_id, new_rec, fresh_slot,
}
use tentacles.Table.Invariant.{Inv}
use tentacles.Table.Invariant.Records.{claim_slots-Pointwise, result_slots-Pointwise}
use tentacles.Table.Laws.{All-Pointwise}
use tentacles.Table.Steps.{At}
use tentacles.Table.Runs.{All-modify_plain, At-of_FreshRef}
use tentacles.Table.Runs.Start.{emit_at-slots, claim_rec_ref, FreshRef_of_sound}
use tentacles.Table.Ensure.Count.{
  count_live-modify, claim_rec_live, count_live-deliver_all, count_live-reserve, count_live-ready,
}
use tentacles.Table.Ensure.Bound.{count_live-modify_le, count_live-remove_le, clean_le}

-- The record at an address, if there is one, is in service.
abbrev LiveAt : ℕ → List SlotRec → Type 0
LiveAt p = At p (λ r. is_live r.state ≡ true)

deliver-LiveAt : (m : Message) (p : ℕ) (t : Table) → LiveAt p t.slots → LiveAt p (deliver m t).slots
unfolding deliver claim mark_result
deliver-LiveAt (job_started job now) p t h =
    All-Pointwise (λ r. r.ref ≡ p → is_live r.state ≡ true) t.slots _
      (claim_slots-Pointwise
        (λ r s. (r.ref ≡ p → is_live r.state ≡ true) → s.ref ≡ p → is_live s.state ≡ true)
        (λ r k. k) job now t.slots
        (λ r k same. claim_rec_live job now r ∙ k (sym (claim_rec_ref job now r) ∙ same)))
      h
deliver-LiveAt (job_completed name res) p t h =
    if_cases (λ (u : Table). LiveAt p u.slots) (text_eq res []) _ _ (λ _. h)
      (λ _.
        All-Pointwise (λ r. r.ref ≡ p → is_live r.state ≡ true) t.slots _
          (result_slots-Pointwise
            (λ r s. (r.ref ≡ p → is_live r.state ≡ true) → s.ref ≡ p → is_live s.state ≡ true)
            (λ r k. k) name res t.slots (λ r k. k))
          h)

deliver_all-LiveAt :
    (ms : List Message) (p : ℕ) (t : Table) → LiveAt p t.slots → LiveAt p (deliver_all ms t).slots
unfolding deliver_all
deliver_all-LiveAt [] p t h = h
deliver_all-LiveAt (m ∷ ms) p t h = deliver_all-LiveAt ms p (deliver m t) (deliver-LiveAt m p t h)

count_live-set_busy :
    (p : ℕ) (rs : List SlotRec)
    → LiveAt p rs
    → count_live (modify p (set_state busy) rs) ≡ count_live rs
unfolding count_live modify
count_live-set_busy p [] h = refl
count_live-set_busy p (r ∷ rs) h = ground (arith, count_live-set_busy p rs h.1)

fail_start_le :
    (i : SlotId) (p : ℕ) (w : Worker) (t : Table)
    → count_live (fail_start i p w t).slots ≤ count_live t.slots
unfolding fail_start update
fail_start_le i p w t =
    let stopped : Table = record t { slots = modify p (set_state stopping) t.slots } in
    let marked : count_live stopped.slots ≤ count_live t.slots =
      count_live-modify_le p (set_state stopping) t.slots (λ r h. absurd (cc h)) in
    let told : count_live (emit_at p stopped).slots ≡ count_live stopped.slots =
      rw (emit_at-slots p stopped) refl in
    omega (arith, clean_le w i p (emit_at p stopped), told, marked)

-- The part of startOne up to the return of backend.Start keeps the count.
abbrev named : Places → Attempt → SlotId → ℕ → Text → Table → Table
named places a i p name t = deliver_all a.during (note_launch i (name_runner places i p name t))

count_live-name_runner :
    (places : Places) (i : SlotId) (p : ℕ) (name : Text) (t : Table)
    → count_live (name_runner places i p name t).slots ≡ count_live t.slots
unfolding name_runner update
count_live-name_runner places i p name t =
    count_live-modify p _ t.slots (λ r. unfold name_rec in refl)

count_live-named :
    (places : Places) (a : Attempt) (i : SlotId) (p : ℕ) (name : Text) (t : Table)
    → count_live (named places a i p name t).slots ≡ count_live t.slots
unfolding note_launch
count_live-named places a i p name t =
    count_live-deliver_all a.during _ ∙ count_live-name_runner places i p name t

named-LiveAt :
    (places : Places) (a : Attempt) (i : SlotId) (p : ℕ) (name : Text) (t : Table)
    → LiveAt p t.slots
    → LiveAt p (named places a i p name t).slots
unfolding note_launch name_runner update
named-LiveAt places a i p name t h = deliver_all-LiveAt a.during p _ (
    All-modify_plain (λ r. r.ref ≡ p → is_live r.state ≡ true) p _ t.slots
      (λ r k. unfold name_rec in k) h)

launch_slot_le :
    (places : Places) (a : Attempt) (i : SlotId) (p : ℕ) (l : Launch) (t : Table)
    → LiveAt p t.slots
    → count_live (launch_slot places a i p l t).0.slots ≤ count_live t.slots
unfolding launch_slot emit
launch_slot_le places a i p mkdir_failed t h = elim (Option-cases (at_ref p t.slots)) [
  | inl e ↦ rw (e, launch_slot) (omega arith)
  | inr (r, e) ↦ rw (e, launch_slot) (count_live-remove_le p t.slots)
]
launch_slot_le places a i p materialize_failed t h = fail_start_le i p a.worker t
launch_slot_le places a i p jit_failed t h = fail_start_le i p a.worker t
launch_slot_le places a i p (write_failed name) t h = omega (
  arith,
  fail_start_le i p a.worker (name_runner places i p name t),
  count_live-name_runner places i p name t,
)
launch_slot_le places a i p (not_started name) t h = omega (
  arith,
  fail_start_le i p a.worker (named places a i p name t),
  count_live-named places a i p name t,
)
launch_slot_le places a i p (uncertain name) t h =
    unfold update in
    rw
      (emit_at-slots p (record (named places a i p name t) {
        slots = modify p (set_state busy) (named places a i p name t).slots;
      }))
      (omega (
        arith,
        count_live-set_busy p (named places a i p name t).slots
            (named-LiveAt places a i p name t h),
        count_live-named places a i p name t,
      ))
launch_slot_le places a i p (ready name now) t h =
    omega (arith, count_live-ready places a i p name now t)

reserve-LiveAt :
    (fl : FloatOps) (places : Places) (a : Attempt) (i : SlotId) (t : Table)
    → Inv t
    → LiveAt t.next_ref (reserve fl places a i t).slots
unfolding reserve new_rec fresh_slot
reserve-LiveAt fl places a i t v = (
  (λ _. refl),
  At-of_FreshRef _ t.next_ref t.slots (FreshRef_of_sound t.next_ref t.slots v.sound),
)

start_at_le :
    (fl : FloatOps) (places : Places) (a : Attempt) (o : Option SlotId) (t : Table)
    → Inv t
    → count_live (start_at fl places a o t).0.slots ≤ suc (count_live t.slots)
unfolding start_at
start_at_le fl places a none t v = omega arith
start_at_le fl places a (some i) t v = omega (
  arith,
  launch_slot_le places a i t.next_ref a.launch (reserve fl places a i t)
      (reserve-LiveAt fl places a i t v),
  count_live-reserve fl places a i t,
)

-- A start adds at most one live slot, also when its outcome is uncertain.
pub start_one_le :
    (fl : FloatOps) (places : Places) (a : Attempt) (t : Table)
    → Inv t
    → count_live (start_one fl places a t).0.slots ≤ suc (count_live t.slots)
unfolding start_one emit
start_one_le fl places a t v =
    if_cases Adds a.allowed _ _
      (λ _.
        if_cases Adds (a.gate (snapshot is_live t.slots)) _ _
          (λ _.
            if_cases Adds t.is_closed _ _ (λ _. omega arith)
              (λ _. start_at_le fl places a (next_id t.slots) t v))
          (λ _. omega arith))
      (λ _. omega arith)
  where
    Adds : Table × Option SlotId → Type 0
    Adds done = count_live done.0.slots ≤ suc (count_live t.slots)
