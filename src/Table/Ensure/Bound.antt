-- ===== src/Table/Ensure/Bound.antt =====
-- The live count through changes, releases and exits of slots.
use tentacles.Base.{
  ℕ, ◌≤◌, ◌≡◌, refl, Bool, true, false, Option, none, some, List, [], ◌∷◌, arith, if_cases, ◌==◌,
  ◌&&◌, not, sym, ◌∙◌, keep,
}
use tentacles.Base.Float.{FloatOps}
use tentacles.Slot.{SlotId, Slot, Event, Usage, is_live}
use tentacles.Table.{SlotRec, Table, count_live, modify, remove, update, emit, at_id, at_ref}
use tentacles.Table.Clean.{
  Worker, ended, still_running, mark_cleaning, begin_clean, unmark, emit_event, end_clean,
  WipeCalls, end_late, finish_clean, run_worker, clean_current, clean, retry_all, wipe,
}
use tentacles.Table.Sample.{
  is_sampled, sample_rec, sample, sample_target, sample_targets, sample_tick,
}
use tentacles.Table.Exit.{exit_rec, exit_effects, exit_current, takes_exit, observe_exit}

-- A change that puts no slot into service does not raise the count.
pub count_live-modify_le :
    (p : ℕ) (f : SlotRec → SlotRec) (rs : List SlotRec)
    → ((r : SlotRec) → is_live (f r).state ≡ true → is_live r.state ≡ true)
    → count_live (modify p f rs) ≤ count_live rs
unfolding count_live modify
count_live-modify_le p f [] k = omega arith
count_live-modify_le p f (r ∷ rs) k = ground (arith, k r, count_live-modify_le p f rs k)

pub count_live-remove_le : (p : ℕ) (rs : List SlotRec) → count_live (remove p rs) ≤ count_live rs
unfolding count_live remove
count_live-remove_le p [] = omega arith
count_live-remove_le p (r ∷ rs) = ground (arith, count_live-remove_le p rs)

emit_event-slots :
    (o : Option Event) (r : SlotRec) (t : Table) → (emit_event o r.slot t).slots ≡ t.slots
unfolding emit_event emit
emit_event-slots none r t = refl
emit_event-slots (some e) r t = refl

end_clean_le :
    (ok : Bool) (r : SlotRec) (t : Table) → count_live (end_clean ok r t).slots ≤ count_live t.slots
unfolding end_clean update
end_clean_le true r t =
    rw (emit_event-slots r.exit_event r (record t { slots = remove r.ref t.slots }))
      (count_live-remove_le r.ref t.slots)
end_clean_le false r t = count_live-modify_le r.ref unmark t.slots (λ s h. unfold unmark in h)

-- Nor does the end of a worker after its caller has gone on.
pub finish_clean_le :
    (w : WipeCalls) (snap : Slot) (p : ℕ) (t : Table)
    → count_live (finish_clean w snap p t).slots ≤ count_live t.slots
unfolding finish_clean
finish_clean_le w snap p t = from (at_ref p t.slots)
  where
    from : (o : Option SlotRec) → count_live (end_late w snap o t).slots ≤ count_live t.slots
    from none = unfold end_late in omega arith
    from (some r) =
        unfold end_late in
        if_cases (λ (u : Table). count_live u.slots ≤ count_live t.slots) r.cleaning _ _
          (λ _. end_clean_le (wipe w) (record r { slot = snap }) t) (λ _. omega arith)

run_worker_le :
    (w : Worker) (r : SlotRec) (t : Table)
    → count_live (run_worker w r t).slots ≤ count_live t.slots
unfolding run_worker
run_worker_le (ended w) r t = end_clean_le (wipe w) r t
run_worker_le still_running r t = omega arith

-- The release of a slot does not raise the count.
pub clean_le :
    (w : Worker) (i : SlotId) (p : ℕ) (t : Table)
    → count_live (clean w i p t).slots ≤ count_live t.slots
unfolding clean
clean_le w i p t = current (at_id i t.slots)
  where
    begun : count_live (begin_clean p t).slots ≤ count_live t.slots
    begun =
        unfold begin_clean update in
        count_live-modify_le p mark_cleaning t.slots (λ s h. unfold mark_cleaning in h)

    current : (o : Option SlotRec) → count_live (clean_current w p o t).slots ≤ count_live t.slots
    current none = unfold clean_current in omega arith
    current (some x) =
        unfold clean_current in
        if_cases (λ (u : Table). count_live u.slots ≤ count_live t.slots)
          (x.ref == p && not x.cleaning) _ _
          (λ _. omega (arith, run_worker_le w x (begin_clean p t), begun)) (λ _. omega arith)

pub retry_all_le :
    (expired : SlotId → Bool) (worker : SlotId → Worker) (rs : List SlotRec) (t : Table)
    → count_live (retry_all expired worker rs t).slots ≤ count_live t.slots
unfolding retry_all
retry_all_le expired worker [] t = omega arith
retry_all_le expired worker (r ∷ rs) t =
    if_cases (λ (u : Table). count_live u.slots ≤ count_live t.slots) (expired r.id) _ _
      (λ _. omega arith)
      (λ _. omega (
        arith,
        retry_all_le expired worker rs (clean (worker r.id) r.id r.ref t),
        clean_le (worker r.id) r.id r.ref t,
      ))

exit_rec_stopping :
    (has_hook : Bool) (grace now : ℕ) (r : SlotRec)
    → is_live (exit_rec has_hook grace now r).state ≡ false
unfolding exit_rec
exit_rec_stopping has_hook grace now r = refl

pub observe_exit_le :
    (fl : FloatOps) (i : SlotId) (expected : Option ℕ) (now : ℕ) (w : Worker) (t : Table)
    → count_live (observe_exit fl i expected now w t).slots ≤ count_live t.slots
unfolding observe_exit
observe_exit_le fl i expected now w t = current (at_id i t.slots)
  where
    current :
        (o : Option SlotRec)
        → count_live (exit_current fl expected now w o t).slots ≤ count_live t.slots
    current none = unfold exit_current in omega arith
    current (some r) =
        unfold exit_current exit_effects update in
        if_cases (λ (u : Table). count_live u.slots ≤ count_live t.slots) (takes_exit expected r) _
          _
          (λ _. omega (
            arith,
            clean_le w r.id r.ref (
                exit_effects fl now r
                  (update r.ref (exit_rec t.has_completion_hook t.acquire_grace now) t)),
            count_live-modify_le r.ref (exit_rec t.has_completion_hook t.acquire_grace now) t.slots
                (λ s h.
                  absurd (cc (h, exit_rec_stopping t.has_completion_hook t.acquire_grace now s))),
          ))
          (λ _. omega arith)

sample_rec_live : (u : Usage) (r : SlotRec) → is_live (sample_rec u r).state ≡ is_live r.state
unfolding sample_rec
sample_rec_live u r =
    if_cases (λ (x : SlotRec). is_live x.state ≡ is_live r.state)
      (not r.cleaning && not r.cleanup_pending) _ _ (λ _. refl) (λ _. refl)

sample_targets_le :
    (sampler : SlotId → Option Usage) (rs : List SlotRec) (t : Table)
    → count_live (sample_targets sampler rs t).slots ≤ count_live t.slots
unfolding sample_targets
sample_targets_le sampler [] t = omega arith
sample_targets_le sampler (r ∷ rs) t =
    let one : count_live (sample_target (sampler r.id) r.ref t).slots ≤ count_live t.slots =
      read (sampler r.id) in
    let rest = sample_targets_le sampler rs (sample_target (sampler r.id) r.ref t) in
    omega (arith, one, rest)
  where
    read : (o : Option Usage) → count_live (sample_target o r.ref t).slots ≤ count_live t.slots
    read none = unfold sample_target in omega arith
    read (some u) =
        unfold sample_target sample update in
        count_live-modify_le r.ref (sample_rec u) t.slots (λ x h. sym (sample_rec_live u x) ∙ h)

-- A tick of the sampler does not raise the count.
pub sample_tick_le :
    (sampler : SlotId → Option Usage) (t : Table)
    → count_live (sample_tick sampler t).slots ≤ count_live t.slots
unfolding sample_tick
sample_tick_le sampler t = sample_targets_le sampler (keep (λ r. is_sampled r.state) t.slots) t
