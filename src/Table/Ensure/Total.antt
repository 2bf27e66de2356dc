-- ===== src/Table/Ensure/Total.antt =====
-- The live count through the stops and through Ensure as a whole.
use tentacles.Base.{
  ℕ, zero, suc, ◌+◌, ◌-◌, ◌≤◌, ◌≡◌, refl, sym, Bool, true, false, Option, none, some, List, [], ◌∷◌,
  arith, if_cases, max, length, leb, ◌||◌, keep, ◌==◌,
}
use tentacles.Base.Float.{FloatOps}
use tentacles.Slot.{SlotId}
use tentacles.Table.{SlotRec, Table, count_live, modify, update, emit}
use tentacles.Table.Clean.{Worker, pending, retry_cleanup}
use tentacles.Table.Start.{Places, start_one}
use tentacles.Table.Surplus.{
  chosen, mark_stopping, select_surplus, revert_rec, StopWorld, note_stop, stop_one, stop_all,
  stop_surplus,
}
use tentacles.Table.Surplus.Count.{mark_chosen_count}
use tentacles.Table.Invariant.{Inv}
use tentacles.Table.Invariant.Preserved.{Reach-Inv}
use tentacles.Table.Laws.{FreshRef, Distinct}
use tentacles.Table.Runs.Surplus.{
  Unclaimed, chosen-Unclaimed, stop_one-Unclaimed, stop_one-Reach, mark_stopping-Reach,
  select-Unclaimed,
}
use tentacles.Table.Runs.Start.{start_one-Reach}
use tentacles.Table.Runs.Release.{retry_cleanup-Reach}
use tentacles.Table.Runs.Ensure.{start_loop-Reach}
use tentacles.Table.Ensure.{
  World, LoopEnd, satisfied, start_failed, cancelled, out_of_rounds, enough, round_end, start_loop,
  finish, ensure, shutdown,
}
use tentacles.Table.Ensure.Bound.{retry_all_le, observe_exit_le}
use tentacles.Table.Ensure.Ceiling.{start_one_le}

modify_fresh :
    (p : ℕ) (f : SlotRec → SlotRec) (rs : List SlotRec)
    → FreshRef p rs
    → count_live (modify p f rs) ≡ count_live rs
unfolding modify count_live
modify_fresh p f [] h = refl
modify_fresh p f (r ∷ rs) h = ground (arith, modify_fresh p f rs h.1)

-- A change of one record adds at most one live slot.
modify_one :
    (p : ℕ) (f : SlotRec → SlotRec) (rs : List SlotRec)
    → Distinct rs
    → count_live (modify p f rs) ≤ suc (count_live rs)
unfolding modify count_live
modify_one p f [] d = omega arith
modify_one p f (r ∷ rs) d =
    if_cases (λ (s : SlotRec). count_live (s ∷ modify p f rs) ≤ suc (count_live (r ∷ rs)))
      (r.ref == p) _ _
      (λ e.
        let same : r.ref ≡ p = ground arith in
        let rest : count_live (modify p f rs) ≡ count_live rs =
          modify_fresh p f rs (rw (sym same) d.1) in
        unfold count_live in ground (arith, rest))
      (λ e. unfold count_live in ground (arith, modify_one p f rs d.2))

stop_one_le :
    (fl : FloatOps) (w : StopWorld) (c : SlotRec) (t : Table)
    → Inv t
    → count_live (stop_one fl w c t).slots ≤ suc (count_live t.slots)
unfolding stop_one note_stop emit update
stop_one_le fl w c t v =
    if_cases (λ (u : Table). count_live u.slots ≤ suc (count_live t.slots)) (w.stops c.id) _ _
      (λ _.
        omega (arith, observe_exit_le fl c.id (some c.ref) (w.exit_time c.id) (w.worker c.id) _))
      (λ _. modify_one c.ref (revert_rec c.state) t.slots v.distinct)

stop_all_le :
    (fl : FloatOps) (w : StopWorld) (cs : List SlotRec) (t : Table)
    → Inv t
    → Unclaimed cs t.slots
    → count_live (stop_all fl w cs t).slots ≤ count_live t.slots + length cs
unfolding stop_all
stop_all_le fl w [] t v h = omega arith
stop_all_le fl w (c ∷ cs) t v h =
    let u = stop_one fl w c t in
    omega (
      arith,
      stop_one_le fl w c t v,
      stop_all_le fl w cs u (Reach-Inv (stop_one-Reach fl w c t h.0) v)
          (stop_one-Unclaimed fl w c t cs h.1),
    )

-- Stopping surplus slots does not raise the count, also when stops fail.
pub stop_surplus_le :
    (fl : FloatOps) (w : StopWorld) (ignore_grace : Bool) (now target : ℕ) (t : Table)
    → Inv t
    → count_live (stop_surplus fl w ignore_grace now target t).slots ≤ count_live t.slots
unfolding stop_surplus select_surplus
stop_surplus_le fl w ignore_grace now target t v =
    let cs = chosen ignore_grace now target t in
    let u : Table = record t { slots = mark_stopping cs t.slots } in
    omega (
      arith,
      stop_all_le fl w cs u (Reach-Inv (mark_stopping-Reach cs t) v)
          (select-Unclaimed cs cs t.slots (chosen-Unclaimed ignore_grace now target t v)),
      mark_chosen_count ignore_grace now target t v,
    )

-- Between two counts.
abbrev Within : ℕ → ℕ → Table → Type 0
Within n target u = count_live u.slots ≤ max n target

start_loop_le :
    (rounds : ℕ) (fl : FloatOps) (places : Places) (w : World) (target k n : ℕ) (t : Table)
    → Inv t
    → Within n target t
    → Within n target (start_loop rounds fl places w target k t).0
unfolding start_loop enough
start_loop_le zero fl places w target k n t v h = h
start_loop_le (suc rounds) fl places w target k n t v h =
    if_cases (λ (done : Table × LoopEnd). Within n target done.0)
      (t.is_closed || leb target (count_live t.slots)) _ _ (λ _. h)
      (λ missing.
        let tried = start_one fl places (w.attempt k) t in
        let below : Within n target tried.0 =
          ground (arith, missing, start_one_le fl places (w.attempt k) t v) in
        if_cases (λ (done : Table × LoopEnd). Within n target done.0) (w.start_expired k) _ _
          (λ _. h)
          (λ _. ended tried _ below (
            start_loop_le rounds fl places w target (suc k) n tried.0
              (Reach-Inv (start_one-Reach fl places (w.attempt k) t v) v) below)))
  where
    ended :
        (tried : Table × Option SlotId) (rest : Table × LoopEnd)
        → Within n target tried.0
        → Within n target rest.0
        → Within n target (round_end tried rest).0
    ended (u, none) rest x y = unfold round_end in x
    ended (u, some i) rest x y = unfold round_end in y

finish_le :
    (fl : FloatOps) (w : World) (target n : ℕ) (done : Table × LoopEnd)
    → Inv done.0
    → Within n target done.0
    → Within n target (finish fl w target done).0
unfolding finish
finish_le fl w target n (u, cancelled) v h = h
finish_le fl w target n (u, satisfied) v h =
    omega (arith, h, stop_surplus_le fl w.stop false w.select_time target u v)
finish_le fl w target n (u, start_failed) v h =
    omega (arith, h, stop_surplus_le fl w.stop false w.select_time target u v)
finish_le fl w target n (u, out_of_rounds) v h =
    omega (arith, h, stop_surplus_le fl w.stop false w.select_time target u v)

-- From a table in which the invariant holds, Ensure leaves no more live slots than there were before or
-- than are desired, whichever is more, whatever the outside calls answer, launches of an uncertain
-- outcome and failed stops included.
pub ensure_ceiling :
    (fl : FloatOps) (places : Places) (w : World) (target : ℕ) (t : Table)
    → Inv t
    → count_live (ensure fl places w target t).0.slots ≤ max (count_live t.slots) target
unfolding ensure
ensure_ceiling fl places w target t v =
    let retried = retry_cleanup w.retry_expired w.retry_expired_at w.retry_worker t in
    let first =
      Reach-Inv (retry_cleanup-Reach w.retry_expired w.retry_expired_at w.retry_worker t v) v in
    let rounds = target - count_live retried.slots in
    let looped = start_loop rounds fl places w target 0 retried in
    let below : count_live retried.slots ≤ count_live t.slots =
      unfold retry_cleanup in
      if_cases (λ (u : Table). count_live u.slots ≤ count_live t.slots) w.retry_expired _ _
        (λ _. omega arith)
        (λ _. retry_all_le w.retry_expired_at w.retry_worker (keep pending t.slots) t) in
    if_cases (λ (done : Table × Bool). Within (count_live t.slots) target done.0) w.acquired _ _
      (λ _.
        finish_le fl w target (count_live t.slots) looped
          (Reach-Inv (start_loop-Reach rounds fl places w target 0 retried first) first)
          (start_loop_le rounds fl places w target 0 (count_live t.slots) retried first
            (omega (arith, below))))
      (λ _. omega arith)

retry_cleanup_le :
    (now : Bool) (expired : SlotId → Bool) (worker : SlotId → Worker) (t : Table)
    → count_live (retry_cleanup now expired worker t).slots ≤ count_live t.slots
unfolding retry_cleanup
retry_cleanup_le now expired worker t =
    if_cases (λ (u : Table). count_live u.slots ≤ count_live t.slots) now _ _ (λ _. omega arith)
      (λ _. retry_all_le expired worker (keep pending t.slots) t)

-- Shutdown does not raise the count.
pub shutdown_le :
    (fl : FloatOps) (w : World) (t : Table)
    → Inv t
    → count_live (shutdown fl w t).0.slots ≤ count_live t.slots
unfolding shutdown
shutdown_le fl w t v =
    let retried = retry_cleanup w.retry_expired w.retry_expired_at w.retry_worker t in
    let sound : Inv retried =
      Reach-Inv (retry_cleanup-Reach w.retry_expired w.retry_expired_at w.retry_worker t v) v in
    let first = retry_cleanup_le w.retry_expired w.retry_expired_at w.retry_worker t in
    let second = stop_surplus_le fl w.stop true w.select_time 0 retried sound in
    if_cases (λ (done : Table × Bool). count_live done.0.slots ≤ count_live t.slots) w.acquired _ _
      (λ _. omega (arith, first, second)) (λ _. omega arith)
