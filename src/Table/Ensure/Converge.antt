-- ===== src/Table/Ensure/Converge.antt =====
-- Ensure where every start succeeds.
use tentacles.Base.{
  ℕ, zero, suc, ◌+◌, ◌-◌, ◌≤◌, ◌<◌, ◌≡◌, refl, sym, ap, ◌∙◌, Bool, true, false, Option, none, some,
  List, [], ◌∷◌, Text, arith, length, keep, Bool-cases, inl, inr, if_cases, if_true, if_false,
  if◌then◌else◌, subst,
}
use tentacles.Base.Float.{FloatOps}
use tentacles.Slot.{SlotId, Slot, is_live}
use tentacles.UnitName.{max_slot_id}
use tentacles.Table.{Table, count_live, snapshot, update, emit}
use tentacles.Table.Claim.{
  Message, claim, mark_result, deliver, deliver_all, job_started, job_completed,
}
use tentacles.Table.Clean.{pending}
use tentacles.Table.Start.{
  Places, Attempt, ready, reserve, name_runner, name_rec, set_idle, emit_started, note_launch,
  launch_slot, start_at, start_one,
}
use tentacles.Table.Ensure.{
  World, LoopEnd, satisfied, enough, round_end, start_loop, finish, ensure,
}
use tentacles.Table.Ensure.Count.{start_one_live, emit_started-slots}
use tentacles.Table.Ensure.Size.{length-modify, length-deliver_all, next_id-some}
use tentacles.Table.Ensure.Settled.{retry_cleanup_none, stop_surplus_none, enough_live}

-- A start whose outside calls all succeed.
pub record Succeeds (a : Attempt) : Type 0 where
  pub may_start : a.allowed ≡ true
  pub admitted : (live : List Slot) → a.gate live ≡ true
  pub runner_name : Text
  pub idle_at : ℕ
  pub launches : a.launch ≡ ready runner_name idle_at

deliver_all-closed : (ms : List Message) (t : Table) → (deliver_all ms t).is_closed ≡ t.is_closed
unfolding deliver_all
deliver_all-closed [] t = refl
deliver_all-closed (m ∷ ms) t = deliver_all-closed ms (deliver m t) ∙ one m
  where
    one : (m : Message) → (deliver m t).is_closed ≡ t.is_closed
    one (job_started job now) = unfold deliver claim in refl
    one (job_completed name res) =
        unfold deliver mark_result in
        if_cases (λ (u : Table). u.is_closed ≡ t.is_closed) _ _ _ (λ _. refl) (λ _. refl)

emit_started-closed : (p : ℕ) (t : Table) → (emit_started p t).is_closed ≡ t.is_closed
unfolding emit_started emit
emit_started-closed p t = ground arith

-- What a successful start leaves: the table is as open as it was, and tracks one slot more.
launch_ready :
    (fl : FloatOps) (places : Places) (a : Attempt) (i : SlotId) (name : Text) (now : ℕ) (t : Table)
    → let u = (launch_slot places a i t.next_ref (ready name now) (reserve fl places a i t)).0 in
      (u.is_closed ≡ t.is_closed) × (length u.slots ≡ suc (length t.slots))
unfolding launch_slot update note_launch name_runner reserve
launch_ready fl places a i name now t = (
  emit_started-closed t.next_ref _ ∙ deliver_all-closed a.during _,
  ap length (emit_started-slots t.next_ref _)
      ∙ length-modify t.next_ref (set_idle now) _
      ∙ length-deliver_all a.during _
      ∙ length-modify t.next_ref (name_rec name (places.jit_file i))
          (reserve fl places a i t).slots,
)

abbrev Started : Table → Table × Option SlotId → Type 0
Started t done =
    (i : SlotId) × (done.1 ≡ some i)
    × (done.0.is_closed ≡ t.is_closed)
    × (length done.0.slots ≡ suc (length t.slots))

start_at_ready :
    (fl : FloatOps) (places : Places) (a : Attempt) (i : SlotId) (t : Table)
    → Succeeds a
    → Started t (start_at fl places a (some i) t)
unfolding start_at
start_at_ready fl places a i t s =
    let left = launch_ready fl places a i s.runner_name s.idle_at t in
    subst
      (λ l.
        let done = launch_slot places a i t.next_ref l (reserve fl places a i t) in
        Started t (done.0, if done.1 then some i else none))
      (sym s.launches) (i, unfold launch_slot in refl, left.0, left.1)

start_one_ready :
    (fl : FloatOps) (places : Places) (a : Attempt) (t : Table)
    → Succeeds a
    → t.is_closed ≡ false
    → length t.slots < max_slot_id
    → Started t (start_one fl places a t)
unfolding start_one
start_one_ready fl places a t s o h =
    let (i, e) = next_id-some t.slots h in
    subst (Started t)
      (sym (
        if_true a.allowed _ _ s.may_start
        ∙ if_true (a.gate (snapshot is_live t.slots)) _ _ (s.admitted (snapshot is_live t.slots))
        ∙ if_false t.is_closed _ _ o
        ∙ ap (λ free. start_at fl places a free t) e))
      (start_at_ready fl places a i t s)

loop_converges :
    (rounds : ℕ) (fl : FloatOps) (places : Places) (w : World) (target k : ℕ) (t : Table)
    → ((j : ℕ) → Succeeds (w.attempt j))
    → ((j : ℕ) → w.start_expired j ≡ false)
    → t.is_closed ≡ false
    → count_live t.slots ≤ target
    → target - count_live t.slots ≤ rounds
    → length t.slots + (target - count_live t.slots) ≤ max_slot_id
    → (count_live (start_loop rounds fl places w target k t).0.slots ≡ target)
      × ((start_loop rounds fl places w target k t).1 ≡ satisfied)
unfolding start_loop
loop_converges zero fl places w target k t s x o low r room =
    (omega arith, rw (enough_live target t (omega arith)))
loop_converges (suc rounds) fl places w target k t s x o low r room =
    elim (Bool-cases (enough target t)) [
      | inl e ↦ rw e (reached e, refl)
      | inr e ↦
          let missing = short e in
          let (i, q, open_, more) =
            start_one_ready fl places (w.attempt k) t (s k) o (omega arith) in
          let lives = start_one_live fl places (w.attempt k) t i q in
          let rest =
            loop_converges rounds fl places w target (suc k) (start_one fl places (w.attempt k) t).0
              s x (open_ ∙ o) (omega arith) (omega arith) (omega arith) in
          rw (e, x k)
            (goes_on (start_one fl places (w.attempt k) t)
              (start_loop rounds fl places w target (suc k) (start_one fl places (w.attempt k) t).0)
              i q rest)
    ]
  where
    reached : enough target t ≡ true → count_live t.slots ≡ target
    reached e = unfold enough in ground arith

    short : enough target t ≡ false → count_live t.slots < target
    short e = unfold enough in ground arith

    goes_on :
        (tried : Table × Option SlotId) (rest : Table × LoopEnd) (i : SlotId)
        → tried.1 ≡ some i
        → (count_live rest.0.slots ≡ target) × (rest.1 ≡ satisfied)
        → (count_live (round_end tried rest).0.slots ≡ target)
          × ((round_end tried rest).1 ≡ satisfied)
    goes_on (u, none) rest i q h = absurd (cc q)
    goes_on (u, some j) rest i q h = unfold round_end in h

-- If Ensure gets the operation lock, its context does not end, the table is open, has no pending
-- cleanup and no more live slots than desired, there are IDs for the missing ones, and every start
-- succeeds, whatever messages arrive meanwhile, then Ensure returns without an error and with exactly
-- as many live slots as desired.
pub ensure_converges :
    (fl : FloatOps) (places : Places) (w : World) (target : ℕ) (t : Table)
    → w.acquired ≡ true
    → ((j : ℕ) → w.start_expired j ≡ false)
    → w.expired_at_end ≡ false
    → ((j : ℕ) → Succeeds (w.attempt j))
    → t.is_closed ≡ false
    → keep pending t.slots ≡ []
    → count_live t.slots ≤ target
    → length t.slots + (target - count_live t.slots) ≤ max_slot_id
    → (count_live (ensure fl places w target t).0.slots ≡ target)
      × ((ensure fl places w target t).1 ≡ true)
unfolding ensure
ensure_converges fl places w target t got x end s o p low room =
    subst (λ (done : Table × Bool). (count_live done.0.slots ≡ target) × (done.1 ≡ true))
      (sym (if_true w.acquired _ (t, false) got))
      (rw (retry_cleanup_none w t p) (
        finished (start_loop (target - count_live t.slots) fl places w target 0 t) (
          loop_converges (target - count_live t.slots) fl places w target 0 t s x o low
            (omega arith) room)))
  where
    finished :
        (looped : Table × LoopEnd)
        → (count_live looped.0.slots ≡ target) × (looped.1 ≡ satisfied)
        → (count_live (finish fl w target looped).0.slots ≡ target)
          × ((finish fl w target looped).1 ≡ true)
    finished (u, how) (c, e) = rw e (
        unfold finish in
        (
          ap (λ (v : Table). count_live v.slots)
                (stop_surplus_none fl w w.select_time target u (omega arith))
              ∙ c,
          if_false w.expired_at_end false true end,
        ))
