-- ===== src/Table/Ensure/Count.antt =====
-- The live count through the starts of Ensure.
use tentacles.Base.{
  ℕ, suc, ◌≡◌, refl, ◌∙◌, ap, true, Option, none, some, List, [], ◌∷◌, Text, arith, if_cases,
  text_eq,
}
use tentacles.Base.Float.{FloatOps}
use tentacles.Slot.{SlotId, is_live, ClaimJob}
use tentacles.Table.{SlotRec, Table, count_live, modify, update, emit, snapshot}
use tentacles.Table.Claim.{
  claim, claim_rec, claim_slots, mark_result, result_slots, Message, job_started, job_completed,
  deliver, deliver_all,
}
use tentacles.Table.Start.{
  Places, Attempt, Launch, mkdir_failed, materialize_failed, jit_failed, write_failed, not_started,
  uncertain, ready, reserve, name_runner, name_rec, set_idle, emit_started, note_launch,
  launch_slot, start_at, start_one, next_id, new_rec, fresh_slot,
}

-- A change that keeps a slot in or out of service keeps the count.
pub count_live-modify :
    (p : ℕ) (f : SlotRec → SlotRec) (rs : List SlotRec)
    → ((r : SlotRec) → is_live (f r).state ≡ is_live r.state)
    → count_live (modify p f rs) ≡ count_live rs
unfolding count_live modify
count_live-modify p f [] k = refl
count_live-modify p f (r ∷ rs) k = ground (arith, k r, count_live-modify p f rs k)

pub claim_rec_live :
    (job : ClaimJob) (now : ℕ) (r : SlotRec) → is_live (claim_rec job now r).state ≡ is_live r.state
unfolding claim_rec
claim_rec_live job now r = ground arith

count_live-claim_slots :
    (job : ClaimJob) (now : ℕ) (rs : List SlotRec)
    → count_live (claim_slots job now rs).0 ≡ count_live rs
unfolding count_live claim_slots
count_live-claim_slots job now [] = refl
count_live-claim_slots job now (r ∷ rs) =
    ground (arith, claim_rec_live job now r, count_live-claim_slots job now rs)

count_live-result_slots :
    (name res : Text) (rs : List SlotRec) → count_live (result_slots name res rs) ≡ count_live rs
unfolding count_live result_slots
count_live-result_slots name res [] = refl
count_live-result_slots name res (r ∷ rs) = ground (arith, count_live-result_slots name res rs)

count_live-deliver : (m : Message) (t : Table) → count_live (deliver m t).slots ≡ count_live t.slots
unfolding deliver claim mark_result
count_live-deliver (job_started job now) t = count_live-claim_slots job now t.slots
count_live-deliver (job_completed name res) t =
    if_cases (λ (u : Table). count_live u.slots ≡ count_live t.slots) (text_eq res []) _ _
      (λ _. refl) (λ _. count_live-result_slots name res t.slots)

pub count_live-deliver_all :
    (ms : List Message) (t : Table) → count_live (deliver_all ms t).slots ≡ count_live t.slots
unfolding deliver_all
count_live-deliver_all [] t = refl
count_live-deliver_all (m ∷ ms) t = count_live-deliver_all ms (deliver m t) ∙ count_live-deliver m t

set_idle_live : (now : ℕ) (r : SlotRec) → is_live (set_idle now r).state ≡ is_live r.state
unfolding set_idle
set_idle_live now r = ground arith

pub emit_started-slots : (p : ℕ) (t : Table) → (emit_started p t).slots ≡ t.slots
unfolding emit_started emit
emit_started-slots p t = ground arith

pub count_live-ready :
    (places : Places) (a : Attempt) (i : SlotId) (p : ℕ) (name : Text) (now : ℕ) (t : Table)
    → count_live (launch_slot places a i p (ready name now) t).0.slots ≡ count_live t.slots
unfolding launch_slot update note_launch name_runner
count_live-ready places a i p name now t =
    ap count_live (emit_started-slots p _)
    ∙ count_live-modify p (set_idle now) _ (set_idle_live now)
    ∙ count_live-deliver_all a.during _
    ∙ count_live-modify p _ t.slots (λ r. unfold name_rec in refl)

pub count_live-reserve :
    (fl : FloatOps) (places : Places) (a : Attempt) (i : SlotId) (t : Table)
    → count_live (reserve fl places a i t).slots ≡ suc (count_live t.slots)
unfolding reserve new_rec fresh_slot count_live
count_live-reserve fl places a i t = refl

-- A launch says that a runner has started only if every step of it succeeded.
launched_ready :
    (places : Places) (a : Attempt) (i : SlotId) (p : ℕ) (l : Launch) (t : Table)
    → (launch_slot places a i p l t).1 ≡ true
    → count_live (launch_slot places a i p l t).0.slots ≡ count_live t.slots
unfolding launch_slot
launched_ready places a i p mkdir_failed t h = cc
launched_ready places a i p materialize_failed t h = cc
launched_ready places a i p jit_failed t h = cc
launched_ready places a i p (write_failed name) t h = cc
launched_ready places a i p (not_started name) t h = cc
launched_ready places a i p (uncertain name) t h = cc
launched_ready places a i p (ready name now) t h = count_live-ready places a i p name now t

start_at_live :
    (fl : FloatOps) (places : Places) (a : Attempt) (o : Option SlotId) (t : Table) (i : SlotId)
    → (start_at fl places a o t).1 ≡ some i
    → count_live (start_at fl places a o t).0.slots ≡ suc (count_live t.slots)
unfolding start_at
start_at_live fl places a none t i h = cc
start_at_live fl places a (some j) t i h =
    launched_ready places a j t.next_ref a.launch (reserve fl places a j t) (ground arith)
    ∙ count_live-reserve fl places a j t

-- A start that reports a slot, whatever messages arrived during it, has added one live slot.
pub start_one_live :
    (fl : FloatOps) (places : Places) (a : Attempt) (t : Table) (i : SlotId)
    → (start_one fl places a t).1 ≡ some i
    → count_live (start_one fl places a t).0.slots ≡ suc (count_live t.slots)
unfolding start_one
start_one_live fl places a t i =
    if_cases Adds a.allowed _ _
      (λ _.
        if_cases Adds (a.gate (snapshot is_live t.slots)) _ _
          (λ _.
            if_cases Adds t.is_closed _ _ (λ _ h. cc)
              (λ _. start_at_live fl places a (next_id t.slots) t i))
          (λ _ h. cc))
      (λ _ h. cc)
  where
    Adds : Table × Option SlotId → Type 0
    Adds done = done.1 ≡ some i → count_live done.0.slots ≡ suc (count_live t.slots)
