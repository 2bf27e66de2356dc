-- ===== src/Table/Ensure/Size.antt =====
-- How many slots a table tracks, and that a table with room has a free ID.
use tentacles.Base.{
  ℕ, zero, suc, ◌+◌, ◌≤◌, ◌<◌, ◌≡◌, ◌≢◌, refl, sym, ap, ◌∙◌, none, some, Option, List, [], ◌∷◌,
  Text, arith, length, ◌==◌, if◌then◌else◌, if_cases, text_eq,
}
use tentacles.Slot.{SlotId, ClaimJob}
use tentacles.UnitName.{max_slot_id}
use tentacles.Table.{SlotRec, Table, at_id, modify}
use tentacles.Table.Claim.{
  claim, claim_slots, mark_result, result_slots, Message, job_started, job_completed, deliver,
  deliver_all,
}
use tentacles.Table.Start.{next_id}
use tentacles.Table.Start.NextId.{next_id_lowest, Finds}

pub length-modify :
    (p : ℕ) (f : SlotRec → SlotRec) (rs : List SlotRec) → length (modify p f rs) ≡ length rs
unfolding modify
length-modify p f [] = refl
length-modify p f (r ∷ rs) = ap suc (length-modify p f rs)

length-claim_slots :
    (job : ClaimJob) (now : ℕ) (rs : List SlotRec) → length (claim_slots job now rs).0 ≡ length rs
unfolding claim_slots
length-claim_slots job now [] = refl
length-claim_slots job now (r ∷ rs) = ground (arith, length-claim_slots job now rs)

length-result_slots :
    (name res : Text) (rs : List SlotRec) → length (result_slots name res rs) ≡ length rs
unfolding result_slots
length-result_slots name res [] = refl
length-result_slots name res (r ∷ rs) = ground (arith, length-result_slots name res rs)

length-deliver : (m : Message) (t : Table) → length (deliver m t).slots ≡ length t.slots
unfolding deliver claim mark_result
length-deliver (job_started job now) t = length-claim_slots job now t.slots
length-deliver (job_completed name res) t =
    if_cases (λ (u : Table). length u.slots ≡ length t.slots) (text_eq res []) _ _ (λ _. refl)
      (λ _. length-result_slots name res t.slots)

pub length-deliver_all :
    (ms : List Message) (t : Table) → length (deliver_all ms t).slots ≡ length t.slots
unfolding deliver_all
length-deliver_all [] t = refl
length-deliver_all (m ∷ ms) t = length-deliver_all ms (deliver m t) ∙ length-deliver m t

-- The records of other IDs.
others : SlotId → List SlotRec → List SlotRec
others i [] = []
others i (r ∷ rs) = let rest = others i rs in if r.id == i then rest else r ∷ rest

length-others-le : (i : SlotId) (rs : List SlotRec) → length (others i rs) ≤ length rs
unfolding others
length-others-le i [] = omega arith
length-others-le i (r ∷ rs) = ground (arith, length-others-le i rs)

length-others :
    (i : SlotId) (rs : List SlotRec) → at_id i rs ≢ none → length (others i rs) < length rs
unfolding others at_id
length-others i [] taken = absurd (taken refl)
length-others i (r ∷ rs) taken = ground (arith, length-others-le i rs, length-others i rs)

at_id-others : (i j : SlotId) (rs : List SlotRec) → j ≢ i → at_id j (others i rs) ≡ at_id j rs
unfolding others at_id
at_id-others i j [] ne = refl
at_id-others i j (r ∷ rs) ne = ground (arith, at_id-others i j rs ne)

-- If `count` IDs in a row are taken, there are as many records.
count_taken :
    (count : ℕ) (n : SlotId) (rs : List SlotRec)
    → ((j : SlotId) → n ≤ j → j < n + count → at_id j rs ≢ none)
    → count ≤ length rs
count_taken zero n rs h = omega arith
count_taken (suc count) n rs h = omega (
  arith,
  length-others n rs (h n (omega arith) (omega arith)),
  count_taken count (suc n) (others n rs) (λ j low high e.
      h j (omega arith) (omega arith)
        (sym (at_id-others n j rs (λ same. absurd (omega arith))) ∙ e)),
)

-- A table that tracks fewer slots than there are IDs has a free one.
pub next_id-some :
    (rs : List SlotRec) → length rs < max_slot_id → (i : SlotId) × (next_id rs ≡ some i)
next_id-some rs h = found (next_id rs) refl
  where
    found : (o : Option SlotId) → next_id rs ≡ o → (i : SlotId) × (next_id rs ≡ some i)
    found (some i) e = (i, e)
    found none e =
        let full : Finds max_slot_id 1 rs none = rw e at (next_id_lowest rs) in
        absurd (omega (arith, count_taken max_slot_id 1 rs full))
