-- ===== src/Table/Claim/Live.antt =====
-- The messages of the listener and the number of live slots.
use tentacles.Base.{
  ℕ, ◌≡◌, refl, Bool, true, ◌&&◌, ◌||◌, not, List, [], ◌∷◌, Text, text_eq, arith, if_cases,
  Bool-cases, inl, inr,
}
use tentacles.Slot.{State, starting, idle, busy, stopping, failed, empty, is_live, ClaimJob}
use tentacles.Table.{SlotRec, Table, count_live}
use tentacles.Table.Claim.{
  is_unclaimed, is_busy, can_claim, claim_rec, claim_slots, claim, result_slots, mark_result,
}

unclaimed_live :
    (s : State) (c : Bool) → (is_unclaimed s || (is_busy s && c)) ≡ true → is_live s ≡ true
unclaimed_live starting c h = refl
unclaimed_live idle c h = refl
unclaimed_live busy c h = refl
unclaimed_live stopping c h = cc h
unclaimed_live failed c h = cc h
unclaimed_live empty c h = cc h

-- A slot that takes a claim was live, and it is busy afterwards.
claim_rec_live :
    (job : ClaimJob) (now : ℕ) (r : SlotRec) → is_live (claim_rec job now r).state ≡ is_live r.state
unfolding claim_rec
claim_rec_live job now r = elim (Bool-cases (can_claim r)) [
  | inl e ↦
      let live = unclaimed_live r.state (not r.claimed) (unfold can_claim in e) in rw (e, live) refl
  | inr e ↦ rw e refl
]

claim_slots_live :
    (job : ClaimJob) (now : ℕ) (rs : List SlotRec)
    → count_live (claim_slots job now rs).0 ≡ count_live rs
unfolding claim_slots count_live
claim_slots_live job now [] = refl
claim_slots_live job now (r ∷ rs) =
    ground (arith, claim_rec_live job now r, claim_slots_live job now rs)

pub count_live-claim :
    (job : ClaimJob) (now : ℕ) (t : Table)
    → count_live (claim job now t).0.slots ≡ count_live t.slots
unfolding claim
count_live-claim job now t = claim_slots_live job now t.slots

result_slots_live :
    (name res : Text) (rs : List SlotRec) → count_live (result_slots name res rs) ≡ count_live rs
unfolding result_slots count_live
result_slots_live name res [] = refl
result_slots_live name res (r ∷ rs) = ground (arith, result_slots_live name res rs)

pub count_live-mark_result :
    (name res : Text) (t : Table) → count_live (mark_result name res t).slots ≡ count_live t.slots
unfolding mark_result
count_live-mark_result name res t =
    if_cases (λ (u : Table). count_live u.slots ≡ count_live t.slots) (text_eq res []) _ _
      (λ _. refl) (λ _. result_slots_live name res t.slots)
