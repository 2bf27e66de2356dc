-- ===== src/Table/Start/NextId.antt =====
-- nextIDLocked: which ID it gives.
use tentacles.Base.{
  ℕ, zero, suc, ◌+◌, ◌≤◌, ◌<◌, ◌≡◌, ◌≢◌, true, false, Option, none, some, List, arith, Bool-cases,
  inl, inr, subst,
}
use native.Mathlib.Decide.{ℕ_discrete as dec_eq}
use tentacles.Slot.{SlotId}
use tentacles.UnitName.{max_slot_id}
use tentacles.Table.{SlotRec, at_id}
use tentacles.Table.Start.{id_free, next_id_from, next_id}

pub id_free-none : (i : SlotId) (rs : List SlotRec) → id_free i rs ≡ true → at_id i rs ≡ none
unfolding id_free
id_free-none i rs h = ground arith

taken_of_not_free : (i : SlotId) (rs : List SlotRec) → id_free i rs ≡ false → at_id i rs ≢ none
unfolding id_free
taken_of_not_free i rs h = ground arith

-- What the loop over `count` IDs from `n` says of its result.
abbrev pub Finds : ℕ → SlotId → List SlotRec → Option SlotId → Type 0
Finds count n rs (some i) =
    (at_id i rs ≡ none)
    × (n ≤ i)
    × (i < n + count)
    × ((j : SlotId) → n ≤ j → j < i → at_id j rs ≢ none)
Finds count n rs none = (j : SlotId) → n ≤ j → j < n + count → at_id j rs ≢ none

Finds-suc :
    (count : ℕ) (n : SlotId) (rs : List SlotRec) (o : Option SlotId)
    → at_id n rs ≢ none
    → Finds count (suc n) rs o
    → Finds (suc count) n rs o
Finds-suc count n rs none taken h =
    λ j low high. elim (dec_eq j n) [ yes e ↦ rw e taken | no e ↦ h j (omega arith) (omega arith) ]
Finds-suc count n rs (some i) taken h = (
  h.0,
  omega arith,
  omega arith,
  λ j low high. elim (dec_eq j n) [ yes e ↦ rw e taken | no e ↦ h.3 j (omega arith) (omega arith) ],
)

next_id_from-Finds :
    (count : ℕ) (n : SlotId) (rs : List SlotRec) → Finds count n rs (next_id_from count n rs)
unfolding next_id_from
next_id_from-Finds zero n rs = λ j low high. absurd (omega arith)
next_id_from-Finds (suc count) n rs = elim (Bool-cases (id_free n rs)) [
  | inl e ↦ rw e (id_free-none n rs e, omega arith, omega arith, λ j low high. absurd (omega arith))
  | inr e ↦ rw e (
      Finds-suc count n rs (next_id_from count (suc n) rs) (taken_of_not_free n rs e)
        (next_id_from-Finds count (suc n) rs))
]

-- nextIDLocked gives the lowest ID from 1 to 9999 that no tracked slot has, and gives none only if
-- tracked slots have them all.
pub next_id_lowest : (rs : List SlotRec) → Finds max_slot_id 1 rs (next_id rs)
unfolding next_id
next_id_lowest rs = next_id_from-Finds max_slot_id 1 rs

pub next_id_fresh :
    (rs : List SlotRec) (i : SlotId)
    → next_id rs ≡ some i
    → (at_id i rs ≡ none) × (1 ≤ i) × (i ≤ max_slot_id)
next_id_fresh rs i e =
    let found = subst (Finds max_slot_id 1 rs) e (next_id_lowest rs) in
    (found.0, found.1, omega arith)
