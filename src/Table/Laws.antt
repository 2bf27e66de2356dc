-- ===== src/Table/Laws.antt =====
-- Facts about the table's list of records, for the proofs about its operations.
use tentacles.Base.{ℕ, ◌≡◌, refl, ◌≢◌, none, List, [], ◌∷◌, arith, All}
use tentacles.Slot.{SlotId}
use tentacles.Table.{SlotRec, at_id, modify, remove}

-- No record of the list has the ID; none has the address.
abbrev pub FreshId : SlotId → List SlotRec → Type 0
FreshId i = All (λ r. r.id ≢ i)

abbrev pub FreshRef : ℕ → List SlotRec → Type 0
FreshRef p = All (λ r. r.ref ≢ p)

-- IDs and addresses are distinct.
abbrev pub Distinct : List SlotRec → Type 0
Distinct [] = Unit
Distinct (r ∷ rs) = FreshId r.id rs × FreshRef r.ref rs × Distinct rs

-- What a change of a record keeps.
abbrev pub KeepsIdentity : (SlotRec → SlotRec) → Type 0
KeepsIdentity f = (r : SlotRec) → ((f r).id ≡ r.id) × ((f r).ref ≡ r.ref)

pub FreshId-modify :
    (i : SlotId) (p : ℕ) (f : SlotRec → SlotRec) (rs : List SlotRec)
    → KeepsIdentity f
    → FreshId i rs
    → FreshId i (modify p f rs)
unfolding modify
FreshId-modify i p f [] k h = tt
FreshId-modify i p f (r ∷ rs) k h = ground (arith, k r, FreshId-modify i p f rs k h.1)

pub FreshRef-modify :
    (q p : ℕ) (f : SlotRec → SlotRec) (rs : List SlotRec)
    → KeepsIdentity f
    → FreshRef q rs
    → FreshRef q (modify p f rs)
unfolding modify
FreshRef-modify q p f [] k h = tt
FreshRef-modify q p f (r ∷ rs) k h = ground (arith, k r, FreshRef-modify q p f rs k h.1)

pub Distinct-modify :
    (p : ℕ) (f : SlotRec → SlotRec) (rs : List SlotRec)
    → KeepsIdentity f
    → Distinct rs
    → Distinct (modify p f rs)
unfolding modify
Distinct-modify p f [] k h = tt
Distinct-modify p f (r ∷ rs) k h = ground (
  arith,
  k r,
  FreshId-modify r.id p f rs k h.0,
  FreshRef-modify r.ref p f rs k h.1,
  Distinct-modify p f rs k h.2,
)

pub FreshId-remove :
    (i : SlotId) (p : ℕ) (rs : List SlotRec) → FreshId i rs → FreshId i (remove p rs)
unfolding remove
FreshId-remove i p [] h = tt
FreshId-remove i p (r ∷ rs) h = ground (arith, FreshId-remove i p rs h.1)

pub FreshRef-remove : (q p : ℕ) (rs : List SlotRec) → FreshRef q rs → FreshRef q (remove p rs)
unfolding remove
FreshRef-remove q p [] h = tt
FreshRef-remove q p (r ∷ rs) h = ground (arith, FreshRef-remove q p rs h.1)

pub Distinct-remove : (p : ℕ) (rs : List SlotRec) → Distinct rs → Distinct (remove p rs)
unfolding remove
Distinct-remove p [] h = tt
Distinct-remove p (r ∷ rs) h =
    ground (
      arith,
      FreshId-remove r.id p rs h.0,
      FreshRef-remove r.ref p rs h.1,
      Distinct-remove p rs h.2,
    )

-- A record that the map does not hold is not changed through its pointer.
pub modify_fresh :
    (p : ℕ) (f : SlotRec → SlotRec) (rs : List SlotRec) → FreshRef p rs → modify p f rs ≡ rs
unfolding modify
modify_fresh p f [] h = refl
modify_fresh p f (r ∷ rs) h = ground (arith, modify_fresh p f rs h.1)

-- An ID is free exactly if the map has no record of it.
pub at_id-none : (i : SlotId) (rs : List SlotRec) → at_id i rs ≡ none → FreshId i rs
unfolding at_id
at_id-none i [] h = tt
at_id-none i (r ∷ rs) h = ground (arith, at_id-none i rs)

pub at_id_fresh : (i : SlotId) (rs : List SlotRec) → FreshId i rs → at_id i rs ≡ none
unfolding at_id
at_id_fresh i [] h = refl
at_id_fresh i (r ∷ rs) h = ground (arith, at_id_fresh i rs h.1)

-- Two lists of records that stand for one another, entry by entry.
abbrev pub Pointwise : (SlotRec → SlotRec → Type 0) → List SlotRec → List SlotRec → Type 0
Pointwise R [] [] = Unit
Pointwise R (r ∷ rs) (s ∷ ss) = R r s × Pointwise R rs ss
Pointwise R _ _ = ⊥

abbrev pub SameIdentity : SlotRec → SlotRec → Type 0
SameIdentity r s = (s.id ≡ r.id) × (s.ref ≡ r.ref)

pub Pointwise-refl :
    (R : SlotRec → SlotRec → Type 0) (rs : List SlotRec)
    → ((r : SlotRec) → R r r)
    → Pointwise R rs rs
Pointwise-refl R [] h = tt
Pointwise-refl R (r ∷ rs) h = (h r, Pointwise-refl R rs h)

pub FreshId-Pointwise :
    (i : SlotId) (rs ss : List SlotRec) → Pointwise SameIdentity rs ss → FreshId i rs → FreshId i ss
FreshId-Pointwise i [] [] h f = tt
FreshId-Pointwise i [] (s ∷ ss) h f = absurd h
FreshId-Pointwise i (r ∷ rs) [] h f = absurd h
FreshId-Pointwise i (r ∷ rs) (s ∷ ss) h f = ground (arith, FreshId-Pointwise i rs ss h.1 f.1)

pub FreshRef-Pointwise :
    (p : ℕ) (rs ss : List SlotRec) → Pointwise SameIdentity rs ss → FreshRef p rs → FreshRef p ss
FreshRef-Pointwise p [] [] h f = tt
FreshRef-Pointwise p [] (s ∷ ss) h f = absurd h
FreshRef-Pointwise p (r ∷ rs) [] h f = absurd h
FreshRef-Pointwise p (r ∷ rs) (s ∷ ss) h f = ground (arith, FreshRef-Pointwise p rs ss h.1 f.1)

pub Distinct-Pointwise :
    (rs ss : List SlotRec) → Pointwise SameIdentity rs ss → Distinct rs → Distinct ss
Distinct-Pointwise [] [] h d = tt
Distinct-Pointwise [] (s ∷ ss) h d = absurd h
Distinct-Pointwise (r ∷ rs) [] h d = absurd h
Distinct-Pointwise (r ∷ rs) (s ∷ ss) h d = (
  rw h.0.0 (FreshId-Pointwise r.id rs ss h.1 d.0),
  rw h.0.1 (FreshRef-Pointwise r.ref rs ss h.1 d.1),
  Distinct-Pointwise rs ss h.1 d.2,
)

pub All-Pointwise :
    (P : SlotRec → Type 0) (rs ss : List SlotRec)
    → Pointwise (λ r s. P r → P s) rs ss
    → All P rs
    → All P ss
All-Pointwise P [] [] h a = tt
All-Pointwise P [] (s ∷ ss) h a = absurd h
All-Pointwise P (r ∷ rs) [] h a = absurd h
All-Pointwise P (r ∷ rs) (s ∷ ss) h a = (h.0 a.0, All-Pointwise P rs ss h.1 a.1)
