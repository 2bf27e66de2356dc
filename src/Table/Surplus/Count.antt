-- ===== src/Table/Surplus/Count.antt =====
-- How many slots stopSurplusContext takes out of service.
use tentacles.Base.{
  ℕ, zero, suc, ◌+◌, ◌-◌, ◌≡◌, refl, ◌∙◌, Bool, true, List, [], ◌∷◌, arith, All, count, keep,
  length, take, min, length-take, length-keep, length-sort_by, sort_by, ◌==◌, Bool-cases, inl, inr,
  ◌≢◌, sym, ◌&&◌, All-take, All-sort_by, All-insert_by, insert_by,
}
use tentacles.Slot.{stopping, is_live}
use tentacles.Table.{SlotRec, Table, count_live, set_state, modify}
use tentacles.Table.Laws.{FreshRef, Distinct}
use tentacles.Table.Invariant.{Inv}
use tentacles.Table.Runs.{All-zip}
use tentacles.Table.Surplus.{eligible, eligible_in, older, chosen, mark_stopping, select_surplus}

pub length-chosen :
    (ignore_grace : Bool) (now target : ℕ) (t : Table)
    → length (chosen ignore_grace now target t)
      ≡ min (count_live t.slots - target) (count (eligible ignore_grace now t) t.slots)
unfolding chosen
length-chosen ignore_grace now target t =
    let ks = keep (eligible ignore_grace now t) t.slots in
    omega (
      arith,
      length-take (count_live t.slots - target) (sort_by older ks),
      length-sort_by older ks,
      length-keep (eligible ignore_grace now t) t.slots,
    )

-- The live records at an address.
abbrev live_at : ℕ → List SlotRec → ℕ
live_at p rs = count (λ r. (r.ref == p) && is_live r.state) rs

stop_count :
    (p : ℕ) (rs : List SlotRec)
    → count_live (modify p (set_state stopping) rs) + live_at p rs ≡ count_live rs
unfolding modify count_live
stop_count p [] = omega arith
stop_count p (r ∷ rs) = ground (arith, stop_count p rs)

live_at-modify :
    (p q : ℕ) (rs : List SlotRec)
    → p ≢ q
    → live_at q (modify p (set_state stopping) rs) ≡ live_at q rs
unfolding modify
live_at-modify p q [] h = refl
live_at-modify p q (r ∷ rs) h = ground (arith, live_at-modify p q rs h)

live_at_fresh : (p : ℕ) (rs : List SlotRec) → FreshRef p rs → live_at p rs ≡ 0
live_at_fresh p [] h = refl
live_at_fresh p (r ∷ rs) h = ground (arith, live_at_fresh p rs h.1)

abbrev OneLive : List SlotRec → List SlotRec → Type 0
OneLive cs rs = All (λ c. live_at c.ref rs ≡ 1) cs

one_live :
    (rs : List SlotRec) → Distinct rs → All (λ r. is_live r.state ≡ true → live_at r.ref rs ≡ 1) rs
one_live [] d = tt
one_live (r ∷ rs) d = (
  λ l. ground (arith, live_at_fresh r.ref rs d.1),
  All-zip rs (λ s ih other l. ground (arith, ih l)) (one_live rs d.2) d.1,
)

-- Addresses that occur once.
abbrev DistinctRefs : List SlotRec → Type 0
DistinctRefs [] = Unit
DistinctRefs (c ∷ cs) = FreshRef c.ref cs × DistinctRefs cs

mark_stopping_count :
    (cs rs : List SlotRec)
    → DistinctRefs cs
    → OneLive cs rs
    → count_live (mark_stopping cs rs) + length cs ≡ count_live rs
unfolding mark_stopping
mark_stopping_count [] rs d h = omega arith
mark_stopping_count (c ∷ cs) rs d h = omega (
  arith,
  stop_count c.ref rs,
  h.0,
  mark_stopping_count cs (modify c.ref (set_state stopping) rs) d.1 (
      All-zip cs (λ x one other. live_at-modify c.ref x.ref rs (λ e. other (sym e)) ∙ one) h.1 d.0),
)

DistinctRefs-take : (n : ℕ) (cs : List SlotRec) → DistinctRefs cs → DistinctRefs (take n cs)
DistinctRefs-take zero cs d = tt
DistinctRefs-take (suc n) [] d = tt
DistinctRefs-take (suc n) (c ∷ cs) d =
    (All-take (λ r. r.ref ≢ c.ref) n cs d.0, DistinctRefs-take n cs d.1)

DistinctRefs-insert :
    (before : SlotRec → SlotRec → Bool) (c : SlotRec) (cs : List SlotRec)
    → FreshRef c.ref cs
    → DistinctRefs cs
    → DistinctRefs (insert_by before c cs)
unfolding insert_by
DistinctRefs-insert before c [] f d = (tt, tt)
DistinctRefs-insert before c (x ∷ cs) f d = elim (Bool-cases (before x c)) [
  | inl e ↦ rw e (
    All-insert_by (λ r. r.ref ≢ x.ref) before c cs (λ q. f.0 (sym q)) d.0,
    DistinctRefs-insert before c cs f.1 d.1,
  )
  | inr e ↦ rw e (f, d)
]

DistinctRefs-sort :
    (before : SlotRec → SlotRec → Bool) (cs : List SlotRec)
    → DistinctRefs cs
    → DistinctRefs (sort_by before cs)
unfolding sort_by
DistinctRefs-sort before [] d = tt
DistinctRefs-sort before (c ∷ cs) d =
    DistinctRefs-insert before c (sort_by before cs)
      (All-sort_by (λ r. r.ref ≢ c.ref) before cs d.0) (DistinctRefs-sort before cs d.1)

All-keep_sub :
    (P : SlotRec → Type 0) (p : SlotRec → Bool) (rs : List SlotRec) → All P rs → All P (keep p rs)
All-keep_sub P p [] h = tt
All-keep_sub P p (r ∷ rs) h = ground (arith, All-keep_sub P p rs h.1)

DistinctRefs-keep :
    (p : SlotRec → Bool) (rs : List SlotRec) → Distinct rs → DistinctRefs (keep p rs)
DistinctRefs-keep p [] d = tt
DistinctRefs-keep p (r ∷ rs) d = elim (Bool-cases (p r)) [
  | inl e ↦ rw e (All-keep_sub (λ x. x.ref ≢ r.ref) p rs d.1, DistinctRefs-keep p rs d.2)
  | inr e ↦ rw e (DistinctRefs-keep p rs d.2)
]

eligible_live :
    (ignore_grace : Bool) (now : ℕ) (t : Table) (r : SlotRec)
    → eligible ignore_grace now t r ≡ true
    → is_live r.state ≡ true
unfolding eligible eligible_in
eligible_live ignore_grace now t r e = ground arith

keep-OneLive :
    (ignore_grace : Bool) (now : ℕ) (t : Table) (rs ss : List SlotRec)
    → All (λ r. is_live r.state ≡ true → live_at r.ref ss ≡ 1) rs
    → OneLive (keep (eligible ignore_grace now t) rs) ss
keep-OneLive ignore_grace now t [] ss h = tt
keep-OneLive ignore_grace now t (r ∷ rs) ss h = elim (Bool-cases (eligible ignore_grace now t r)) [
  | inl e ↦
      rw e (h.0 (eligible_live ignore_grace now t r e), keep-OneLive ignore_grace now t rs ss h.1)
  | inr e ↦ rw e (keep-OneLive ignore_grace now t rs ss h.1)
]

pub mark_chosen_count :
    (ignore_grace : Bool) (now target : ℕ) (t : Table)
    → Inv t
    → count_live (mark_stopping (chosen ignore_grace now target t) t.slots)
        + length (chosen ignore_grace now target t)
      ≡ count_live t.slots
unfolding chosen
mark_chosen_count ignore_grace now target t v =
    let ks = keep (eligible ignore_grace now t) t.slots in
    let n = count_live t.slots - target in
    mark_stopping_count (take n (sort_by older ks)) t.slots
      (DistinctRefs-take n _ (
        DistinctRefs-sort older ks
          (DistinctRefs-keep (eligible ignore_grace now t) t.slots v.distinct)))
      (All-take (λ c. live_at c.ref t.slots ≡ 1) n _
        (All-sort_by (λ c. live_at c.ref t.slots ≡ 1) older ks
          (keep-OneLive ignore_grace now t t.slots t.slots (one_live t.slots v.distinct))))

-- In a table that satisfies the invariant, the section of stopSurplusContext takes as many slots out
-- of the live count as there are too many, or all eligible ones if those are fewer.
pub select_surplus-count :
    (ignore_grace : Bool) (now target : ℕ) (t : Table)
    → Inv t
    → count_live (select_surplus ignore_grace now target t).slots
      ≡ count_live t.slots
        - min (count_live t.slots - target) (count (eligible ignore_grace now t) t.slots)
unfolding select_surplus
select_surplus-count ignore_grace now target t v =
    omega (
      arith,
      length-chosen ignore_grace now target t,
      mark_chosen_count ignore_grace now target t v,
    )
