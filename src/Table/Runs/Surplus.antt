-- ===== src/Table/Runs/Surplus.antt =====
-- stopSurplusContext as a run of sections. A slot that is chosen has no claimed job, and gets none
-- while it stops.
use tentacles.Base.{
  ℕ, ◌-◌, ◌≡◌, inl, inr, sym, ◌∙◌, some, Bool, true, false, List, [], ◌∷◌, arith, All, All-take,
  All-sort_by, keep, Bool-cases,
}
use tentacles.Base.Float.{FloatOps}
use tentacles.Slot.{State, stopping}
use tentacles.Table.{SlotRec, Table, set_state, modify, update, emit, count_live}
use tentacles.Table.Clean.{mark_cleaning, unmark}
use tentacles.Table.Exit.{exit_rec}
use tentacles.Table.Surplus.{
  eligible, eligible_in, older, chosen, mark_stopping, select_surplus, revert_rec, StopWorld,
  note_stop, stop_one, stop_all, stop_surplus,
}
use tentacles.Table.Invariant.{IsSound, Inv}
use tentacles.Table.Steps.{
  At, becomes_stopping, reverts, tells, Reach, here, Reach-trans, Reach-Step,
}
use tentacles.Table.Runs.{All-modify_plain, At-of_Distinct}
use tentacles.Table.Runs.Release.{observe_exit-Reach, observe_exit-All}

abbrev pub Unclaimed : List SlotRec → List SlotRec → Type 0
Unclaimed cs rs = All (λ c. At c.ref (λ r. r.claimed ≡ false) rs) cs

pub mark_stopping-Reach :
    (cs : List SlotRec) (t : Table) → Reach t (record t { slots = mark_stopping cs t.slots })
unfolding mark_stopping update
mark_stopping-Reach [] t = here
mark_stopping-Reach (c ∷ cs) t =
    Reach-trans (Reach-Step (becomes_stopping c.ref))
      (mark_stopping-Reach cs (update c.ref (set_state stopping) t))

-- An eligible slot of a sound table is idle or starting, so its job is not claimed.
eligible_unclaimed :
    (b : ℕ) (ignore_grace : Bool) (now : ℕ) (t : Table) (r : SlotRec)
    → IsSound b r
    → eligible ignore_grace now t r ≡ true
    → r.claimed ≡ false
unfolding eligible eligible_in
eligible_unclaimed b ignore_grace now t r s e = ground arith

keep-eligible-Unclaimed :
    (b : ℕ) (ignore_grace : Bool) (now : ℕ) (t : Table) (rs ss : List SlotRec)
    → All (IsSound b) rs
    → All (λ r. r.claimed ≡ false → At r.ref (λ x. x.claimed ≡ false) ss) rs
    → Unclaimed (keep (eligible ignore_grace now t) rs) ss
keep-eligible-Unclaimed b ignore_grace now t [] ss v h = tt
keep-eligible-Unclaimed b ignore_grace now t (r ∷ rs) ss v h =
    elim (Bool-cases (eligible ignore_grace now t r)) [
      | inl e ↦ rw e (
        h.0 (eligible_unclaimed b ignore_grace now t r v.0 e),
        keep-eligible-Unclaimed b ignore_grace now t rs ss v.1 h.1,
      )
      | inr e ↦ rw e (keep-eligible-Unclaimed b ignore_grace now t rs ss v.1 h.1)
    ]

pub chosen-Unclaimed :
    (ignore_grace : Bool) (now target : ℕ) (t : Table)
    → Inv t
    → Unclaimed (chosen ignore_grace now target t) t.slots
unfolding chosen
chosen-Unclaimed ignore_grace now target t v = All-take _ (count_live t.slots - target) _ (
    All-sort_by _ older _ (
      keep-eligible-Unclaimed t.next_ref ignore_grace now t t.slots t.slots v.sound
        (At-of_Distinct (λ r. r.claimed ≡ false) t.slots v.distinct)))

mark_stopping-Unclaimed :
    (c : SlotRec) (cs rs : List SlotRec)
    → At c.ref (λ r. r.claimed ≡ false) rs
    → At c.ref (λ r. r.claimed ≡ false) (mark_stopping cs rs)
unfolding mark_stopping
mark_stopping-Unclaimed c [] rs h = h
mark_stopping-Unclaimed c (d ∷ cs) rs h =
    mark_stopping-Unclaimed c cs (modify d.ref (set_state stopping) rs) (
      All-modify_plain (λ r. r.ref ≡ c.ref → r.claimed ≡ false) d.ref (set_state stopping) rs
        (λ r k. k) h)

pub select-Unclaimed :
    (ds cs rs : List SlotRec) → Unclaimed ds rs → Unclaimed ds (mark_stopping cs rs)
select-Unclaimed [] cs rs h = tt
select-Unclaimed (d ∷ ds) cs rs h =
    (mark_stopping-Unclaimed d cs rs h.0, select-Unclaimed ds cs rs h.1)

revert_rec_claimed : (s : State) (r : SlotRec) → (revert_rec s r).claimed ≡ r.claimed
unfolding revert_rec
revert_rec_claimed s r = ground arith

revert_rec_ref : (s : State) (r : SlotRec) → (revert_rec s r).ref ≡ r.ref
unfolding revert_rec
revert_rec_ref s r = ground arith

stop_one-At :
    (fl : FloatOps) (w : StopWorld) (c : SlotRec) (t : Table) (q : ℕ)
    → At q (λ r. r.claimed ≡ false) t.slots
    → At q (λ r. r.claimed ≡ false) (stop_one fl w c t).slots
unfolding stop_one note_stop emit update
stop_one-At fl w c t q h = elim (Bool-cases (w.stops c.id)) [
  | inl e ↦ rw e (
      observe_exit-All (λ r. r.ref ≡ q → r.claimed ≡ false) (λ r k. unfold mark_cleaning in k)
        (λ r k. unfold unmark in k) fl c.id (some c.ref) (w.exit_time c.id) (w.worker c.id) _
        (λ b g r k. unfold exit_rec in k) h)
  | inr e ↦ rw e (
      All-modify_plain (λ r. r.ref ≡ q → r.claimed ≡ false) c.ref (revert_rec c.state) t.slots
        (λ r k same. revert_rec_claimed c.state r ∙ k (sym (revert_rec_ref c.state r) ∙ same)) h)
]

pub stop_one-Unclaimed :
    (fl : FloatOps) (w : StopWorld) (c : SlotRec) (t : Table) (cs : List SlotRec)
    → Unclaimed cs t.slots
    → Unclaimed cs (stop_one fl w c t).slots
stop_one-Unclaimed fl w c t [] h = tt
stop_one-Unclaimed fl w c t (d ∷ cs) h =
    (stop_one-At fl w c t d.ref h.0, stop_one-Unclaimed fl w c t cs h.1)

pub stop_one-Reach :
    (fl : FloatOps) (w : StopWorld) (c : SlotRec) (t : Table)
    → At c.ref (λ r. r.claimed ≡ false) t.slots
    → Reach t (stop_one fl w c t)
unfolding stop_one note_stop emit
stop_one-Reach fl w c t h = elim (Bool-cases (w.stops c.id)) [
  | inl e ↦ rw e (
      Reach-trans (Reach-Step (tells _))
        (observe_exit-Reach fl c.id (some c.ref) (w.exit_time c.id) (w.worker c.id) _))
  | inr e ↦ rw e (Reach-trans (Reach-Step (tells _)) (Reach-Step (reverts c.ref c.state h)))
]

stop_all-Reach :
    (fl : FloatOps) (w : StopWorld) (cs : List SlotRec) (t : Table)
    → Unclaimed cs t.slots
    → Reach t (stop_all fl w cs t)
unfolding stop_all
stop_all-Reach fl w [] t h = here
stop_all-Reach fl w (c ∷ cs) t h =
    Reach-trans (stop_one-Reach fl w c t h.0)
      (stop_all-Reach fl w cs _ (stop_one-Unclaimed fl w c t cs h.1))

pub stop_surplus-Reach :
    (fl : FloatOps) (w : StopWorld) (ignore_grace : Bool) (now target : ℕ) (t : Table)
    → Inv t
    → Reach t (stop_surplus fl w ignore_grace now target t)
unfolding stop_surplus select_surplus
stop_surplus-Reach fl w ignore_grace now target t v =
    let cs = chosen ignore_grace now target t in
    Reach-trans (mark_stopping-Reach cs t) (
      stop_all-Reach fl w cs _
        (select-Unclaimed cs cs t.slots (chosen-Unclaimed ignore_grace now target t v)))
