-- ===== src/Table/Runs.antt =====
-- Each operation of the table, whatever the world answers, is a run of sections. Here: what the
-- proofs carry along about the record that an operation works on.
pub mod Release
pub mod Surplus
pub mod Start
pub mod Ensure
pub mod Boot
pub mod Background
use tentacles.Base.{
  ℕ, ◌≡◌, refl, sym, ◌∙◌, Bool, true, false, List, [], ◌∷◌, arith, All, ◌==◌, Bool-cases, inl, inr,
}
use tentacles.Table.{SlotRec, modify}
use tentacles.Table.Laws.{FreshRef, Distinct, KeepsIdentity}
use tentacles.Table.Steps.{At}

module _ {P Q R : SlotRec → Type 0} where
  pub All-zip :
      (rs : List SlotRec) → ((r : SlotRec) → P r → Q r → R r) → All P rs → All Q rs → All R rs
  All-zip [] k h g = tt
  All-zip (r ∷ rs) k h g = (k r h.0 g.0, All-zip rs k h.1 g.1)

pub All-modify_plain :
    (P : SlotRec → Type 0) (p : ℕ) (f : SlotRec → SlotRec) (rs : List SlotRec)
    → ((r : SlotRec) → P r → P (f r))
    → All P rs
    → All P (modify p f rs)
unfolding modify
All-modify_plain P p f [] k h = tt
All-modify_plain P p f (r ∷ rs) k h = elim (Bool-cases (r.ref == p)) [
  | inl e ↦ rw e (k r h.0, All-modify_plain P p f rs k h.1)
  | inr e ↦ rw e (h.0, All-modify_plain P p f rs k h.1)
]

-- What a change establishes of the record that it is made to.
pub At-modify_self :
    (Q : SlotRec → Type 0) (p : ℕ) (f : SlotRec → SlotRec) (rs : List SlotRec)
    → ((r : SlotRec) → Q (f r))
    → At p Q (modify p f rs)
unfolding modify
At-modify_self Q p f [] k = tt
At-modify_self Q p f (r ∷ rs) k = elim (Bool-cases (r.ref == p)) [
  | inl e ↦ rw e ((λ _. k r), At-modify_self Q p f rs k)
  | inr e ↦ rw e ((λ q. absurd (ground arith)), At-modify_self Q p f rs k)
]

pub At-of_FreshRef : (Q : SlotRec → Type 0) (p : ℕ) (rs : List SlotRec) → FreshRef p rs → At p Q rs
At-of_FreshRef Q p [] h = tt
At-of_FreshRef Q p (r ∷ rs) h = ((λ e. absurd (h.0 e)), At-of_FreshRef Q p rs h.1)

-- With distinct addresses, what holds of a record holds at its address.
pub At-of_Distinct :
    (Q : SlotRec → Type 0) (rs : List SlotRec) → Distinct rs → All (λ r. Q r → At r.ref Q rs) rs
At-of_Distinct Q [] d = tt
At-of_Distinct Q (r ∷ rs) d = (
  λ q. ((λ _. q), At-of_FreshRef Q r.ref rs d.1),
  All-zip rs (λ s ih other q. ((λ e. absurd (other (sym e))), ih q)) (At-of_Distinct Q rs d.2) d.1,
)
