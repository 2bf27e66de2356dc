-- ===== src/Base/Sort.antt =====
-- Go's sort.Slice under a strict test. The test orders the entries totally wherever the program
-- sorts, so the result is that of any sorting method; this one inserts.
use Prim.Native.Nat.{ℕ, zero, suc}
use mathlib.Core.Path.{◌≡◌, refl, ap, ◌∙◌}
use mathlib.Core.Bool.{Bool, true, false}
use mathlib.Core.List.{List, [], ◌∷◌}
use native.Mathlib.Omega.{arith}
use mathlib.Core.Logic.{inl, inr}
use tentacles.Base.Tests.{if◌then◌else◌, Bool-cases}
use tentacles.Base.Lists.{length, take, drop, All}

module _ {ℓ} {A : Type ℓ} where
  unfoldable pub insert_by : (A → A → Bool) → A → List A → List A
  insert_by before x [] = x ∷ []
  insert_by before x (y ∷ ys) =
      let rest = insert_by before x ys in if before y x then y ∷ rest else x ∷ y ∷ ys

  unfoldable pub sort_by : (A → A → Bool) → List A → List A
  unfolding insert_by
  sort_by before [] = []
  sort_by before (x ∷ xs) = insert_by before x (sort_by before xs)

  -- No entry goes before an earlier one.
  abbrev pub IsSortedBy : (A → A → Bool) → List A → Type ℓ
  IsSortedBy before [] = Unit
  IsSortedBy before (x ∷ xs) = All (λ y. before y x ≡ false) xs × IsSortedBy before xs

  pub All-insert_by {κ} :
      (P : A → Type κ) (before : A → A → Bool) (x : A) (xs : List A)
      → P x
      → All P xs
      → All P (insert_by before x xs)
  unfolding insert_by
  All-insert_by P before x [] p h = (p, tt)
  All-insert_by P before x (y ∷ ys) p h = elim (Bool-cases (before y x)) [
    | inl e ↦ rw e (h.0, All-insert_by P before x ys p h.1)
    | inr e ↦ rw e (p, h)
  ]

  pub All-sort_by {κ} :
      (P : A → Type κ) (before : A → A → Bool) (xs : List A) → All P xs → All P (sort_by before xs)
  unfolding sort_by
  All-sort_by P before [] h = tt
  All-sort_by P before (x ∷ xs) h =
      All-insert_by P before x (sort_by before xs) h.0 (All-sort_by P before xs h.1)

  pub length-insert_by :
      (before : A → A → Bool) (x : A) (xs : List A)
      → length (insert_by before x xs) ≡ suc (length xs)
  unfolding insert_by
  length-insert_by before x [] = refl
  length-insert_by before x (y ∷ ys) = ground (arith, length-insert_by before x ys)

  pub length-sort_by :
      (before : A → A → Bool) (xs : List A) → length (sort_by before xs) ≡ length xs
  unfolding sort_by
  length-sort_by before [] = refl
  length-sort_by before (x ∷ xs) =
      length-insert_by before x (sort_by before xs) ∙ ap suc (length-sort_by before xs)

-- A test that is transitive where it fails sorts.
module _ {ℓ} {A : Type ℓ} (before : A → A → Bool)
    (asym : (x y : A) → before x y ≡ true → before y x ≡ false)
    (trans : (x y z : A) → before y x ≡ false → before z y ≡ false → before z x ≡ false) where
  All-not-before :
      (x y : A) (xs : List A)
      → before y x ≡ false
      → All (λ z. before z y ≡ false) xs
      → All (λ z. before z x ≡ false) xs
  All-not-before x y [] e h = tt
  All-not-before x y (z ∷ zs) e h = (trans x y z e h.0, All-not-before x y zs e h.1)

  insert_by-IsSortedBy :
      (x : A) (xs : List A) → IsSortedBy before xs → IsSortedBy before (insert_by before x xs)
  unfolding insert_by
  insert_by-IsSortedBy x [] h = (tt, tt)
  insert_by-IsSortedBy x (y ∷ ys) h = elim (Bool-cases (before y x)) [
    | inl e ↦ rw e (
      All-insert_by (λ z. before z y ≡ false) before x ys (asym y x e) h.0,
      insert_by-IsSortedBy x ys h.1,
    )
    | inr e ↦ rw e ((e, All-not-before x y ys e h.0), h)
  ]

  pub sort_by-IsSortedBy : (xs : List A) → IsSortedBy before (sort_by before xs)
  unfolding sort_by
  sort_by-IsSortedBy [] = tt
  sort_by-IsSortedBy (x ∷ xs) = insert_by-IsSortedBy x (sort_by before xs) (sort_by-IsSortedBy xs)

module _ {ℓ} {A : Type ℓ} where
  All-drop {κ} : (P : A → Type κ) (n : ℕ) (xs : List A) → All P xs → All P (drop n xs)
  All-drop P zero xs h = h
  All-drop P (suc n) [] h = tt
  All-drop P (suc n) (x ∷ xs) h = All-drop P n xs h.1

  -- In a sorted list no later part has an entry that goes before one of an earlier part.
  pub take-drop_sorted :
      (before : A → A → Bool) (n : ℕ) (xs : List A)
      → IsSortedBy before xs
      → All (λ x. All (λ y. before y x ≡ false) (drop n xs)) (take n xs)
  take-drop_sorted before zero xs h = tt
  take-drop_sorted before (suc n) [] h = tt
  take-drop_sorted before (suc n) (x ∷ xs) h =
      (All-drop (λ y. before y x ≡ false) n xs h.0, take-drop_sorted before n xs h.1)
