-- ===== src/Base/Maps.antt =====
-- A Go map as a list of entries, one for each key. `same` tests keys for equality.
use Prim.Native.Nat.{suc, ◌≤◌}
use mathlib.Core.Path.{◌≡◌, refl}
use mathlib.Core.Bool.{Bool, true, false}
use mathlib.Core.Option.{Option, none, some}
use mathlib.Core.List.{List, [], ◌∷◌}
use native.Mathlib.Omega.{arith}
use mathlib.Core.Logic.{inl, inr}
use tentacles.Base.Tests.{if◌then◌else◌, Bool-cases}
use tentacles.Base.Lists.{length, All}

module _ {ℓ κ} {K : Type ℓ} {V : Type κ} (same : K → K → Bool) where
  unfoldable pub find : K → List (K × V) → Option V
  find k [] = none
  find k (e ∷ es) = let rest = find k es in if same k e.0 then some e.1 else rest

  -- Put a value at a key; a new key goes to the end.
  unfoldable pub put : K → V → List (K × V) → List (K × V)
  put k v [] = (k, v) ∷ []
  put k v (e ∷ es) = let rest = put k v es in if same k e.0 then (k, v) ∷ es else e ∷ rest

  unfoldable pub delete : K → List (K × V) → List (K × V)
  delete k [] = []
  delete k (e ∷ es) = let rest = delete k es in if same k e.0 then rest else e ∷ rest

  pub find-put_same :
      (k : K) (v : V) (es : List (K × V)) → same k k ≡ true → find k (put k v es) ≡ some v
  unfolding find put
  find-put_same k v [] h = rw h refl
  find-put_same k v (e ∷ es) h = elim (Bool-cases (same k e.0)) [
    | inl t ↦ rw t (unfold find in rw h refl)
    | inr t ↦ rw t (unfold find in rw t (find-put_same k v es h))
  ]

  pub length-put_held :
      (k : K) (v w : V) (es : List (K × V)) → find k es ≡ some w → length (put k v es) ≡ length es
  unfolding find put
  length-put_held k v w [] h = cc
  length-put_held k v w (e ∷ es) h = elim (Bool-cases (same k e.0)) [
    | inl t ↦ rw t refl
    | inr t ↦ rw t (omega (arith, length-put_held k v w es (ground (arith, h, t))))
  ]

  pub length-put_le : (k : K) (v : V) (es : List (K × V)) → length (put k v es) ≤ suc (length es)
  unfolding put
  length-put_le k v [] = omega arith
  length-put_le k v (e ∷ es) = ground (arith, length-put_le k v es)

  pub length-delete_le : (k : K) (es : List (K × V)) → length (delete k es) ≤ length es
  unfolding delete
  length-delete_le k [] = omega arith
  length-delete_le k (e ∷ es) = ground (arith, length-delete_le k es)

  pub All-put {μ} :
      (P : K × V → Type μ) (k : K) (v : V) (es : List (K × V))
      → P (k, v)
      → All P es
      → All P (put k v es)
  unfolding put
  All-put P k v [] p h = (p, tt)
  All-put P k v (e ∷ es) p h = elim (Bool-cases (same k e.0)) [
    | inl t ↦ rw t (p, h.1)
    | inr t ↦ rw t (h.0, All-put P k v es p h.1)
  ]

  pub All-delete {μ} :
      (P : K × V → Type μ) (k : K) (es : List (K × V)) → All P es → All P (delete k es)
  unfolding delete
  All-delete P k [] h = tt
  All-delete P k (e ∷ es) h = elim (Bool-cases (same k e.0)) [
    | inl t ↦ rw t (All-delete P k es h.1)
    | inr t ↦ rw t (h.0, All-delete P k es h.1)
  ]

  -- A key that tests differently from `k`, where the test is symmetric and respects equal keys.
  pub find-put_other :
      (j k : K) (v : V) (es : List (K × V))
      → same j k ≡ false
      → ((m : K) → same k m ≡ true → same j m ≡ false)
      → find j (put k v es) ≡ find j es
  unfolding find put
  find-put_other j k v [] h g = rw h refl
  find-put_other j k v (e ∷ es) h g = elim (Bool-cases (same k e.0)) [
    | inl t ↦ rw t (unfold find in rw (h, g e.0 t) refl)
    | inr t ↦ rw t (unfold find in rw (find-put_other j k v es h g) refl)
  ]
