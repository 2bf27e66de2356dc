-- ===== src/Config/Failures.antt =====
-- Lists of failed checks: a check adds its failure where its test holds.
use tentacles.Base.{◌≡◌, refl, Bool, true, false, not, List, [], ◌∷◌, ◌++◌, All, if◌then◌else◌}
use mathlib.Core.List.{append-eq-nil_iff}

module _ {ℓ} {A : Type ℓ} where
  -- A failure where its test holds.
  abbrev pub when : Bool → A → List A
  when b f = if b then f ∷ [] else []

  abbrev pub gather : List (List A) → List A
  gather [] = []
  gather (xs ∷ xss) = xs ++ gather xss

  -- No failure is gathered if there is none in any of the lists.
  pub gather-nil : (xss : List (List A)) → gather xss ≡ [] → All (λ xs. xs ≡ []) xss
  gather-nil [] e = tt
  gather-nil (xs ∷ xss) e = ((append-eq-nil_iff.0 e).0, gather-nil xss (append-eq-nil_iff.0 e).1)

  pub nil-gather : (xss : List (List A)) → All (λ xs. xs ≡ []) xss → gather xss ≡ []
  nil-gather [] h = refl
  nil-gather (xs ∷ xss) h = append-eq-nil_iff.1 (h.0, nil-gather xss h.1)

  pub when-nil : (b : Bool) (f : A) → when b f ≡ [] → b ≡ false
  when-nil true f h = cc
  when-nil false f h = refl

  pub nil-when : (b : Bool) (f : A) → b ≡ false → when b f ≡ []
  nil-when true f h = cc
  nil-when false f h = refl

  pub when-not-nil : (b : Bool) (f : A) → when (not b) f ≡ [] → b ≡ true
  when-not-nil true f h = refl
  when-not-nil false f h = cc
