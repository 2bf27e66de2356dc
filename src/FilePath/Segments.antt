-- ===== src/FilePath/Segments.antt =====
-- Segments of paths: the text of segments splits into them, and cleaned segments are in canonical form.
use tentacles.Base.{
  ◌≡◌, refl, ap, ◌∙◌, ◌⊎◌, inl, inr, Bool, true, false, List, [], ◌∷◌, ◌++◌, Text, text_eq,
  text_eq_iff, All, ◌==◌, Bool-cases,
}
use tentacles.FilePath.{
  is_abs, split_first, split_slash, join_slash, dot, dot_dot, step_up, step, walk,
}

-- A text without '/'.
abbrev pub OneWord : Text → Type 0
OneWord = All (λ c. (c == 47) ≡ false)

-- A name of a file or a directory.
abbrev pub IsPlain : Text → Type 0
IsPlain w =
    (text_eq w [] ≡ false) × (text_eq w dot ≡ false) × (text_eq w dot_dot ≡ false) × OneWord w

abbrev pub Ups : List Text → Type 0
Ups = All (λ w. w ≡ dot_dot)

-- Segments, the last one first, as cleaning leaves them: names, and below them `..` if the path is
-- relative.
abbrev pub Canon : Bool → List Text → Type 0
Canon rooted [] = Unit
Canon rooted (w ∷ out) =
    (IsPlain w × Canon rooted out) ⊎ ((w ≡ dot_dot) × (rooted ≡ false) × Ups out)

pub split_first-slash :
    (s t : Text)
    → split_first (s ++ (47 ∷ t)) ≡ ((split_first s).0, (split_first s).1 ++ split_slash t)
unfolding split_first split_slash
split_first-slash [] t = refl
split_first-slash (c ∷ s) t = elim (Bool-cases (c == 47)) [
  | inl e ↦ rw (split_first-slash s t) (rw e refl)
  | inr e ↦ rw (split_first-slash s t) (rw e refl)
]

pub split_slash-slash : (s t : Text) → split_slash (s ++ (47 ∷ t)) ≡ split_slash s ++ split_slash t
unfolding split_slash
split_slash-slash s t = rw (split_first-slash s t) refl

pub split_slash-word : (w : Text) → OneWord w → split_slash w ≡ w ∷ []
unfolding split_slash split_first
split_slash-word [] h = refl
split_slash-word (c ∷ w) h =
    let rest : split_slash w ≡ w ∷ [] = split_slash-word w h.1 in
    let first : split_first w ≡ (w, []) = cc rest in rw h.0 (rw first refl)

pub split_slash-join_slash :
    (w : Text) (ws : List Text) → All OneWord (w ∷ ws) → split_slash (join_slash (w ∷ ws)) ≡ w ∷ ws
unfolding join_slash
split_slash-join_slash w [] h = split_slash-word w h.0
split_slash-join_slash w (v ∷ vs) h =
    split_slash-slash w (join_slash (v ∷ vs))
    ∙ ap (λ x. x ++ split_slash (join_slash (v ∷ vs))) (split_slash-word w h.0)
    ∙ ap (◌∷◌ w) (split_slash-join_slash v vs h.1)

split_first-OneWord : (s : Text) → OneWord (split_first s).0 × All OneWord (split_first s).1
unfolding split_first
split_first-OneWord [] = (tt, tt)
split_first-OneWord (c ∷ s) = elim (Bool-cases (c == 47)) [
  | inl e ↦ rw e (tt, split_first-OneWord s)
  | inr e ↦ rw e ((e, (split_first-OneWord s).0), (split_first-OneWord s).1)
]

pub split_slash-OneWord : (s : Text) → All OneWord (split_slash s)
unfolding split_slash
split_slash-OneWord s = split_first-OneWord s

pub walk-append :
    (rooted : Bool) (out ws vs : List Text)
    → walk rooted out (ws ++ vs) ≡ walk rooted (walk rooted out ws) vs
unfolding walk
walk-append rooted out [] vs = refl
walk-append rooted out (w ∷ ws) vs = walk-append rooted (step rooted out w) ws vs

dot_dot-eq : (w : Text) → text_eq w dot_dot ≡ true → w ≡ dot_dot
dot_dot-eq w = (text_eq_iff w dot_dot).0

step_up-Canon :
    (rooted : Bool) (out : List Text) → Canon rooted out → Canon rooted (step_up rooted out)
unfolding step_up
step_up-Canon true [] h = tt
step_up-Canon false [] h = inr (refl, refl, tt)
step_up-Canon rooted (w ∷ out) (inl (p, c)) = rw p.2 c
step_up-Canon rooted (w ∷ out) (inr (e, r, u)) = rw e (inr (refl, r, (refl, u)))

step-Canon :
    (rooted : Bool) (out : List Text) (w : Text)
    → OneWord w
    → Canon rooted out
    → Canon rooted (step rooted out w)
unfolding step
step-Canon rooted out w one h = elim (Bool-cases (text_eq w [])) [
  | inl e ↦ rw e h
  | inr a ↦ elim (Bool-cases (text_eq w dot)) [
    | inl e ↦ rw (a, e) h
    | inr b ↦ elim (Bool-cases (text_eq w dot_dot)) [
      | inl e ↦ rw (a, b, e) (step_up-Canon rooted out h)
      | inr d ↦ rw (a, b, d) (inl ((a, b, d, one), h))
    ]
  ]
]

pub walk-Canon :
    (rooted : Bool) (out ws : List Text)
    → All OneWord ws
    → Canon rooted out
    → Canon rooted (walk rooted out ws)
unfolding walk
walk-Canon rooted out [] one h = h
walk-Canon rooted out (w ∷ ws) one h =
    walk-Canon rooted (step rooted out w) ws one.1 (step-Canon rooted out w one.0 h)

-- The segments of a path, the last one first.
abbrev pub stack_of : Text → List Text
stack_of s = walk (is_abs s) [] (split_slash s)

pub stack_of-Canon : (s : Text) → Canon (is_abs s) (stack_of s)
stack_of-Canon s = walk-Canon (is_abs s) [] (split_slash s) (split_slash-OneWord s) tt
