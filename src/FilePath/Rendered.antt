-- ===== src/FilePath/Rendered.antt =====
-- The text of segments in canonical form: it is clean, and it splits into the segments again.
use tentacles.Base.{
  ◌≡◌, refl, sym, ap, subst, ◌∙◌, inl, inr, Bool, true, false, List, [], ◌∷◌, Text, text_eq, All,
  All-append,
}
use mathlib.Core.List.{reverse, reverse-cons}
use tentacles.FilePath.{
  is_abs, split_slash, join_slash, dot, step_up, step, walk, render, clean_path,
}
use tentacles.FilePath.Segments.{
  OneWord, Ups, Canon, split_slash-join_slash, split_slash-slash, walk-append, stack_of,
  stack_of-Canon,
}

-- Of a canonical segment: no '/', not empty and not `.`.
abbrev pub IsSegment : Text → Type 0
IsSegment w = OneWord w × (text_eq w [] ≡ false) × (text_eq w dot ≡ false)

Ups-segments : (out : List Text) → Ups out → All IsSegment out
Ups-segments [] u = tt
Ups-segments (w ∷ out) u = (
  subst IsSegment (sym u.0) ((refl, (refl, tt)), unfold text_eq in refl, unfold text_eq in refl),
  Ups-segments out u.1,
)

pub Canon-segments : (rooted : Bool) (out : List Text) → Canon rooted out → All IsSegment out
Canon-segments rooted [] h = tt
Canon-segments rooted (w ∷ out) (inl (p, c)) = ((p.3, p.0, p.1), Canon-segments rooted out c)
Canon-segments rooted (w ∷ out) (inr (e, r, u)) = Ups-segments (w ∷ out) (e, u)

pub All-reverse {ℓ κ} : {A : Type ℓ} (P : A → Type κ) (xs : List A) → All P xs → All P (reverse xs)
All-reverse P [] h = tt
All-reverse P (x ∷ xs) h =
    subst (All P) (sym (reverse-cons x xs))
      (All-append P (reverse xs) (x ∷ []) (All-reverse P xs h.1) (h.0, tt))

-- Cleaning goes again through canonical segments without a change.
step_again :
    (rooted : Bool) (w : Text) (out : List Text)
    → Canon rooted (w ∷ out)
    → step rooted out w ≡ w ∷ out
unfolding step step_up
step_again rooted w out (inl (p, c)) = rw (p.0, p.1, p.2) refl
step_again rooted w [] (inr (e, r, u)) = rw (e, r) (unfold text_eq in refl)
step_again rooted w (v ∷ out) (inr (e, r, u)) = rw (e, u.0) (unfold text_eq in refl)

Canon-tail :
    (rooted : Bool) (w : Text) (out : List Text) → Canon rooted (w ∷ out) → Canon rooted out
Canon-tail rooted w out (inl (p, c)) = c
Canon-tail rooted w [] (inr (e, r, u)) = tt
Canon-tail rooted w (v ∷ out) (inr (e, r, u)) = inr (u.0, r, u.1)

pub walk-reverse :
    (rooted : Bool) (out : List Text) → Canon rooted out → walk rooted [] (reverse out) ≡ out
unfolding walk
walk-reverse rooted [] h = refl
walk-reverse rooted (w ∷ out) h =
    ap (walk rooted []) (reverse-cons w out)
    ∙ walk-append rooted [] (reverse out) (w ∷ [])
    ∙ ap (λ o. walk rooted o (w ∷ [])) (walk-reverse rooted out (Canon-tail rooted w out h))
    ∙ step_again rooted w out h

-- A segment begins with a byte other than '/', so does the text of segments.
pub join-relative :
    (w : Text) (ws : List Text) → All IsSegment (w ∷ ws) → is_abs (join_slash (w ∷ ws)) ≡ false
unfolding is_abs join_slash
join-relative [] ws h = absurd (unfold text_eq in cc (h.0.1))
join-relative (c ∷ w) [] h = h.0.0.0
join-relative (c ∷ w) (v ∷ vs) h = h.0.0.0

pub is_abs-render :
    (rooted : Bool) (ws : List Text) → All IsSegment ws → is_abs (render rooted ws) ≡ rooted
unfolding render
is_abs-render true ws h = unfold is_abs in refl
is_abs-render false [] h = unfold is_abs in refl
is_abs-render false (w ∷ ws) h = join-relative w ws h

pub words_of : (ws : List Text) → All IsSegment ws → All OneWord ws
words_of [] h = tt
words_of (w ∷ ws) h = (h.0.0, words_of ws h.1)

pub walk-render :
    (rooted : Bool) (ws : List Text)
    → All IsSegment ws
    → walk rooted [] (split_slash (render rooted ws)) ≡ walk rooted [] ws
unfolding render
walk-render true [] h = unfold split_slash walk in refl
walk-render false [] h = unfold split_slash walk in refl
walk-render true (w ∷ ws) h =
    ap (walk true []) (split_slash-slash [] (join_slash (w ∷ ws)))
    ∙ unfold walk split_slash in
      ap (walk true []) (split_slash-join_slash w ws (words_of (w ∷ ws) h))
walk-render false (w ∷ ws) h =
    ap (walk false []) (split_slash-join_slash w ws (words_of (w ∷ ws) h))

-- The clean text of canonical segments, the last one first.
abbrev pub text_of : Bool → List Text → Text
text_of rooted out = render rooted (reverse out)

module _ (rooted : Bool) (out : List Text) (h : Canon rooted out) where
  segments : All IsSegment (reverse out)
  segments = All-reverse IsSegment out (Canon-segments rooted out h)

  pub is_abs-text_of : is_abs (text_of rooted out) ≡ rooted
  is_abs-text_of = is_abs-render rooted (reverse out) segments

  pub stack_of-text_of : stack_of (text_of rooted out) ≡ out
  stack_of-text_of =
      ap (λ r. walk r [] (split_slash (text_of rooted out))) is_abs-text_of
      ∙ walk-render rooted (reverse out) segments
      ∙ walk-reverse rooted out h

  pub clean_path-text_of : clean_path (text_of rooted out) ≡ text_of rooted out
  unfolding clean_path
  clean_path-text_of =
      ap (λ r. render r (reverse (stack_of (text_of rooted out)))) is_abs-text_of
      ∙ ap (λ o. render rooted (reverse o)) stack_of-text_of

-- Cleaning a path twice is cleaning it once.
pub clean_idempotent : (s : Text) → clean_path (clean_path s) ≡ clean_path s
unfolding clean_path
clean_idempotent s = clean_path-text_of (is_abs s) (stack_of s) (stack_of-Canon s)
