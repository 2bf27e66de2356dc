-- ===== src/Config/Forks.antt =====
-- Names joined to a directory, and the paths that fork there.
use tentacles.Base.{
  ◌≡◌, ◌≢◌, refl, sym, ap, ◌∙◌, inl, Bool, true, false, ◌||◌, List, [], ◌∷◌, ◌++◌, Text, text_eq,
  arith, All, ◌==◌,
}
use mathlib.Core.List.{reverse, reverse-cons, append_assoc}
use tentacles.FilePath.{is_abs, split_slash, join_slash, join, clean_path, walk, step}
use tentacles.FilePath.Segments.{
  OneWord, IsPlain, Canon, stack_of, split_slash-slash, split_slash-join_slash, walk-append,
}
use tentacles.FilePath.Rendered.{IsSegment, join-relative, text_of}
use tentacles.FilePath.Contains.{is_prefix-forks, IsAnchored}
use tentacles.Config.Names.{pool_id_matches, lower, digit, all_of}
use tentacles.Config.JobHome.{path_contains, paths_overlap}
use tentacles.Config.Overlap.{path_contains-text_of}

pub walk-plain :
    (rooted : Bool) (out : List Text) (w : Text) (ws : List Text)
    → IsPlain w
    → walk rooted out (w ∷ ws) ≡ walk rooted (w ∷ out) ws
unfolding walk step
walk-plain rooted out w ws h = rw (h.0, h.1, h.2) refl

plain_words : (ws : List Text) → All IsPlain ws → All OneWord ws
plain_words [] h = tt
plain_words (w ∷ ws) h = (h.0.3, plain_words ws h.1)

plain_segments : (ws : List Text) → All IsPlain ws → All IsSegment ws
plain_segments [] h = tt
plain_segments (w ∷ ws) h = ((h.0.3, h.0.0, h.0.1), plain_segments ws h.1)

-- Joining names to a directory puts them on its cleaned segments.
pub join-stack :
    (d w : Text) (ws : List Text)
    → All IsPlain (w ∷ ws)
    → join (d ∷ w ∷ ws) ≡ text_of (is_abs d) (walk (is_abs d) (stack_of d) (w ∷ ws))
unfolding join
join-stack [] [] ws h = absurd (unfold text_eq in cc (h.0.0))
join-stack [] (c ∷ w) ws h =
    unfold clean_path in
    let relative : is_abs (join_slash ((c ∷ w) ∷ ws)) ≡ false =
      join-relative (c ∷ w) ws (plain_segments ((c ∷ w) ∷ ws) h) in
    let words : split_slash (join_slash ((c ∷ w) ∷ ws)) ≡ (c ∷ w) ∷ ws =
      split_slash-join_slash (c ∷ w) ws (plain_words ((c ∷ w) ∷ ws) h) in
    ap (λ r. text_of r (walk r [] (split_slash (join_slash ((c ∷ w) ∷ ws))))) relative
    ∙ ap (λ x. text_of false (walk false [] x)) words
    ∙ (unfold is_abs split_slash walk step text_eq in refl)
join-stack (c ∷ d) w ws h =
    unfold clean_path join_slash in
    let words : split_slash ((c ∷ d) ++ (47 ∷ join_slash (w ∷ ws)))
        ≡ split_slash (c ∷ d) ++ (w ∷ ws) =
      split_slash-slash (c ∷ d) (join_slash (w ∷ ws))
      ∙ ap (λ x. split_slash (c ∷ d) ++ x) (split_slash-join_slash w ws (plain_words (w ∷ ws) h)) in
    ap (λ x. text_of (c == 47) (walk (c == 47) [] x)) words
    ∙ ap (text_of (c == 47)) (walk-append (c == 47) [] (split_slash (c ∷ d)) (w ∷ ws))

pub pool_id-IsPlain : (id : Text) → pool_id_matches id ≡ true → IsPlain id
pool_id-IsPlain [] h = absurd (unfold pool_id_matches in cc h)
pool_id-IsPlain (c ∷ s) h =
    unfold pool_id_matches in
    let first : (lower c || digit c) ≡ true = ground (arith, h) in
    let rest : all_of (λ d. lower d || digit d || (d == 45)) s ≡ true = ground (arith, h) in
    (
      unfold text_eq in refl,
      unfold text_eq in ground (arith, first),
      unfold text_eq in ground (arith, first),
      (ground (arith, first), no_slash s rest),
    )
  where
    no_slash : (t : Text) → all_of (λ d. lower d || digit d || (d == 45)) t ≡ true → OneWord t
    no_slash [] k = tt
    no_slash (d ∷ t) k = (ground (arith, k), no_slash t (ground (arith, k)))

-- What is put on a stack of segments comes after them.
reverse_push : (out : List Text) (x : Text) → reverse (x ∷ out) ≡ reverse out ++ (x ∷ [])
reverse_push out x = reverse-cons x out

reverse_push_two :
    (out : List Text) (x t : Text) → reverse (t ∷ x ∷ out) ≡ reverse out ++ (x ∷ t ∷ [])
reverse_push_two out x t =
    reverse-cons t (x ∷ out)
    ∙ ap (λ ws. ws ++ (t ∷ [])) (reverse-cons x out)
    ∙ append_assoc (reverse out) (x ∷ []) (t ∷ [])

IsAnchored-cons :
    (rooted : Bool) (fs : List Text) (x : Text) (ws : List Text)
    → IsAnchored rooted (fs ++ (x ∷ ws))
IsAnchored-cons true fs x ws = tt
IsAnchored-cons false [] x ws = λ e. cc e
IsAnchored-cons false (f ∷ fs) x ws = λ e. cc e

-- Two names on one directory that differ, each with nothing or one name below, make paths that do not
-- overlap.
module _ (rooted : Bool) (out : List Text) (canon : Canon rooted out) where
  contains_not :
      (x y : Text)
      → IsPlain x
      → IsPlain y
      → x ≢ y
      → path_contains (text_of rooted (x ∷ out)) (text_of rooted (y ∷ out)) ≡ false
  contains_not x y px py differ =
      path_contains-text_of rooted (x ∷ out) (y ∷ out) (reverse out) (x ∷ []) (y ∷ [])
        (inl (px, canon)) (inl (py, canon)) (reverse_push out x) (reverse_push out y)
        (IsAnchored-cons rooted (reverse out) y []) (px, tt) (py, tt)
      ∙ is_prefix-forks x y [] [] differ

  contains_not_below :
      (t x y : Text)
      → IsPlain t
      → IsPlain x
      → IsPlain y
      → x ≢ y
      → path_contains (text_of rooted (t ∷ x ∷ out)) (text_of rooted (t ∷ y ∷ out)) ≡ false
  contains_not_below t x y pt px py differ =
      path_contains-text_of rooted (t ∷ x ∷ out) (t ∷ y ∷ out) (reverse out) (x ∷ t ∷ [])
        (y ∷ t ∷ []) (inl (pt, inl (px, canon))) (inl (pt, inl (py, canon)))
        (reverse_push_two out x t) (reverse_push_two out y t)
        (IsAnchored-cons rooted (reverse out) y (t ∷ [])) (px, (pt, tt)) (py, (pt, tt))
      ∙ is_prefix-forks x y (t ∷ []) (t ∷ []) differ

  pub fork_apart :
      (x y : Text)
      → IsPlain x
      → IsPlain y
      → x ≢ y
      → paths_overlap (text_of rooted (x ∷ out)) (text_of rooted (y ∷ out)) ≡ false
  unfolding paths_overlap
  fork_apart x y px py differ =
      rw (contains_not x y px py differ, contains_not y x py px (λ e. differ (sym e))) refl

  pub fork_apart_below :
      (t x y : Text)
      → IsPlain t
      → IsPlain x
      → IsPlain y
      → x ≢ y
      → paths_overlap (text_of rooted (t ∷ x ∷ out)) (text_of rooted (t ∷ y ∷ out)) ≡ false
  unfolding paths_overlap
  fork_apart_below t x y pt px py differ =
      rw
        (
          contains_not_below t x y pt px py differ,
          contains_not_below t y x pt py px (λ e. differ (sym e)),
        )
        refl
