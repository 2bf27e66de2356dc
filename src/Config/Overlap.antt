-- ===== src/Config/Overlap.antt =====
-- internal/config/config.go: pathContains and pathsOverlap, by the segments of clean paths.
use tentacles.Base.{
  ◌≡◌, refl, sym, ap, subst, ◌∙◌, inl, Bool, true, false, ◌||◌, Option, none, some, List, [], ◌∷◌,
  ◌++◌, Text, text_eq_iff, arith, All,
}
use mathlib.Core.List.{reverse, reverse-reverse}
use tentacles.FilePath.{clean_path, render, rel_clean, rel, joined}
use tentacles.FilePath.Segments.{IsPlain, Canon}
use tentacles.FilePath.Rendered.{
  IsSegment, Canon-segments, All-reverse, text_of, clean_path-text_of,
}
use tentacles.FilePath.Contains.{is_prefix, stays_below, below, IsAnchored, rel_clean-below}
use tentacles.Config.JobHome.{is_below, path_contains, paths_overlap}

answer_below : (o : Option (List Text)) → is_below (joined o) ≡ below o
answer_below none = unfold below in refl
answer_below (some ws) = unfold below stays_below in refl

answer : (s t : Text) → path_contains s t ≡ below (rel_clean (clean_path s) (clean_path t))
unfolding path_contains rel
answer s t = answer_below (rel_clean (clean_path s) (clean_path t))

path_contains-below :
    (s t : Text) → clean_path s ≡ s → clean_path t ≡ t → path_contains s t ≡ below (rel_clean s t)
path_contains-below s t hs ht =
    answer s t
    ∙ ap (λ x. below (rel_clean x (clean_path t))) hs
    ∙ ap (λ x. below (rel_clean s x)) ht

-- Two stacks of segments whose paths begin alike and go on with names.
module _ (rooted : Bool) (out_p out_q fs ps qs : List Text) (canon_p : Canon rooted out_p)
    (canon_q : Canon rooted out_q) (parts_p : reverse out_p ≡ fs ++ ps)
    (parts_q : reverse out_q ≡ fs ++ qs) (anchored : IsAnchored rooted (fs ++ qs))
    (plain_p : All IsPlain ps) (plain_q : All IsPlain qs) where
  pub path_contains-text_of :
      path_contains (text_of rooted out_p) (text_of rooted out_q) ≡ is_prefix ps qs
  path_contains-text_of =
      path_contains-below (text_of rooted out_p) (text_of rooted out_q)
        (clean_path-text_of rooted out_p canon_p) (clean_path-text_of rooted out_q canon_q)
      ∙ ap (λ s. below (rel_clean s (text_of rooted out_q))) (ap (render rooted) parts_p)
      ∙ ap (λ s. below (rel_clean (render rooted (fs ++ ps)) s)) (ap (render rooted) parts_q)
      ∙ rel_clean-below rooted fs ps qs
          (subst (All IsSegment) parts_p
            (All-reverse IsSegment out_p (Canon-segments rooted out_p canon_p)))
          (subst (All IsSegment) parts_q
            (All-reverse IsSegment out_q (Canon-segments rooted out_q canon_q)))
          anchored plain_p plain_q

plain-Canon : (out : List Text) → All IsPlain out → Canon true out
plain-Canon [] h = tt
plain-Canon (w ∷ out) h = inl (h.0, plain-Canon out h.1)

-- Of two clean absolute paths, pathContains says whether the segments of the first are the beginning of
-- the segments of the second.
pub path_contains-is_prefix :
    (ps qs : List Text)
    → All IsPlain ps
    → All IsPlain qs
    → path_contains (render true ps) (render true qs) ≡ is_prefix ps qs
path_contains-is_prefix ps qs hp hq =
    sym (ap (λ x. path_contains (render true x) (render true qs)) (reverse-reverse ps))
    ∙ sym (ap (λ x. path_contains (text_of true (reverse ps)) (render true x)) (reverse-reverse qs))
    ∙ path_contains-text_of true (reverse ps) (reverse qs) [] ps qs
        (plain-Canon (reverse ps) (All-reverse IsPlain ps hp))
        (plain-Canon (reverse qs) (All-reverse IsPlain qs hq)) (reverse-reverse ps)
        (reverse-reverse qs) tt hp hq

-- Two beginnings of one list: one is the beginning of the other.
prefixes_meet :
    (ps qs rs : List Text)
    → is_prefix ps rs ≡ true
    → is_prefix qs rs ≡ true
    → (is_prefix ps qs || is_prefix qs ps) ≡ true
unfolding is_prefix
prefixes_meet [] qs rs h k = refl
prefixes_meet (p ∷ ps) [] rs h k = refl
prefixes_meet (p ∷ ps) (q ∷ qs) [] h k = cc
prefixes_meet (p ∷ ps) (q ∷ qs) (r ∷ rs) h k = ground (
  arith,
  text_eq_iff p r,
  text_eq_iff q r,
  text_eq_iff p q,
  text_eq_iff q p,
  prefixes_meet ps qs rs,
)

-- If pathsOverlap says that two clean absolute paths do not overlap, no clean absolute path lies in both.
pub apart_share_nothing :
    (ps qs rs : List Text)
    → All IsPlain ps
    → All IsPlain qs
    → All IsPlain rs
    → paths_overlap (render true ps) (render true qs) ≡ false
    → path_contains (render true ps) (render true rs) ≡ true
    → path_contains (render true qs) (render true rs) ≡ false
unfolding paths_overlap
apart_share_nothing ps qs rs hp hq hr apart inside =
    let pq = path_contains-is_prefix ps qs hp hq in
    let qp = path_contains-is_prefix qs ps hq hp in
    let pr = path_contains-is_prefix ps rs hp hr in
    let qr = path_contains-is_prefix qs rs hq hr in
    ground (arith, pq, qp, pr, qr, apart, inside, prefixes_meet ps qs rs)
