-- ===== src/FilePath/Contains.antt =====
-- filepath.Rel of clean paths, by their segments, and the test on its result for a path that lies below
-- another.
use tentacles.Base.{
  ℕ, ◌≡◌, ◌≢◌, refl, sym, ap, ◌∙◌, inl, inr, Bool, true, false, not, ◌&&◌, ◌||◌, Option, none, some,
  List, [], ◌∷◌, ◌++◌, Text, codes, text_eq, text_eq_iff, text_eq_refl, starts_with, arith, All,
  ◌==◌, if◌then◌else◌, if_false, Bool-cases,
}
use tentacles.FilePath.{
  is_abs, split_slash, join_slash, dot, dot_dot, render, base_segments, target_segments, ups,
  relate, rel_clean,
}
use tentacles.FilePath.Segments.{IsPlain, split_slash-join_slash}
use tentacles.FilePath.Rendered.{IsSegment, words_of, join-relative, is_abs-render}

-- Whether a list of segments is the beginning of another.
unfoldable pub is_prefix : List Text → List Text → Bool
unfolding text_eq
is_prefix [] ts = true
is_prefix (b ∷ qs) [] = false
is_prefix (b ∷ qs) (t ∷ ts) = let rest = is_prefix qs ts in if text_eq b t then rest else false

pub is_prefix_refl : (ws : List Text) → is_prefix ws ws ≡ true
unfolding is_prefix
is_prefix_refl [] = refl
is_prefix_refl (w ∷ ws) = rw (text_eq_refl w) (is_prefix_refl ws)

pub is_prefix-append : (fs ps qs : List Text) → is_prefix (fs ++ ps) (fs ++ qs) ≡ is_prefix ps qs
unfolding is_prefix
is_prefix-append [] ps qs = refl
is_prefix-append (f ∷ fs) ps qs = rw (text_eq_refl f) (is_prefix-append fs ps qs)

pub is_prefix-forks : (x y : Text) (ps qs : List Text) → x ≢ y → is_prefix (x ∷ ps) (y ∷ qs) ≡ false
unfolding is_prefix
is_prefix-forks x y ps qs differ = elim (Bool-cases (text_eq x y)) [
  | inl e ↦ absurd (differ ((text_eq_iff x y).0 e))
  | inr e ↦ rw e refl
]

relate-append : (fs ps qs : List Text) → relate (fs ++ ps) (fs ++ qs) ≡ relate ps qs
unfolding relate
relate-append [] ps qs = refl
relate-append (f ∷ fs) ps qs = rw (text_eq_refl f) (relate-append fs ps qs)

-- The test of a relative path that does not go up.
unfoldable pub stays_below : Text → Bool
unfolding text_eq starts_with
stays_below r = not (text_eq r dot_dot) && not (starts_with (codes "../") r)

plain_below : (w : Text) (ws : List Text) → IsPlain w → stays_below (join_slash (w ∷ ws)) ≡ true
unfolding stays_below join_slash text_eq starts_with
plain_below [] ws h = absurd (cc (h.0))
plain_below (c ∷ []) [] h = ground arith
plain_below (c ∷ []) (v ∷ vs) h = ground arith
plain_below (c ∷ d ∷ []) [] h = ground (arith, h.2)
plain_below (c ∷ d ∷ []) (v ∷ vs) h = ground (arith, h.2)
plain_below (c ∷ d ∷ e ∷ w) [] h = ground (arith, h.3.1.1.0)
plain_below (c ∷ d ∷ e ∷ w) (v ∷ vs) h = ground (arith, h.3.1.1.0)

up_above : (ws : List Text) → stays_below (join_slash (dot_dot ∷ ws)) ≡ false
unfolding stays_below join_slash text_eq starts_with
up_above [] = refl
up_above (v ∷ vs) = refl

-- The answer for the segments past the common ones.
unfoldable pub below : Option (List Text) → Bool
below none = false
below (some ws) = stays_below (join_slash ws)

relate-below :
    (ps qs : List Text) → All IsPlain ps → All IsPlain qs → below (relate ps qs) ≡ is_prefix ps qs
unfolding relate is_prefix below
relate-below [] [] ha hb = unfold stays_below join_slash text_eq starts_with in refl
relate-below [] (b ∷ qs) ha hb = plain_below b qs hb.0
relate-below (a ∷ ps) [] ha hb = rw (ha.0.2) (up_above (ups ps))
relate-below (a ∷ ps) (b ∷ qs) ha hb = elim (Bool-cases (text_eq a b)) [
  | inl e ↦ rw e (relate-below ps qs ha.1 hb.1)
  | inr e ↦ rw (e, ha.0.2) (up_above (ups ps ++ (b ∷ qs)))
]

-- The text of segments is none of the texts that Rel treats on their own.
join_not_nil : (w : Text) (ws : List Text) → IsSegment w → text_eq (join_slash (w ∷ ws)) [] ≡ false
unfolding join_slash text_eq
join_not_nil [] ws h = absurd (cc (h.1))
join_not_nil (c ∷ w) [] h = refl
join_not_nil (c ∷ w) (v ∷ vs) h = refl

join_not_dot : (w : Text) (ws : List Text) → IsSegment w → text_eq (join_slash (w ∷ ws)) dot ≡ false
unfolding join_slash text_eq
join_not_dot w [] h = h.2
join_not_dot [] (v ∷ vs) h = absurd (cc (h.1))
join_not_dot (c ∷ []) (v ∷ vs) h = ground arith
join_not_dot (c ∷ d ∷ w) (v ∷ vs) h = ground arith

-- Where the segments of a target are read off its text: not of a relative path without segments.
abbrev pub IsAnchored : Bool → List Text → Type 0
IsAnchored true ws = Unit
IsAnchored false ws = ws ≢ []

not_root : (c : ℕ) (s : Text) → (c == 47) ≡ false → text_eq (c ∷ s) (47 ∷ []) ≡ false
unfolding text_eq
not_root c s h = rw h refl

target_relative :
    (s : Text) → text_eq s [] ≡ false → is_abs s ≡ false → target_segments s ≡ split_slash s
unfolding target_segments is_abs
target_relative [] e h = absurd (unfold text_eq in cc e)
target_relative (c ∷ s) e h =
    if_false (text_eq (c ∷ s) (47 ∷ [])) [] (split_slash (if c == 47 then s else c ∷ s))
      (not_root c s h)
    ∙ ap split_slash (if_false (c == 47) s (c ∷ s) h)

base_relative :
    (s : Text)
    → text_eq s [] ≡ false
    → is_abs s ≡ false
    → text_eq s dot ≡ false
    → base_segments s ≡ split_slash s
unfolding base_segments is_abs
base_relative [] e h k = absurd (unfold text_eq in cc e)
base_relative (c ∷ s) e h k =
    if_false (text_eq (c ∷ s) (47 ∷ []) || text_eq (c ∷ s) dot) []
      (split_slash (if c == 47 then s else c ∷ s)) (rw (not_root c s h, k) refl)
    ∙ ap split_slash (if_false (c == 47) s (c ∷ s) h)

target-render :
    (rooted : Bool) (ws : List Text)
    → IsAnchored rooted ws
    → All IsSegment ws
    → target_segments (render rooted ws) ≡ ws
unfolding render
target-render true [] a h = unfold target_segments join_slash text_eq in refl
target-render false [] a h = absurd (a refl)
target-render true (w ∷ ws) a h =
    unfold target_segments text_eq in
    rw (join_not_nil w ws h.0) (split_slash-join_slash w ws (words_of (w ∷ ws) h))
target-render false (w ∷ ws) a h =
    target_relative (join_slash (w ∷ ws)) (join_not_nil w ws h.0) (join-relative w ws h)
    ∙ split_slash-join_slash w ws (words_of (w ∷ ws) h)

base-render :
    (rooted : Bool) (ws : List Text) → All IsSegment ws → base_segments (render rooted ws) ≡ ws
unfolding render
base-render true [] h = unfold base_segments join_slash text_eq in refl
base-render false [] h = unfold base_segments text_eq in refl
base-render true (w ∷ ws) h =
    unfold base_segments text_eq in
    rw (join_not_nil w ws h.0) (split_slash-join_slash w ws (words_of (w ∷ ws) h))
base-render false (w ∷ ws) h =
    base_relative (join_slash (w ∷ ws)) (join_not_nil w ws h.0) (join-relative w ws h)
      (join_not_dot w ws h.0)
    ∙ split_slash-join_slash w ws (words_of (w ∷ ws) h)

same_kind : (r : Bool) → ((r && r) || (not r && not r)) ≡ true
same_kind true = refl
same_kind false = refl

dot_below : below (some (dot ∷ [])) ≡ true
unfolding below stays_below join_slash text_eq starts_with
dot_below = refl

-- Two clean paths of one kind with common first segments, names past those.
module _ (rooted : Bool) (fs ps qs : List Text) (segments_p : All IsSegment (fs ++ ps))
    (segments_q : All IsSegment (fs ++ qs)) (anchored : IsAnchored rooted (fs ++ qs))
    (plain_p : All IsPlain ps) (plain_q : All IsPlain qs) where
  same_text : render rooted (fs ++ qs) ≡ render rooted (fs ++ ps) → is_prefix ps qs ≡ true
  same_text e =
      let same : fs ++ qs ≡ fs ++ ps =
        sym (base-render rooted (fs ++ qs) segments_q)
        ∙ ap base_segments e
        ∙ base-render rooted (fs ++ ps) segments_p in
      sym (is_prefix-append fs ps qs) ∙ ap (is_prefix (fs ++ ps)) same ∙ is_prefix_refl (fs ++ ps)

  pub rel_clean-below :
      below (rel_clean (render rooted (fs ++ ps)) (render rooted (fs ++ qs))) ≡ is_prefix ps qs
  unfolding rel_clean
  rel_clean-below =
      elim (Bool-cases (text_eq (render rooted (fs ++ qs)) (render rooted (fs ++ ps)))) [
        | inl e ↦ rw e (dot_below ∙ sym (same_text ((text_eq_iff _ _).0 e)))
        | inr e ↦
            rw
              (
                e,
                is_abs-render rooted (fs ++ ps) segments_p,
                is_abs-render rooted (fs ++ qs) segments_q,
                same_kind rooted,
                base-render rooted (fs ++ ps) segments_p,
                target-render rooted (fs ++ qs) anchored segments_q,
                relate-append fs ps qs,
              )
              (relate-below ps qs plain_p plain_q)
      ]
