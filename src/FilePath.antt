-- ===== src/FilePath.antt =====
-- The part of Go's path/filepath, on Unix, that the program uses. A path is the bytes of its text.
pub mod Segments
pub mod Rendered
pub mod Contains
mod Examples
use tentacles.Base.{
  ℕ, Bool, true, false, Option, none, some, List, [], ◌∷◌, ◌++◌, Text, codes, text_eq, starts_with,
  ◌==◌, if◌then◌else◌, not, ◌&&◌, ◌||◌,
}
use mathlib.Core.List.{reverse}

-- filepath.IsAbs
unfoldable pub is_abs : Text → Bool
is_abs [] = false
is_abs (c ∷ s) = c == 47

-- The first segment and those after it.
unfoldable pub split_first : Text → Text × List Text
split_first [] = ([], [])
split_first (c ∷ s) =
    let rest = split_first s in if c == 47 then ([], rest.0 ∷ rest.1) else (c ∷ rest.0, rest.1)

-- strings.Split at '/'
unfoldable pub split_slash : Text → List Text
unfolding split_first
split_slash s = let parts = split_first s in parts.0 ∷ parts.1

-- strings.Join with '/'
unfoldable pub join_slash : List Text → Text
join_slash [] = []
join_slash (w ∷ []) = w
join_slash (w ∷ v ∷ vs) = w ++ (47 ∷ join_slash (v ∷ vs))

abbrev pub dot : Text
dot = 46 ∷ []

abbrev pub dot_dot : Text
dot_dot = 46 ∷ 46 ∷ []

-- What `..` does to the segments before it, the last one first.
unfoldable pub step_up : Bool → List Text → List Text
unfolding text_eq
step_up rooted [] = if rooted then [] else dot_dot ∷ []
step_up rooted (w ∷ out) = if text_eq w dot_dot then dot_dot ∷ (w ∷ out) else out

-- One segment of filepath.Clean.
unfoldable pub step : Bool → List Text → Text → List Text
unfolding step_up text_eq
step rooted out w =
    if text_eq w [] || text_eq w dot
    then out
    else if text_eq w dot_dot
    then step_up rooted out
    else w ∷ out

unfoldable pub walk : Bool → List Text → List Text → List Text
unfolding step
walk rooted out [] = out
walk rooted out (w ∷ ws) = walk rooted (step rooted out w) ws

-- The text of cleaned segments.
unfoldable pub render : Bool → List Text → Text
unfolding join_slash
render true ws = 47 ∷ join_slash ws
render false [] = dot
render false (w ∷ ws) = join_slash (w ∷ ws)

-- filepath.Clean
unfoldable pub clean_path : Text → Text
unfolding is_abs split_slash walk render
clean_path s = render (is_abs s) (reverse (walk (is_abs s) [] (split_slash s)))

-- filepath.Join
unfoldable pub join : List Text → Text
unfolding clean_path join_slash
join [] = []
join ([] ∷ ws) = join ws
join ((c ∷ s) ∷ ws) = clean_path (join_slash ((c ∷ s) ∷ ws))

-- The segments of a clean path that is the base of Rel, and of one that is its target.
unfoldable pub base_segments : Text → List Text
unfolding split_slash text_eq
base_segments [] = []
base_segments (c ∷ s) =
    if text_eq (c ∷ s) (47 ∷ []) || text_eq (c ∷ s) dot
    then []
    else split_slash (if c == 47 then s else c ∷ s)

unfoldable pub target_segments : Text → List Text
unfolding split_slash text_eq
target_segments [] = []
target_segments (c ∷ s) =
    if text_eq (c ∷ s) (47 ∷ []) then [] else split_slash (if c == 47 then s else c ∷ s)

abbrev pub ups : List Text → List Text
ups [] = []
ups (w ∷ ws) = dot_dot ∷ ups ws

-- Past their common segments: back from the base, then down to the target.
unfoldable pub relate : List Text → List Text → Option (List Text)
unfolding text_eq
relate [] ts = some ts
relate (b ∷ bs) [] = if text_eq b dot_dot then none else some (ups (b ∷ bs))
relate (b ∷ bs) (t ∷ ts) =
    let rest = relate bs ts in
    if text_eq b t
    then rest
    else if text_eq b dot_dot
    then none
    else some (ups (b ∷ bs) ++ (t ∷ ts))

-- filepath.Rel of clean paths; `none` is its error
unfoldable pub rel_clean : Text → Text → Option (List Text)
unfolding relate base_segments target_segments is_abs text_eq
rel_clean base target =
    if text_eq target base
    then some (dot ∷ [])
    else if (is_abs base && is_abs target) || (not (is_abs base) && not (is_abs target))
    then relate (base_segments base) (target_segments target)
    else none

abbrev pub joined : Option (List Text) → Option Text
joined none = none
joined (some ws) = some (join_slash ws)

-- filepath.Rel
unfoldable pub rel : Text → Text → Option Text
unfolding rel_clean clean_path join_slash
rel base target = joined (rel_clean (clean_path base) (clean_path target))

-- filepath.Dir
unfoldable pub dir : Text → Text
unfolding clean_path split_slash join_slash is_abs
dir s = clean_path (upto (reverse (split_slash s)))
  where
    parent : Text → Text
    parent [] = if is_abs s then codes "/" else []
    parent (c ∷ t) = c ∷ t

    upto : List Text → Text
    upto [] = []
    upto (w ∷ ws) = parent (join_slash (reverse ws))
