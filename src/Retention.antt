-- ===== src/Retention.antt =====
-- internal/logship/retention.go and logship.go: which diagnostic archives are pruned, and the text that
-- a runner's name becomes in an archive's name.
pub mod Limits
mod Examples
use tentacles.Base.{
  ℕ, ◌+◌, ◌-◌, ◌^◌, Bool, true, false, not, ◌&&◌, ◌||◌, List, [], ◌∷◌, Text, ltb, leb, ◌==◌,
  if◌then◌else◌, sort_by,
}

pub record Archive : Type 0 where
  pub name : Text
  pub created : ℕ
  pub bytes : ℕ

unfoldable pub total_bytes : List Archive → ℕ
total_bytes [] = 0
total_bytes (a ∷ xs) = a.bytes + total_bytes xs

abbrev pub max_int64 : ℕ
max_int64 = 2 ^ 63 - 1

-- The loop that adds up the sizes; `false` is an overflow of the signed sum.
unfoldable pub sums_up : ℕ → List Archive → Bool
sums_up total [] = true
sums_up total (a ∷ xs) =
    let rest = sums_up (total + a.bytes) xs in
    if ltb (max_int64 - total) a.bytes then false else rest

-- What the world answers about an archive: whether the context has ended when its turn comes, and
-- whether it is still the same and can be removed.
pub record PruneWorld : Type 0 where
  pub expired : Archive → Bool
  pub removable : Archive → Bool

-- `!archive.created.Before(cutoff) && total <= maxBytes`
unfoldable pub stays : ℕ → ℕ → ℕ → Archive → Bool
stays cutoff max_bytes total a = not (ltb a.created cutoff) && leb total max_bytes

-- The loop over the archives, oldest first: those that are left, and whether it ends without an error.
unfoldable pub prune_from : PruneWorld → ℕ → ℕ → ℕ → List Archive → List Archive × Bool
unfolding stays
prune_from w cutoff max_bytes total [] = ([], true)
prune_from w cutoff max_bytes total (a ∷ xs) =
    let kept = stays cutoff max_bytes total a in
    let rest = prune_from w cutoff max_bytes (if kept then total else total - a.bytes) xs in
    if w.expired a
    then (a ∷ xs, false)
    else if kept
    then (a ∷ rest.0, rest.1)
    else if w.removable a
    then rest
    else (a ∷ xs, false)

unfoldable pub prune_sorted : PruneWorld → ℕ → ℕ → List Archive → List Archive × Bool
unfolding prune_from sums_up total_bytes
prune_sorted w cutoff max_bytes xs =
    if sums_up 0 xs then prune_from w cutoff max_bytes (total_bytes xs) xs else (xs, false)

-- Prune of the archives that the log directory holds
unfoldable pub prune : PruneWorld → ℕ → ℕ → ℕ → List Archive → List Archive × Bool
unfolding prune_sorted sort_by
prune w now max_age max_bytes xs =
    if leb max_age 0 || leb max_bytes 0
    then (xs, false)
    else prune_sorted w (now - max_age) max_bytes (sort_by (λ a b. ltb a.created b.created) xs)

unfoldable pub is_name_byte : ℕ → Bool
is_name_byte c =
    (leb 97 c && leb c 122)
    || ((leb 65 c && leb c 90)
        || ((leb 48 c && leb c 57) || ((c == 46) || ((c == 95) || (c == 45)))))

-- sanitize, of an ASCII text: the text and whether it has a valid character
unfoldable pub sanitize : Text → Text × Bool
unfolding is_name_byte
sanitize [] = ([], false)
sanitize (c ∷ s) =
    let rest = sanitize s in if is_name_byte c then (c ∷ rest.0, true) else (95 ∷ rest.0, rest.1)
