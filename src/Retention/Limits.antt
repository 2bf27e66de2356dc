-- ===== src/Retention/Limits.antt =====
-- What is left after pruning.
use tentacles.Base.{
  ℕ, ◌+◌, ◌-◌, ◌≤◌, ◌≡◌, Bool, true, not, ◌&&◌, List, [], ◌∷◌, arith, All, if_cases, ltb, leb,
  sort_by, Bool-cases, inl, inr, ◌||◌,
}
use tentacles.Retention.{
  Archive, total_bytes, PruneWorld, stays, prune_from, prune_sorted, prune, sums_up,
}

-- No archive is too old.
abbrev pub NoneOld : ℕ → List Archive → Type 0
NoneOld cutoff = All (λ a. cutoff ≤ a.created)

module _ (w : PruneWorld) (cutoff max_bytes : ℕ) where
  -- With `kept` bytes in the archives before it, what an end without an error leaves.
  abbrev Ended : ℕ → List Archive × Bool → Type 0
  Ended kept (left, ok) = ok ≡ true → (kept + total_bytes left ≤ max_bytes) × NoneOld cutoff left

  kept-Ended :
      (kept : ℕ) (a : Archive) (rest : List Archive × Bool)
      → cutoff ≤ a.created
      → Ended (kept + a.bytes) rest
      → Ended kept (a ∷ rest.0, rest.1)
  unfolding total_bytes
  kept-Ended kept a rest young h = λ ok. let e = h ok in (omega (arith, e.0), (young, e.1))

  prune_from-Ended :
      (kept total : ℕ) (xs : List Archive)
      → kept ≤ max_bytes
      → total ≡ kept + total_bytes xs
      → Ended kept (prune_from w cutoff max_bytes total xs)
  unfolding prune_from total_bytes
  prune_from-Ended kept total [] h e = λ _. (omega (arith, h), tt)
  prune_from-Ended kept total (a ∷ xs) h e =
      if_cases (Ended kept) (w.expired a) _ _ (λ _ ok. absurd (cc ok))
        (λ _. elim (Bool-cases (stays cutoff max_bytes total a)) [
          | inl s ↦
              let test : (not (ltb a.created cutoff) && leb total max_bytes) ≡ true =
                unfold stays in s in
              let young : cutoff ≤ a.created = ground (arith, test) in
              let fits : total ≤ max_bytes = ground (arith, test) in
              rw s (
                kept-Ended kept a (prune_from w cutoff max_bytes total xs) young (
                  prune_from-Ended (kept + a.bytes) total xs (omega (arith, e, fits))
                    (omega (arith, e))))
          | inr s ↦ rw s (
              if_cases (Ended kept) (w.removable a) _ _
                (λ _. prune_from-Ended kept (total - a.bytes) xs h (omega (arith, e)))
                (λ _ ok. absurd (cc ok)))
        ])

  prune_sorted-Ended : (xs : List Archive) → Ended 0 (prune_sorted w cutoff max_bytes xs)
  unfolding prune_sorted
  prune_sorted-Ended xs =
      if_cases (Ended 0) (sums_up 0 xs) _ _
        (λ _. prune_from-Ended 0 (total_bytes xs) xs (omega arith) (omega arith))
        (λ _ ok. absurd (cc ok))

prune-Ended :
    (w : PruneWorld) (now max_age max_bytes : ℕ) (xs : List Archive)
    → Ended w (now - max_age) max_bytes 0 (prune w now max_age max_bytes xs)
unfolding prune
prune-Ended w now max_age max_bytes xs =
    if_cases (Ended w (now - max_age) max_bytes 0) (leb max_age 0 || leb max_bytes 0) _ _
      (λ _ ok. absurd (cc ok))
      (λ _.
        prune_sorted-Ended w (now - max_age) max_bytes
          (sort_by (λ a b. ltb a.created b.created) xs))

-- If Prune returns no error, the archives that are left come to no more than the allowed bytes, and none
-- of them was made before the allowed age, whatever archives there were.
pub prune_limits :
    (w : PruneWorld) (now max_age max_bytes : ℕ) (xs : List Archive)
    → (prune w now max_age max_bytes xs).1 ≡ true
    → (total_bytes (prune w now max_age max_bytes xs).0 ≤ max_bytes)
      × NoneOld (now - max_age) (prune w now max_age max_bytes xs).0
prune_limits w now max_age max_bytes xs ok =
    let ended = prune-Ended w now max_age max_bytes xs ok in (omega (arith, ended.0), ended.1)
