-- ===== src/Retention/Examples.antt =====
-- Pruning of concrete archives.
use tentacles.Base.{ℕ, ◌≤◌, ◌≡◌, refl, true, false, List, [], ◌∷◌, codes, sort_by, insert_by}
use tentacles.Retention.{
  Archive, PruneWorld, prune, prune_sorted, prune_from, stays, sums_up, total_bytes,
}
use tentacles.Retention.Limits.{NoneOld, prune_limits}

abbrev archive : ℕ → ℕ → Archive
archive created bytes = record { name = codes "diag"; created = created; bytes = bytes }

abbrev removes_all : PruneWorld
removes_all = record { expired = λ a. false; removable = λ a. true }

-- The oldest is too old, and the next one is too much.
abbrev archives : List Archive
archives = archive 900 10 ∷ archive 100 50 ∷ archive 700 60 ∷ []

left_over : prune removes_all 1000 500 50 archives ≡ (archive 900 10 ∷ [], true)
unfolding prune prune_sorted prune_from stays sums_up total_bytes sort_by insert_by
left_over = refl

prune_limits_example :
    (total_bytes (prune removes_all 1000 500 50 archives).0 ≤ 50)
    × NoneOld 500 (prune removes_all 1000 500 50 archives).0
prune_limits_example = prune_limits removes_all 1000 500 50 archives (rw left_over refl)
