-- ===== src/Config/Accepted.antt =====
-- internal/config/config.go: what an empty list of failures says of the pools of a configuration.
use tentacles.Base.{
  ℕ, suc, ◌≡◌, ◌≢◌, refl, sym, subst, ◌∙◌, inl, inr, Bool, true, Option, none, some, List, [], ◌∷◌,
  Text, text_eq, text_eq_iff, text_eq_refl, arith, All, AllPairs, find, put, find-put_same,
  find-put_other, Bool-cases,
}
use mathlib.Core.List.{append-eq-nil_iff, map-eq-nil_iff}
use tentacles.Base.Int.{ℤ, pos, ◌≤ℤ◌, le_of_not_lt}
use tentacles.Config.{Pool}
use tentacles.Config.Names.{pool_id_matches}
use tentacles.Config.PoolCheck.{
  PoolFailure, validate_pool, check_capacity_of, capacity_checks, pool_checks, min_negative,
  max_below_one, min_above_max, max_above_host,
}
use tentacles.Config.Failures.{gather-nil, when-nil, when-not-nil}
use tentacles.Config.JobHome.{FileStat}
use tentacles.Config.Check.{
  Failure, duplicate_id, duplicate_target, pool_failure, Seen, noted, note_seen, target_of,
  check_pools, exists,
}

-- What validatePool asks of a pool's capacity and ID.
pub record IsBounded (host_max : ℤ) (p : Pool) : Type 0 where
  pub id_pattern : pool_id_matches p.id ≡ true
  pub min_from_zero : pos 0 ≤ℤ p.capacity.min_runners
  pub max_from_one : pos 1 ≤ℤ p.capacity.max_runners
  pub min_within_max : p.capacity.min_runners ≤ℤ p.capacity.max_runners
  pub max_within_host : pos 1 ≤ℤ host_max → p.capacity.max_runners ≤ℤ host_max

capacity-IsBounded :
    (host_max : ℤ) (p : Pool)
    → pool_id_matches p.id ≡ true
    → check_capacity_of host_max p.capacity ≡ []
    → IsBounded host_max p
unfolding check_capacity_of
capacity-IsBounded host_max p id e =
    let checks = gather-nil (capacity_checks host_max p.capacity) e in
    let first = when-nil _ min_negative checks.0 in
    let second = when-nil _ max_below_one checks.1.0 in
    let third = when-nil _ min_above_max checks.1.1.0 in
    let fourth = when-nil _ max_above_host checks.1.1.1.0 in
    record {
      id_pattern = id;
      min_from_zero = le_of_not_lt p.capacity.min_runners (pos 0) first;
      max_from_one = le_of_not_lt p.capacity.max_runners (pos 1) second;
      min_within_max = le_of_not_lt p.capacity.max_runners p.capacity.min_runners third;
      max_within_host = λ h. ground (arith, fourth, h);
    }

-- A pool that validatePool accepts has an ID of the pattern, and 0 ≤ min_runners ≤ max_runners and
-- 1 ≤ max_runners; and max_runners is at most that of the host, if the host allows any runner.
pub validate_pool-IsBounded :
    (test : Text → Bool) (host_max : ℤ) (p : Pool)
    → validate_pool test host_max p ≡ []
    → IsBounded host_max p
unfolding validate_pool
validate_pool-IsBounded test host_max p e =
    let checks = gather-nil (pool_checks test host_max p) e in
    capacity-IsBounded host_max p (when-not-nil _ PoolFailure.id_pattern checks.0) checks.1.0

-- A text that is new among those seen.
abbrev pub IsNew : Seen → Text → Type 0
IsNew seen k = find text_eq k seen ≡ none

note_seen-IsNew :
    (f : ℕ → Failure) (i : ℕ) (k : Text) (seen : Seen)
    → (note_seen f i k seen).0 ≡ []
    → IsNew seen k × ((note_seen f i k seen).1 ≡ put text_eq k i seen)
unfolding note_seen
note_seen-IsNew f i k seen = from (find text_eq k seen)
  where
    from :
        (o : Option ℕ)
        → (noted f i k seen o).0 ≡ []
        → (o ≡ none) × ((noted f i k seen o).1 ≡ put text_eq k i seen)
    from none e = (refl, refl)
    from (some j) e = cc

-- What is new after `k` is put is not `k`, and was new before.
IsNew-before :
    (k j : Text) (i : ℕ) (seen : Seen) → IsNew (put text_eq k i seen) j → IsNew seen j × (k ≢ j)
IsNew-before k j i seen h = elim (Bool-cases (text_eq j k)) [
  | inl e ↦
      let same : j ≡ k = (text_eq_iff j k).0 e in
      absurd (cc (find-put_same text_eq k i seen (text_eq_refl k), same, h))
  | inr e ↦ (
    sym (
          find-put_other text_eq j k i seen e
            (λ m km. ground (arith, text_eq_iff k m, text_eq_iff j m, text_eq_iff j k, km, e)))
        ∙ h,
    λ same. cc (text_eq_refl k, same, e),
  )
]

all-IsNew_before :
    (k : Text) (i : ℕ) (seen : Seen) (ps : List Pool)
    → All (λ q. IsNew (put text_eq k i seen) q.id) ps
    → All (λ q. IsNew seen q.id) ps × All (λ q. k ≢ q.id) ps
all-IsNew_before k i seen [] h = (tt, tt)
all-IsNew_before k i seen (q ∷ ps) h =
    let now = IsNew-before k q.id i seen h.0 in
    let later = all-IsNew_before k i seen ps h.1 in ((now.0, later.0), (now.1, later.1))

pub check_pools-ids :
    (stat : Text → FileStat) (host_max : ℤ) (i : ℕ) (ids targets : Seen) (ps : List Pool)
    → check_pools stat host_max i ids targets ps ≡ []
    → All (λ p. IsNew ids p.id) ps × AllPairs (λ p q. p.id ≢ q.id) ps
unfolding check_pools
check_pools-ids stat host_max i ids targets [] e = (tt, tt)
check_pools-ids stat host_max i ids targets (p ∷ ps) e =
    let id_note = note_seen (duplicate_id i) i p.id ids in
    let target_note = note_seen (duplicate_target i) i (target_of p) targets in
    let parts = append-eq-nil_iff.0 (append-eq-nil_iff.0 e).1 in
    let fresh = note_seen-IsNew (duplicate_id i) i p.id ids parts.0 in
    let later : All (λ q. IsNew id_note.1 q.id) ps × AllPairs (λ q r. q.id ≢ r.id) ps =
      check_pools-ids stat host_max (suc i) id_note.1 target_note.1 ps
        (append-eq-nil_iff.0 parts.1).1 in
    let before =
      all-IsNew_before p.id i ids ps
        (subst (λ seen. All (λ q. IsNew seen q.id) ps) fresh.1 later.0) in
    ((fresh.0, before.0), (before.1, later.1))

pub check_pools-IsBounded :
    (stat : Text → FileStat) (host_max : ℤ) (i : ℕ) (ids targets : Seen) (ps : List Pool)
    → check_pools stat host_max i ids targets ps ≡ []
    → All (IsBounded host_max) ps
unfolding check_pools
check_pools-IsBounded stat host_max i ids targets [] e = tt
check_pools-IsBounded stat host_max i ids targets (p ∷ ps) e =
    let parts = append-eq-nil_iff.0 e in
    let parts' = append-eq-nil_iff.0 (append-eq-nil_iff.0 parts.1).1 in
    (
      validate_pool-IsBounded (λ f. exists (stat f)) host_max p
          ((map-eq-nil_iff (pool_failure i)).0 parts.0),
      check_pools-IsBounded stat host_max (suc i) _ _ ps parts'.1,
    )
