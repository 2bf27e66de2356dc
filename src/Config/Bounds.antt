-- ===== src/Config/Bounds.antt =====
-- internal/config/config.go: the capacities of an accepted configuration.
use tentacles.Base.{
  ℕ, ◌+◌, ◌*◌, ◌^◌, ◌≤◌, ◌≡◌, ◌≢◌, subst, ap, ◌∙◌, ◌-◌, false, List, [], ◌∷◌, arith, All, AllPairs,
  length,
}
use tentacles.Base.Int.{ℤ, pos, pos_part, ◌≤ℤ◌, ltb_ℤ, add_int, add_int-pos, le_of_not_lt}
use tentacles.Config.{Config, Pool, hard_cap_max_runners}
use tentacles.Config.Failures.{gather-nil, when-nil}
use tentacles.Config.Check.{
  Machine, check_all_pools, check_host, host_checks, pools_checks, all_checks, total_min, validate,
  max_below_one, max_above_cap, min_sum_above_max,
}
use tentacles.Config.Accepted.{IsBounded, check_pools-ids, check_pools-IsBounded}

-- The sum of min_runners, where none is negative.
unfoldable pub min_sum : List Pool → ℕ
min_sum [] = 0
min_sum (p ∷ ps) = pos_part p.capacity.min_runners + min_sum ps

pub host_in_range :
    (w : Machine) (c : Config)
    → validate w c ≡ []
    → (pos 1 ≤ℤ c.capacity.max_runners) × (c.capacity.max_runners ≤ℤ hard_cap_max_runners)
unfolding validate check_host
host_in_range w c e =
    let host = gather-nil (host_checks c.capacity) (gather-nil (all_checks w c) e).0 in
    let low = when-nil _ max_below_one host.0 in
    let high = when-nil _ max_above_cap host.1.0 in
    (
      le_of_not_lt c.capacity.max_runners (pos 1) low,
      le_of_not_lt hard_cap_max_runners c.capacity.max_runners high,
    )

module _ (w : Machine) (c : Config) (accepted : validate w c ≡ []) where
  pools_accepted : All (λ xs. xs ≡ []) (pools_checks w.stat c.capacity.max_runners c.pools)
  unfolding validate check_all_pools
  pools_accepted =
      gather-nil (pools_checks w.stat c.capacity.max_runners c.pools)
        (gather-nil (all_checks w c) accepted).1.0

  pub pools-IsBounded : All (IsBounded c.capacity.max_runners) c.pools
  pools-IsBounded =
      check_pools-IsBounded w.stat c.capacity.max_runners 0 [] [] c.pools pools_accepted.1.0

  pub ids_differ : AllPairs (λ p q. p.id ≢ q.id) c.pools
  ids_differ = (check_pools-ids w.stat c.capacity.max_runners 0 [] [] c.pools pools_accepted.1.0).1

  sum_checked : ltb_ℤ c.capacity.max_runners (total_min (pos 0) c.pools) ≡ false
  sum_checked = when-nil _ min_sum_above_max pools_accepted.1.1.0

min_small :
    (host_max : ℤ) (p : Pool)
    → pos 1 ≤ℤ host_max
    → host_max ≤ℤ hard_cap_max_runners
    → IsBounded host_max p
    → (p.capacity.min_runners ≡ pos (pos_part p.capacity.min_runners))
      × (pos_part p.capacity.min_runners ≤ 32)
min_small host_max p low high b =
    let within = b.max_within_host low in
    let zero_on = b.min_from_zero in let ordered = b.min_within_max in (ground arith, ground arith)

-- The sum of the loop does not wrap around.
total_min-exact :
    (host_max : ℤ) (m : ℕ) (ps : List Pool)
    → pos 1 ≤ℤ host_max
    → host_max ≤ℤ hard_cap_max_runners
    → All (IsBounded host_max) ps
    → m + 32 * length ps ≤ 2 ^ 63 - 1
    → total_min (pos m) ps ≡ pos (m + min_sum ps)
unfolding total_min min_sum
total_min-exact host_max m [] low high b h = ap pos (omega arith)
total_min-exact host_max m (p ∷ ps) low high b h =
    let small = min_small host_max p low high b.0 in
    let n : ℕ = pos_part p.capacity.min_runners in
    let sum : add_int (pos m) p.capacity.min_runners ≡ pos (m + n) =
      ap (add_int (pos m)) small.0 ∙ add_int-pos m n (omega (arith, small.1, h)) in
    ap (λ s. total_min s ps) sum
    ∙ total_min-exact host_max (m + n) ps low high b.1 (omega (arith, small.1, h))
    ∙ ap pos (omega arith)

-- If Validate reports nothing, the host allows 1 to 32 runners; every pool has 0 ≤ min_runners ≤
-- max_runners, 1 ≤ max_runners and max_runners at most the host's, and an ID of the pattern; no two pools
-- have one ID; and the minimums of all pools together are at most the host's maximum, although the code
-- adds them in a wrapping integer. There are at most 2^57 pools.
pub accepted_capacities :
    (w : Machine) (c : Config)
    → validate w c ≡ []
    → length c.pools ≤ 2 ^ 57
    → (pos 1 ≤ℤ c.capacity.max_runners)
      × (c.capacity.max_runners ≤ℤ hard_cap_max_runners)
      × All (IsBounded c.capacity.max_runners) c.pools
      × AllPairs (λ p q. p.id ≢ q.id) c.pools
      × (pos (min_sum c.pools) ≤ℤ c.capacity.max_runners)
accepted_capacities w c e h =
    let range = host_in_range w c e in
    let bounded = pools-IsBounded w c e in
    let exact : total_min (pos 0) c.pools ≡ pos (min_sum c.pools) =
      total_min-exact c.capacity.max_runners 0 c.pools range.0 range.1 bounded (omega (arith, h))
      ∙ ap pos (omega arith) in
    let checked = subst (λ s. ltb_ℤ c.capacity.max_runners s ≡ false) exact (sum_checked w c e) in
    (
      range.0,
      range.1,
      bounded,
      ids_differ w c e,
      le_of_not_lt c.capacity.max_runners (pos (min_sum c.pools)) checked,
    )
