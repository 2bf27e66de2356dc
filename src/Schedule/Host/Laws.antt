-- ===== src/Schedule/Host/Laws.antt =====
-- The laws that the scheduler relies on, for the pools of the host.
use tentacles.Base.{
  ℕ, ◌≤◌, ◌≡◌, ◌≢◌, refl, sym, ap, ◌∙◌, Bool, List, [], ◌∷◌, arith, ltb, ◌==◌, if_cases, length,
  length-keep, length-sort_by, keep, map, max,
}
use tentacles.Base.Float.{FloatOps}
use tentacles.Slot.{is_live}
use tentacles.Table.{SlotRec, Table, active, snapshot, count_live, set_desired}
use tentacles.Table.Start.{Places}
use tentacles.Table.Ensure.{World, ensure}
use tentacles.Table.Ensure.Total.{ensure_ceiling}
use tentacles.Table.Invariant.{Inv}
use tentacles.Table.Invariant.Preserved.{Reach-Inv}
use tentacles.Table.Steps.{Reach-Step, sets_desired}
use tentacles.Table.Runs.Ensure.{ensure-Inv}
use tentacles.Pool.{PoolRuntime}
use tentacles.Schedule.{PoolsLaws, all_active, reconcile_pools}
use tentacles.Schedule.Ceiling.{host_ceiling}
use tentacles.Schedule.Kept.{reconcile_pools-Valid}
use tentacles.Schedule.Host.{
  Host, live_slots, set_pool, ensured_pool, host_ensure, host_set_desired, host_pools,
}

length-map_slot : (rs : List SlotRec) → length (map (λ r. r.slot) rs) ≡ length rs
length-map_slot [] = refl
length-map_slot (r ∷ rs) = omega (arith, length-map_slot rs)

-- Active lists as many slots as are live.
pub length-active : (t : Table) → length (active t) ≡ count_live t.slots
unfolding active snapshot count_live
length-active t =
    let rs = keep (λ r. is_live r.state) t.slots in
    length-sort_by (λ s s'. ltb s.id s'.id) (map (λ r. r.slot) rs)
    ∙ length-map_slot rs
    ∙ length-keep (λ r. is_live r.state) t.slots

module _ (fl : FloatOps) (places : ℕ → Places) (answers : ℕ → World) (clock : ℕ → ℕ)
    (cancelled : ℕ → Bool) where
  ensure_live :
      (k n : ℕ) (h : Host)
      → Inv (h.pool k).table
      → live_slots ((host_ensure fl places answers clock cancelled k n h).0.pool k)
        ≤ max (live_slots (h.pool k)) n
  unfolding host_ensure set_pool ensured_pool live_slots
  ensure_live k n h v =
      let t = (h.pool k).table in
      let u = (ensure fl (places k) (answers h.asked) n t).0 in
      if_cases (λ (p : PoolRuntime). length (active p.table) ≤ max (length (active t)) n) (k == k) _
        _
        (λ _. omega (
          arith,
          length-active t,
          length-active u,
          ensure_ceiling fl (places k) (answers h.asked) n t v,
        ))
        (λ e. absurd (ground (arith, e)))

  others_live :
      (j k n : ℕ) (h : Host)
      → j ≢ k
      → live_slots ((host_ensure fl places answers clock cancelled k n h).0.pool j)
        ≤ live_slots (h.pool j)
  unfolding host_ensure set_pool
  others_live j k n h other =
      if_cases (λ (p : PoolRuntime). live_slots p ≤ live_slots (h.pool j)) (j == k) _ _
        (λ e. absurd (other (ground (arith, e)))) (λ _. omega arith)

  desired_live :
      (j k n : ℕ) (h : Host)
      → live_slots ((host_set_desired fl places answers clock cancelled k n h).pool j)
        ≡ live_slots (h.pool j)
  unfolding host_set_desired set_pool live_slots
  desired_live j k n h =
      if_cases (λ (p : PoolRuntime). length (active p.table) ≡ length (active (h.pool j).table))
        (j == k) _ _
        (λ e.
          let same : j ≡ k = ground (arith, e) in
          let t = (h.pool k).table in
          let kept : count_live (set_desired n t).slots ≡ count_live t.slots =
            unfold set_desired in refl in
          length-active (set_desired n t)
          ∙ kept
          ∙ sym (length-active t)
          ∙ ap (λ m. length (active (h.pool m).table)) (sym same))
        (λ _. refl)

  -- The pools of a host whose tables satisfy the invariant keep the scheduler's laws.
  abbrev host_laws : (n : ℕ) → PoolsLaws (host_pools fl places answers clock cancelled n)
  host_laws n = record {
    Valid = λ h. (k : ℕ) → Inv (h.pool k).table;
    valid-set_desired = set_desired_valid;
    live-set_desired = desired_live;
    valid-ensure = ensure_valid;
    live-ensure = λ k m h v. ensure_live k m h (v k);
    live-others = λ j k m h v other. others_live j k m h other;
  }
    where
      ensure_valid :
          (k m : ℕ) (h : Host)
          → ((j : ℕ) → Inv (h.pool j).table)
          → (j : ℕ) → Inv ((host_ensure fl places answers clock cancelled k m h).0.pool j).table
      ensure_valid k m h v j =
          unfold host_ensure set_pool ensured_pool in
          if_cases (λ (p : PoolRuntime). Inv p.table) (j == k) _ _
            (λ _. ensure-Inv fl (places k) (answers h.asked) m (h.pool k).table (v k)) (λ _. v j)

      set_desired_valid :
          (k m : ℕ) (h : Host)
          → ((j : ℕ) → Inv (h.pool j).table)
          → (j : ℕ) → Inv ((host_set_desired fl places answers clock cancelled k m h).pool j).table
      set_desired_valid k m h v j =
          unfold host_set_desired set_pool in
          if_cases (λ (p : PoolRuntime). Inv p.table) (j == k) _ _
            (λ _. Reach-Inv (Reach-Step (sets_desired m)) (v k)) (λ _. v j)

  pub reconcile_pools-Inv :
      (n ceiling cursor : ℕ) (h : Host)
      → ((k : ℕ) → Inv (h.pool k).table)
      → (k : ℕ)
      → Inv
          ((reconcile_pools
              (host_pools fl places answers clock cancelled n)
              ceiling
              cursor
              h).0.0.pool
            k).table
  reconcile_pools-Inv n ceiling cursor h v =
      reconcile_pools-Valid (host_pools fl places answers clock cancelled n) (host_laws n) ceiling
        cursor h v

  -- If every pool's table satisfies the invariant, reconcilePools leaves in all pools together no more
  -- live slots than there were before or than Capacity.MaxRunners, whichever is more, whatever the
  -- outside calls of all its Ensures answer, also when one fails or the context ends.
  pub reconcile_pools_ceiling :
      (n ceiling cursor : ℕ) (h : Host)
      → ((k : ℕ) → Inv (h.pool k).table)
      → all_active
          (host_pools fl places answers clock cancelled n)
          n
          0
          (reconcile_pools (host_pools fl places answers clock cancelled n) ceiling cursor h).0.0
        ≤ max (all_active (host_pools fl places answers clock cancelled n) n 0 h) ceiling
  reconcile_pools_ceiling n ceiling cursor h v =
      host_ceiling (host_pools fl places answers clock cancelled n) (host_laws n) ceiling cursor h v
