-- ===== src/Daemon/Start/Ceiling.antt =====
-- The start of the daemon and the run of its loop, together.
use tentacles.Base.{
  ℕ, zero, suc, ◌≡◌, sym, subst, Bool, Option, none, some, List, Text, max, ◌==◌, if_cases,
}
use tentacles.Base.Float.{FloatOps}
use tentacles.Table.{Table}
use tentacles.Table.Start.{Places}
use tentacles.Table.Adopt.{AdoptEnd, adopt}
use tentacles.Table.Ensure.{World}
use tentacles.Table.Invariant.{Inv}
use tentacles.Table.Invariant.Preserved.{Reach-Inv}
use tentacles.Table.Runs.Boot.{adopt-Reach}
use tentacles.Pool.{PoolRuntime}
use tentacles.Schedule.Host.{Host, set_pool}
use tentacles.Daemon.Boot.{TableSettings}
use tentacles.Daemon.Loop.{Loop, Ran, shutdown_slots}
use tentacles.Daemon.Loop.Ceiling.{Holds, total_live, daemon_ceiling}
use tentacles.Daemon.Start.{
  new_table, StartWorld, StartEnd, ensure_scale_sets, adopted, after_adopt, after_list,
  after_scale_sets, adopt_pools, start,
}

new_table-Inv : (s : TableSettings) → Inv (new_table s)
unfolding new_table
new_table-Inv s = record { distinct = tt; sound = tt }

-- The tables of all pools satisfy the invariant.
abbrev pub AllInv : Host → Type 0
AllInv h = (k : ℕ) → Inv (h.pool k).table

module _ (fl : FloatOps) (places : ℕ → Places) (w : StartWorld) where
  adopted-AllInv :
      (k : ℕ) (h : Host) (t : Table)
      → Inv t
      → AllInv h
      → AllInv (adopted fl places w k (h.pool k) h t)
  unfolding set_pool
  adopted-AllInv k h t v all j =
      if_cases (λ (p : PoolRuntime). Inv p.table) (j == k) _ _ (λ _. v) (λ _. all j)

  after_adopt-AllInv :
      (k : ℕ) (h : Host) (rest : Host → Host × StartEnd) (done : Table × Option AdoptEnd)
      → ((u : Host) → AllInv u → AllInv (rest u).0)
      → Inv done.0
      → AllInv h
      → AllInv (after_adopt fl places w k h rest done).0
  after_adopt-AllInv k h rest (t, none) more v all = more _ (adopted-AllInv k h t v all)
  after_adopt-AllInv k h rest (t, some e) more v all = adopted-AllInv k h t v all

  after_list-AllInv :
      (k : ℕ) (h : Host) (rest : Host → Host × StartEnd) (units : Option (List Text))
      → ((u : Host) → AllInv u → AllInv (rest u).0)
      → AllInv h
      → AllInv (after_list fl places w k h rest units).0
  after_list-AllInv k h rest none more all = all
  after_list-AllInv k h rest (some units) more all =
      after_adopt-AllInv k h rest (adopt fl (places k) (w.adoption k) units (h.pool k).table) more
        (Reach-Inv (adopt-Reach fl (places k) (w.adoption k) units (h.pool k).table (all k))
          (all k))
        all

  adopt_pools-AllInv :
      (count k : ℕ) (h : Host) → AllInv h → AllInv (adopt_pools fl places w count k h).0
  unfolding adopt_pools
  adopt_pools-AllInv zero k h all = all
  adopt_pools-AllInv (suc count) k h all =
      after_list-AllInv k h (adopt_pools fl places w count (suc k)) (w.units k)
        (adopt_pools-AllInv count (suc k)) all

  start-AllInv : (n : ℕ) (h : Host) → AllInv h → AllInv (start fl places w n h).0
  unfolding start
  start-AllInv n h all = from (ensure_scale_sets w.scale_set_ready n 0)
    where
      from : (o : Option ℕ) → AllInv (after_scale_sets fl places w n h o).0
      from none = adopt_pools-AllInv n 0 h all
      from (some k) = all

  -- A daemon whose pools begin with fresh tables: after the boot adoption, after any sequence of wake-ups of its
  -- loop, events of listeners, exits, ends of cleanup workers and ticks of samplers that follows, and after
  -- shutdownSlots at the end, every pool's table satisfies the invariant, and all pools together have at
  -- most Capacity.MaxRunners live slots, or as many as the boot adoption left, if those are more, whatever
  -- the outside calls answer.
  pub served_ceiling :
      (answers : ℕ → World) (clock : ℕ → ℕ) (cancelled : ℕ → Bool) (n ceiling : ℕ) (h : Host)
      (settings : ℕ → TableSettings) {l m : Loop}
      → ((k : ℕ) → (h.pool k).table ≡ new_table (settings k))
      → l.host ≡ (start fl places w n h).0
      → Ran fl places answers clock cancelled n ceiling l m
      → let bound =
          max
            (total_live fl places answers clock cancelled n ceiling (start fl places w n h).0)
            ceiling in
        Holds fl places answers clock cancelled n ceiling bound m.host
        × Holds fl places answers clock cancelled n ceiling bound
            (shutdown_slots fl places answers clock cancelled n ceiling n 0 m.host)
  served_ceiling answers clock cancelled n ceiling h settings {l} {m} fresh begins ran =
      let all : AllInv h = λ k. subst Inv (sym (fresh k)) (new_table-Inv (settings k)) in
      let held =
        daemon_ceiling fl places answers clock cancelled n ceiling
          (subst AllInv (sym begins) (start-AllInv n h all)) ran in
      subst
        (λ u.
          let bound = max (total_live fl places answers clock cancelled n ceiling u) ceiling in
          Holds fl places answers clock cancelled n ceiling bound m.host
          × Holds fl places answers clock cancelled n ceiling bound
              (shutdown_slots fl places answers clock cancelled n ceiling n 0 m.host))
        begins held
