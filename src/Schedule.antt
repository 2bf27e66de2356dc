-- ===== src/Schedule.antt =====
-- internal/app/scheduler.go: reconcilePools, over what the scheduler needs of the pools. `S` is the
-- state of the host with all pools; an outside answer that is still to come is part of it.
pub mod Ceiling
pub mod Kept
pub mod Rounds
pub mod Host
pub mod Examples
use tentacles.Base.{
  ℕ, zero, suc, ◌+◌, ◌-◌, ◌*◌, ◌%◌, ◌≤◌, ◌≡◌, ◌≢◌, Bool, true, false, not, ◌&&◌, ◌||◌, min, max,
  ltb, leb, ◌==◌, if◌then◌else◌,
}

-- The pools of a host by their index.
pub record Pools (S : Type 0) : Type 0 where
  pub size : ℕ
  -- len(pool.table.Active())
  pub live : ℕ → S → ℕ
  -- pool.desired.Load()
  pub desired : ℕ → S → ℕ
  -- pool.acquireRetryWait() > 0
  pub waits : ℕ → S → Bool
  -- pool.table.SetDesired
  pub set_desired : ℕ → ℕ → S → S
  -- pool.table.Ensure; `false` is an error
  pub ensure : ℕ → ℕ → S → S × Bool
  -- ctx.Err() is an error
  pub expired : S → Bool

-- What the scheduler relies on: Ensure raises the live count of its pool at most to the target, and
-- no other pool starts slots meanwhile.
pub record PoolsLaws {S : Type 0} (P : Pools S) : Type 1 where
  pub Valid : S → Type 0
  pub valid-set_desired : (k n : ℕ) (s : S) → Valid s → Valid (P.set_desired k n s)
  pub live-set_desired : (j k n : ℕ) (s : S) → P.live j (P.set_desired k n s) ≡ P.live j s
  pub valid-ensure : (k n : ℕ) (s : S) → Valid s → Valid (P.ensure k n s).0
  pub live-ensure : (k n : ℕ) (s : S) → Valid s → P.live k (P.ensure k n s).0 ≤ max (P.live k s) n
  pub live-others : (j k n : ℕ) (s : S) → Valid s → j ≢ k → P.live j (P.ensure k n s).0 ≤ P.live j s

module _ {S : Type 0} (P : Pools S) where
  -- The rest of a loop is run unless an Ensure has failed.
  abbrev pub unless_failed : S × Bool → (S → S × Bool) → S × Bool
  unless_failed (s, true) rest = rest s
  unless_failed (s, false) rest = (s, false)

  -- The first loop of reconcilePools over `count` pools from the k-th on: surplus is removed.
  unfoldable pub maintain : ℕ → ℕ → S → S × Bool
  maintain zero k s = (s, true)
  maintain (suc count) k s =
      let wanted = P.desired k s in
      let told = P.set_desired k wanted s in
      unless_failed (P.ensure k (min (P.live k told) wanted) told) (maintain count (suc k))

  -- len(d.allActive()), over `count` pools from the k-th on
  unfoldable pub all_active : ℕ → ℕ → S → ℕ
  all_active zero k s = 0
  all_active (suc count) k s = P.live k s + all_active count (suc k) s

  -- The variables of the second loop.
  pub record Progress : Type 0 where
    pub state : S
    pub cursor : ℕ
    pub total : ℕ
    pub without_progress : ℕ

  pub data SpreadEnd : Type 0 where
    finished cancelled scale_up_failed out_of_rounds : SpreadEnd

  -- After an Ensure of the pool that had `before` live slots.
  unfoldable pub scaled : ℕ → ℕ → Progress → S × Bool → Progress × Bool
  scaled k before p (u, false) = (record p { state = u }, false)
  scaled k before p (u, true) = (
    if leb (P.live k u) before
        then record p { state = u; without_progress = suc p.without_progress }
        else record p { state = u; total = p.total + (P.live k u - before); without_progress = 0 },
    true,
  )

  -- One round of the second loop, at the pool that the cursor names.
  unfoldable pub turn : Progress → Progress × Bool
  unfolding scaled
  turn p =
      let k = p.cursor % P.size in
      let before = P.live k p.state in
      let moved = record p { cursor = suc p.cursor % P.size } in
      if leb (P.desired k p.state) before || P.waits k p.state
      then (record moved { without_progress = suc p.without_progress }, true)
      else scaled k before moved (P.ensure k (suc before) p.state)

  unfoldable pub turn_end : Progress × Bool → Progress × SpreadEnd → Progress × SpreadEnd
  turn_end (p, true) rest = rest
  turn_end (p, false) rest = (p, scale_up_failed)

  -- `total < MaxRunners && withoutProgress < len(d.pools)`
  unfoldable pub goes_on : ℕ → Progress → Bool
  goes_on ceiling p = ltb p.total ceiling && ltb p.without_progress P.size

  -- The second loop: free host slots go to the pools in turn.
  unfoldable pub spread : ℕ → ℕ → Progress → Progress × SpreadEnd
  unfolding turn turn_end goes_on
  spread zero ceiling p = (p, if goes_on ceiling p then out_of_rounds else finished)
  spread (suc rounds) ceiling p =
      let rest = spread rounds ceiling (turn p).0 in
      if goes_on ceiling p
      then if P.expired p.state then (p, cancelled) else turn_end (turn p) rest
      else (p, finished)

  pub data ReconcileEnd : Type 0 where
    maintenance_failed full : ReconcileEnd
    spread_ended : SpreadEnd → ReconcileEnd

  abbrev spread_result : Progress × SpreadEnd → (S × ℕ) × ReconcileEnd
  spread_result (p, e) = ((p.state, p.cursor), spread_ended e)

  -- Enough rounds for the second loop: between two starts lie at most as many turns as there are pools.
  abbrev pub rounds_for : ℕ → ℕ → ℕ
  rounds_for ceiling total = P.size * suc (ceiling - total)

  unfoldable pub maintained : ℕ → ℕ → S × Bool → (S × ℕ) × ReconcileEnd
  unfolding all_active spread
  maintained ceiling cursor (u, false) = ((u, cursor), maintenance_failed)
  maintained ceiling cursor (u, true) =
      let total = all_active P.size 0 u in
      if leb ceiling total || (P.size == 0)
      then ((u, cursor), full)
      else spread_result (
          spread (rounds_for ceiling total) ceiling
            (record { state = u; cursor = cursor; total = total; without_progress = 0 }))

  -- daemon.reconcilePools: the new state with the cursor, and how it returns
  unfoldable pub reconcile_pools : ℕ → ℕ → S → (S × ℕ) × ReconcileEnd
  unfolding maintain maintained
  reconcile_pools ceiling cursor s = maintained ceiling cursor (maintain P.size 0 s)
