-- ===== src/Schedule/Kept.antt =====
-- What holds of every state of the pools holds after reconcilePools.
use tentacles.Base.{ℕ, zero, suc, ◌%◌, ◌*◌, ◌-◌, Bool, true, false, ◌||◌, ◌==◌, leb, if_cases}
use tentacles.Schedule.{
  Pools, PoolsLaws, Progress, SpreadEnd, scaled, turn, turn_end, goes_on, spread, ReconcileEnd,
  maintain, maintained, reconcile_pools, all_active,
}
use tentacles.Schedule.Ceiling.{maintain-Below}

module _ {S : Type 0} (P : Pools S) (L : PoolsLaws P) where
  scaled-Valid :
      (k before : ℕ) (p : Progress P) (done : S × Bool)
      → L.Valid done.0
      → L.Valid (scaled P k before p done).0.state
  unfolding scaled
  scaled-Valid k before p (u, false) v = v
  scaled-Valid k before p (u, true) v =
      if_cases (λ (q : Progress P). L.Valid q.state) (leb (P.live k u) before) _ _ (λ _. v) (λ _. v)

  turn-Valid : (p : Progress P) → L.Valid p.state → L.Valid (turn P p).0.state
  unfolding turn
  turn-Valid p v =
      let k = p.cursor % P.size in
      let before = P.live k p.state in
      let moved : Progress P = record p { cursor = suc p.cursor % P.size } in
      if_cases (λ (q : Progress P × Bool). L.Valid q.0.state)
        (leb (P.desired k p.state) before || P.waits k p.state) _ _ (λ _. v)
        (λ _.
          scaled-Valid k before moved (P.ensure k (suc before) p.state)
            (L.valid-ensure k (suc before) p.state v))

  spread-Valid :
      (rounds ceiling : ℕ) (p : Progress P)
      → L.Valid p.state
      → L.Valid (spread P rounds ceiling p).0.state
  unfolding spread
  spread-Valid zero ceiling p v = v
  spread-Valid (suc rounds) ceiling p v =
      if_cases IsKept (goes_on P ceiling p) _ _
        (λ _.
          if_cases IsKept (P.expired p.state) _ _ (λ _. v)
            (λ _. after (turn P p) _ (turn-Valid p v) (spread-Valid rounds ceiling (turn P p).0)))
        (λ _. v)
    where
      IsKept : Progress P × SpreadEnd P → Type 0
      IsKept done = L.Valid done.0.state

      after :
          (done : Progress P × Bool) (rest : Progress P × SpreadEnd P)
          → L.Valid done.0.state
          → (L.Valid done.0.state → L.Valid rest.0.state)
          → L.Valid (turn_end P done rest).0.state
      after (q, true) rest v more = unfold turn_end in more v
      after (q, false) rest v more = unfold turn_end in v

  pub reconcile_pools-Valid :
      (ceiling cursor : ℕ) (s : S) → L.Valid s → L.Valid (reconcile_pools P ceiling cursor s).0.0
  unfolding reconcile_pools
  reconcile_pools-Valid ceiling cursor s v =
      after (maintain P P.size 0 s) (maintain-Below P L P.size 0 s v).valid
    where
      after : (done : S × Bool) → L.Valid done.0 → L.Valid (maintained P ceiling cursor done).0.0
      after (u, false) w = unfold maintained in w
      after (u, true) w =
          unfold maintained in
          let total = all_active P P.size 0 u in
          let start : Progress P = record {
            state = u;
            cursor = cursor;
            total = total;
            without_progress = 0;
          } in
          if_cases (λ (r : (S × ℕ) × ReconcileEnd P). L.Valid r.0.0)
            (leb ceiling total || (P.size == 0)) _ _ (λ _. w)
            (λ _. spread-Valid (P.size * suc (ceiling - total)) ceiling start w)
