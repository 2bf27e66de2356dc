-- ===== src/Schedule/Ceiling.antt =====
-- The live slots of all pools together through reconcilePools.
use tentacles.Base.{
  ℕ, zero, suc, ◌+◌, ◌-◌, ◌*◌, ◌%◌, ◌≤◌, ◌<◌, ◌≡◌, ◌≢◌, refl, subst, Bool, true, false, arith,
  if_cases, leb, ◌||◌, ◌==◌, max, min, Bool-cases, inl, inr,
}
use native.Mathlib.Nat.{mod-lt}
use tentacles.Schedule.{
  Pools, PoolsLaws, Progress, SpreadEnd, scaled, turn, turn_end, goes_on, spread, ReconcileEnd,
  maintain, maintained, reconcile_pools, all_active, unless_failed,
}

module _ {S : Type 0} (P : Pools S) where
  pub active_le :
      (count a : ℕ) (s u : S)
      → ((j : ℕ) → a ≤ j → P.live j u ≤ P.live j s)
      → all_active P count a u ≤ all_active P count a s
  unfolding all_active
  active_le zero a s u h = omega arith
  active_le (suc count) a s u h =
      omega (arith, h a (omega arith), active_le count (suc a) s u (λ j below. h j (omega arith)))

module _ {S : Type 0} (P : Pools S) (L : PoolsLaws P) where
  -- A change of one pool changes the sum by as much, if the others do not grow.
  active_change :
      (count a k : ℕ) (s u : S)
      → a ≤ k
      → k < a + count
      → ((j : ℕ) → j ≢ k → P.live j u ≤ P.live j s)
      → all_active P count a u + P.live k s ≤ all_active P count a s + P.live k u
  unfolding all_active
  active_change zero a k s u low high h = omega arith
  active_change (suc count) a k s u low high h = elim (Bool-cases (a == k)) [
    | inl e ↦
        let same : a ≡ k = ground arith in
        let rest : all_active P count (suc a) u ≤ all_active P count (suc a) s =
          active_le P count (suc a) s u (λ j below. h j (λ x. omega arith)) in
        subst
          (λ m.
            P.live a u + all_active P count (suc a) u + P.live m s
            ≤ P.live a s + all_active P count (suc a) s + P.live m u)
          same (omega (arith, rest))
    | inr e ↦
        let other : a ≢ k = ground arith in
        let rest = active_change count (suc a) k s u (omega (arith, other)) (omega arith) h in
        omega (arith, h a other, rest)
  ]

  -- A state that is valid and has no more live slots in any pool.
  pub record Below (s u : S) : Type 0 where
    pub valid : L.Valid u
    pub fewer : (j : ℕ) → P.live j u ≤ P.live j s

  Below-trans : {s u v : S} → Below s u → Below u v → Below s v
  Below-trans x y = record { valid = y.valid; fewer = λ j. omega (arith, x.fewer j, y.fewer j) }

  maintained_pool :
      (k : ℕ) (s : S)
      → L.Valid s
      → let told = P.set_desired k (P.desired k s) s in
        Below s (P.ensure k (min (P.live k told) (P.desired k s)) told).0
  maintained_pool k s v =
      let wanted = P.desired k s in
      let told = P.set_desired k wanted s in
      let n = min (P.live k told) wanted in
      let v' = L.valid-set_desired k wanted s v in
      record {
        valid = L.valid-ensure k n told v';
        fewer = λ j. elim (Bool-cases (j == k)) [
          | inl e ↦
              let same : j ≡ k = ground arith in
              rw same (omega (arith, L.live-ensure k n told v', L.live-set_desired k k wanted s))
          | inr e ↦
              omega
                (arith, L.live-others j k n told v' (ground arith), L.live-set_desired j k wanted s)
        ];
      }

  -- The first loop adds no live slot to any pool.
  pub maintain-Below : (count k : ℕ) (s : S) → L.Valid s → Below s (maintain P count k s).0
  unfolding maintain
  maintain-Below zero k s v = record { valid = v; fewer = λ j. omega arith }
  maintain-Below (suc count) k s v =
      after (P.ensure k (min (P.live k told) (P.desired k s)) told) (maintain-Below count (suc k))
        (maintained_pool k s v)
    where
      told : S
      told = P.set_desired k (P.desired k s) s

      after :
          (done : S × Bool)
          → ((u : S) → L.Valid u → Below u (maintain P count (suc k) u).0)
          → Below s done.0
          → Below s (unless_failed P done (maintain P count (suc k))).0
      after (u, true) more b = Below-trans b (more u b.valid)
      after (u, false) more b = b

  -- The sum is at most the loop's counter, which is at most the ceiling.
  record IsBounded (ceiling : ℕ) (p : Progress P) : Type 0 where
    pub valid : L.Valid p.state
    pub counted : all_active P P.size 0 p.state ≤ p.total
    pub below : p.total ≤ ceiling

  -- What a turn leaves: also after a failed Ensure the sum is at most the ceiling.
  abbrev Turned : ℕ → Progress P × Bool → Type 0
  Turned ceiling (q, ok) =
      (ok ≡ true → IsBounded ceiling q) × (all_active P P.size 0 q.state ≤ ceiling)

  scaled-Turned :
      (ceiling k : ℕ) (p : Progress P) (done : S × Bool)
      → L.Valid done.0
      → p.total < ceiling
      → all_active P P.size 0 done.0 + P.live k p.state ≤ p.total + P.live k done.0
      → P.live k done.0 ≤ suc (P.live k p.state)
      → Turned ceiling (scaled P k (P.live k p.state) p done)
  unfolding scaled
  scaled-Turned ceiling k p (u, false) v h change one = (λ x. absurd (cc x), omega arith)
  scaled-Turned ceiling k p (u, true) v h change one =
      let bounded =
        if_cases (IsBounded ceiling) (leb (P.live k u) (P.live k p.state)) _ _
          (λ le. record { valid = v; counted = ground (arith, le, change); below = omega arith })
          (λ more. record {
            valid = v;
            counted = ground (arith, more, change);
            below = ground (arith, more, one);
          }) in
      (λ _. bounded, omega (arith, one, change))

  turn-Turned :
      (ceiling : ℕ) (p : Progress P)
      → goes_on P ceiling p ≡ true
      → IsBounded ceiling p
      → Turned ceiling (turn P p)
  unfolding turn goes_on
  turn-Turned ceiling p on b =
      let h : p.total < ceiling = ground (arith, on) in
      let some_pool : 0 < P.size = ground (arith, on) in
      let k = p.cursor % P.size in
      let inside : k < P.size = mod-lt p.cursor some_pool in
      let before = P.live k p.state in
      let moved : Progress P = record p { cursor = suc p.cursor % P.size } in
      let done = P.ensure k (suc before) p.state in
      let change =
        active_change P.size 0 k p.state done.0 (omega arith) (omega (arith, inside))
          (λ j other. L.live-others j k (suc before) p.state b.valid other) in
      if_cases (Turned ceiling) (leb (P.desired k p.state) before || P.waits k p.state) _ _
        (λ _. (
          λ _. record { valid = b.valid; counted = b.counted; below = b.below },
          omega (arith, b.counted, b.below),
        ))
        (λ _.
          scaled-Turned ceiling k moved done (L.valid-ensure k (suc before) p.state b.valid) h
            (omega (arith, change, b.counted))
            (omega (arith, L.live-ensure k (suc before) p.state b.valid)))

  spread_bounded :
      (rounds ceiling : ℕ) (p : Progress P)
      → IsBounded ceiling p
      → all_active P P.size 0 (spread P rounds ceiling p).0.state ≤ ceiling
  unfolding spread
  spread_bounded zero ceiling p b = omega (arith, b.counted, b.below)
  spread_bounded (suc rounds) ceiling p b =
      if_cases AtMost (goes_on P ceiling p) _ _
        (λ on.
          if_cases AtMost (P.expired p.state) _ _ (λ _. now)
            (λ _.
              after (turn P p) _ (turn-Turned ceiling p on b)
                (spread_bounded rounds ceiling (turn P p).0)))
        (λ _. now)
    where
      AtMost : Progress P × SpreadEnd P → Type 0
      AtMost done = all_active P P.size 0 done.0.state ≤ ceiling

      now : all_active P P.size 0 p.state ≤ ceiling
      now = omega (arith, b.counted, b.below)

      after :
          (done : Progress P × Bool) (rest : Progress P × SpreadEnd P)
          → Turned ceiling done
          → (IsBounded ceiling done.0 → all_active P P.size 0 rest.0.state ≤ ceiling)
          → all_active P P.size 0 (turn_end P done rest).0.state ≤ ceiling
      after (q, true) rest t more = unfold turn_end in more (t.0 refl)
      after (q, false) rest t more = unfold turn_end in t.1

  -- From a valid state, reconcilePools leaves in all pools together no more live slots than there were
  -- before or than the host's ceiling, whichever is more, also when an Ensure fails or the context
  -- ends. The pools keep the laws: an Ensure raises the live count of its own pool at most to its
  -- target, and that of no other pool.
  pub host_ceiling :
      (ceiling cursor : ℕ) (s : S)
      → L.Valid s
      → all_active P P.size 0 (reconcile_pools P ceiling cursor s).0.0
        ≤ max (all_active P P.size 0 s) ceiling
  unfolding reconcile_pools
  host_ceiling ceiling cursor s v = after (maintain P P.size 0 s) (maintain-Below P.size 0 s v)
    where
      after :
          (done : S × Bool)
          → Below s done.0
          → all_active P P.size 0 (maintained P ceiling cursor done).0.0
            ≤ max (all_active P P.size 0 s) ceiling
      after (u, false) b =
          unfold maintained in omega (arith, active_le P P.size 0 s u (λ j _. b.fewer j))
      after (u, true) b =
          unfold maintained in
          let total = all_active P P.size 0 u in
          let start : Progress P = record {
            state = u;
            cursor = cursor;
            total = total;
            without_progress = 0;
          } in
          if_cases
            (λ (r : (S × ℕ) × ReconcileEnd P).
              all_active P P.size 0 r.0.0 ≤ max (all_active P P.size 0 s) ceiling)
            (leb ceiling total || (P.size == 0)) _ _
            (λ _. omega (arith, active_le P P.size 0 s u (λ j _. b.fewer j)))
            (λ room. omega (
              arith,
              spread_bounded (P.size * suc (ceiling - total)) ceiling start
                  (record { valid = b.valid; counted = omega arith; below = ground (arith, room) }),
            ))
