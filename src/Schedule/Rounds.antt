-- ===== src/Schedule/Rounds.antt =====
-- The rounds of the second loop of reconcilePools.
use tentacles.Base.{
  ℕ, zero, suc, ◌+◌, ◌-◌, ◌*◌, ◌%◌, ◌≤◌, ◌<◌, ◌≡◌, ◌≢◌, refl, subst, Bool, true, false, arith,
  if_cases, leb, ◌||◌, ◌==◌,
}
use native.Mathlib.Nat.{mul-suc}
use tentacles.Schedule.{
  Pools, Progress, SpreadEnd, out_of_rounds, scaled, turn, turn_end, goes_on, spread, ReconcileEnd,
  spread_ended, maintain, maintained, reconcile_pools, all_active,
}

mul-add_le : (n a d : ℕ) → n * a ≤ n * (a + d)
mul-add_le n a zero = omega arith
mul-add_le n a (suc d) = omega (arith, mul-add_le n a d)

mul_below : (n a b : ℕ) → a < b → n * a + n ≤ n * b
mul_below n a b h =
    let e : suc a + (b - suc a) ≡ b = omega arith in
    subst (λ m. n * a + n ≤ n * m) e (omega (arith, mul-suc n a, mul-add_le n (suc a) (b - suc a)))

module _ {S : Type 0} (P : Pools S) where
  -- What is left of the loop: turns up to the next start, for each start that the ceiling allows.
  abbrev left : ℕ → Progress P → ℕ
  left ceiling p = P.size * (ceiling - p.total) + (P.size - p.without_progress)

  -- A turn without an error leaves less.
  abbrev Less : ℕ → Progress P → Progress P × Bool → Type 0
  Less ceiling p (q, ok) = ok ≡ true → left ceiling q < left ceiling p

  scaled-Less :
      (ceiling k before : ℕ) (p moved : Progress P) (done : S × Bool)
      → moved.total ≡ p.total
      → moved.without_progress ≡ p.without_progress
      → p.total < ceiling
      → p.without_progress < P.size
      → Less ceiling p (scaled P k before moved done)
  unfolding scaled
  scaled-Less ceiling k before p moved (u, false) e d h g = λ x. absurd (cc x)
  scaled-Less ceiling k before p moved (u, true) e d h g = λ ok.
      if_cases (λ (q : Progress P). left ceiling q < left ceiling p) (leb (P.live k u) before) _ _
        (λ _. rw e (omega (arith, d)))
        (λ more.
          let q = moved.total + (P.live k u - before) in
          let lower : ceiling - q < ceiling - p.total = ground (arith, more, e) in
          omega (arith, mul_below P.size (ceiling - q) (ceiling - p.total) lower, h, g))

  turn-Less :
      (ceiling : ℕ) (p : Progress P) → goes_on P ceiling p ≡ true → Less ceiling p (turn P p)
  unfolding turn goes_on
  turn-Less ceiling p on =
      let h : p.total < ceiling = ground arith in
      let g : p.without_progress < P.size = ground arith in
      let k = p.cursor % P.size in
      if_cases (Less ceiling p) (leb (P.desired k p.state) (P.live k p.state) || P.waits k p.state)
        _ _ (λ _ ok. omega (arith, g))
        (λ _.
          scaled-Less ceiling k (P.live k p.state) p (record p { cursor = suc p.cursor % P.size })
            (P.ensure k (suc (P.live k p.state)) p.state) refl refl h g)

  turned_ends :
      (done : Progress P × Bool) (rest : Progress P × SpreadEnd P)
      → (done.1 ≡ true → rest.1 ≢ out_of_rounds)
      → (turn_end P done rest).1 ≢ out_of_rounds
  unfolding turn_end
  turned_ends (q, true) rest h = h refl
  turned_ends (q, false) rest h = λ e. cc

  -- With a round for each turn that is left the second loop does not run out of rounds.
  pub spread_ends :
      (rounds ceiling : ℕ) (p : Progress P)
      → P.size * (ceiling - p.total) + (P.size - p.without_progress) ≤ rounds
      → (spread P rounds ceiling p).1 ≢ out_of_rounds
  unfolding spread
  spread_ends zero ceiling p h =
      if_cases (λ (e : SpreadEnd P). e ≢ out_of_rounds) (goes_on P ceiling p) _ _
        (λ on. absurd (unfold goes_on in ground (arith, h, on))) (λ _ e. cc)
  spread_ends (suc rounds) ceiling p h =
      if_cases (λ (r : Progress P × SpreadEnd P). r.1 ≢ out_of_rounds) (goes_on P ceiling p) _ _
        (λ on.
          if_cases (λ (r : Progress P × SpreadEnd P). r.1 ≢ out_of_rounds) (P.expired p.state) _ _
            (λ _ e. cc)
            (λ _. turned_ends (turn P p) _ (λ ok.
              spread_ends rounds ceiling (turn P p).0
                (omega (arith, turn-Less ceiling p on ok, h)))))
        (λ _ e. cc)

  -- reconcilePools returns: it never ends because the rounds that the model allows are too few.
  pub reconcile_pools_ends :
      (ceiling cursor : ℕ) (s : S)
      → (reconcile_pools P ceiling cursor s).1 ≢ spread_ended out_of_rounds
  unfolding reconcile_pools
  reconcile_pools_ends ceiling cursor s = ended (maintain P P.size 0 s)
    where
      ended : (done : S × Bool) → (maintained P ceiling cursor done).1 ≢ spread_ended out_of_rounds
      ended (u, false) = unfold maintained in (λ e. cc)
      ended (u, true) =
          unfold maintained in
          let total = all_active P P.size 0 u in
          if_cases (λ (r : (S × ℕ) × ReconcileEnd P). r.1 ≢ spread_ended out_of_rounds)
            (leb ceiling total || (P.size == 0)) _ _ (λ _ e. cc)
            (λ _ e.
              spread_ends (P.size * suc (ceiling - total)) ceiling
                (record { state = u; cursor = cursor; total = total; without_progress = 0 })
                (omega (arith, mul-suc P.size (ceiling - total))) (cc e))
