-- ===== src/Table/Ensure/Loop.antt =====
-- How the loop of starts ends.
use tentacles.Base.{
  ℕ, zero, suc, ◌-◌, ◌≤◌, ◌≡◌, ◌≢◌, refl, false, ◌||◌, Option, none, some, arith, leb, if_cases,
}
use tentacles.Base.Float.{FloatOps}
use tentacles.Slot.{SlotId}
use tentacles.Table.{Table, count_live}
use tentacles.Table.Start.{Places, start_one}
use tentacles.Table.Ensure.{World, LoopEnd, out_of_rounds, enough, round_end, start_loop}
use tentacles.Table.Ensure.Count.{start_one_live}

-- With at least as many rounds as slots are missing the loop of starts never runs out of rounds: it
-- ends by its test, by a failed start or by the context.
pub start_loop_ends :
    (rounds : ℕ) (fl : FloatOps) (places : Places) (w : World) (target k : ℕ) (t : Table)
    → target - count_live t.slots ≤ rounds
    → (start_loop rounds fl places w target k t).1 ≢ out_of_rounds
unfolding start_loop enough
start_loop_ends zero fl places w target k t h = ground arith
start_loop_ends (suc rounds) fl places w target k t h =
    if_cases Ends (enough target t) _ _ (λ _ e. cc)
      (λ missing.
        if_cases Ends (w.start_expired k) _ _ (λ _ e. cc)
          (λ _. tried_ends (start_one fl places (w.attempt k) t) _ (λ i e.
            start_loop_ends rounds fl places w target (suc k) _
              (below missing (start_one_live fl places (w.attempt k) t i e)))))
  where
    Ends : Table × LoopEnd → Type 0
    Ends done = done.1 ≢ out_of_rounds

    below :
        {n : ℕ}
        → (t.is_closed || leb target (count_live t.slots)) ≡ false
        → n ≡ suc (count_live t.slots)
        → target - n ≤ rounds
    below missing e = ground arith

    tried_ends :
        (tried : Table × Option SlotId) (rest : Table × LoopEnd)
        → ((i : SlotId) → tried.1 ≡ some i → Ends rest)
        → Ends (round_end tried rest)
    tried_ends (u, none) rest more = λ e. unfold round_end in cc
    tried_ends (u, some i) rest more = unfold round_end in more i refl
