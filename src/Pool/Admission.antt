-- ===== src/Pool/Admission.antt =====
-- internal/app/scheduler.go: admissionGate, which charges every live runner of the host against the
-- host's budget of cores and memory before another slot is started.
use tentacles.Base.{
  ℕ, ◌+◌, ◌-◌, ◌%◌, ◌^◌, ◌≤◌, ◌<◌, ◌≡◌, Bool, true, false, not, Option, none, some, List, [], ◌∷◌,
  Text, text_eq, arith, max, ltb, if◌then◌else◌, if_cases, subst,
}
use tentacles.Base.Float.{Float64, FloatOps}
use tentacles.Slot.{Slot, is_live}
use tentacles.History.{Store, Weights, predict_cores, predict_mem}
use tentacles.Table.Claim.{is_busy}

-- The host's budget: the limit of cores, and the memory limit that follows from the available memory,
-- which is `none` when it cannot be read.
pub record Budget : Type 0 where
  pub cpu_limit : Float64
  pub memory_limit : Option ℕ

-- `d.memAvailable` and the configured percentages make the budget.
unfoldable pub memory_limit_of : FloatOps → Float64 → Float64 → Option ℕ → Option ℕ
memory_limit_of fl free_percent hundred none = none
memory_limit_of fl free_percent hundred (some available) =
    some (fl.to_uint (fl.div (fl.mul (fl.of_uint available) free_percent) hundred))

module _ (fl : FloatOps) (weights : Weights) (hist : Store) (pool : Text)
    (candidate : Float64 × ℕ) where
  -- What one runner is charged: a busy one its prediction, another of the same pool at least what the
  -- candidate is charged, another its own reservation.
  unfoldable pub charge : Slot → Float64 × ℕ
  charge s =
      if is_busy s.state
      then (
        (predict_cores fl weights hist s.pool s.workflow_ref).0,
        (predict_mem fl weights hist s.pool s.workflow_ref).0,
      )
      else if text_eq s.pool pool
      then (fl.maximum s.reserved_cores candidate.0, max s.reserved_mem_bytes candidate.1)
      else (s.reserved_cores, s.reserved_mem_bytes)

  -- The memory that a runner is charged beyond what it uses already, which the available memory lacks.
  unfoldable pub outstanding : Slot → ℕ
  unfolding charge
  outstanding s = (charge s).1 - s.current_mem_bytes

  -- One round of the loop; usedMemory is a 64-bit counter.
  unfoldable pub charged : Slot → Float64 × ℕ → Float64 × ℕ
  unfolding charge outstanding
  charged s (cores, memory) =
      if is_live s.state
      then (fl.add cores (charge s).0, (memory + outstanding s) % 2 ^ 64)
      else (cores, memory)

  unfoldable pub charge_all : List Slot → Float64 × ℕ → Float64 × ℕ
  unfolding charged
  charge_all [] used = used
  charge_all (s ∷ ss) used = charge_all ss (charged s used)

  unfoldable pub fits_memory : Option ℕ → ℕ → Bool
  fits_memory none memory = true
  fits_memory (some limit) memory = not (ltb limit memory)

  unfoldable pub fits : Budget → Float64 × ℕ → Bool
  unfolding fits_memory
  fits b (cores, memory) =
      if fl.less b.cpu_limit cores then false else fits_memory b.memory_limit memory

  -- admissionGate with a history; on an idle host every slot is admitted.
  unfoldable pub gate_with_history : Budget → List Slot → Bool
  unfolding charge_all fits
  gate_with_history b [] = true
  gate_with_history b (s ∷ ss) = fits b (charge_all (s ∷ ss) candidate)

  -- What all live runners of a list are charged beyond what they use.
  abbrev pub outstanding_sum : List Slot → ℕ
  outstanding_sum [] = 0
  outstanding_sum (s ∷ ss) =
      let rest = outstanding_sum ss in if is_live s.state then outstanding s + rest else rest

  charge_all_memory :
      (ss : List Slot) (cores : Float64) (memory : ℕ)
      → (charge_all ss (cores, memory)).1 % 2 ^ 64 ≡ (memory + outstanding_sum ss) % 2 ^ 64
  unfolding charge_all charged
  charge_all_memory [] cores memory = omega arith
  charge_all_memory (s ∷ ss) cores memory =
      if_cases
        (λ (used : Float64 × ℕ).
          (charge_all ss used).1 % 2 ^ 64 ≡ (memory + outstanding_sum (s ∷ ss)) % 2 ^ 64)
        (is_live s.state) _ _
        (λ live. ground (
          arith,
          live,
          charge_all_memory ss (fl.add cores (charge s).0) ((memory + outstanding s) % 2 ^ 64),
        ))
        (λ dead. ground (arith, dead, charge_all_memory ss cores memory))

  -- If the gate lets a slot through on a host with live runners and a known memory limit, and the
  -- charges do not overflow 64 bits, then the memory of the candidate and what all live runners are
  -- charged beyond their use fit in the limit together.
  pub admitted_fits :
      (b : Budget) (limit : ℕ) (s : Slot) (ss : List Slot)
      → b.memory_limit ≡ some limit
      → candidate.1 + outstanding_sum (s ∷ ss) < 2 ^ 64
      → gate_with_history b (s ∷ ss) ≡ true
      → candidate.1 + outstanding_sum (s ∷ ss) ≤ limit
  unfolding gate_with_history fits
  admitted_fits b limit s ss known small =
      if_cases (λ (ok : Bool). ok ≡ true → candidate.1 + outstanding_sum (s ∷ ss) ≤ limit)
        (fl.less b.cpu_limit (charge_all (s ∷ ss) candidate).0) _ _ (λ _ h. absurd (cc h))
        (λ _ h.
          fitting (subst (λ o. fits_memory o (charge_all (s ∷ ss) candidate).1 ≡ true) known h))
    where
      fitting :
          fits_memory (some limit) (charge_all (s ∷ ss) candidate).1 ≡ true
          → candidate.1 + outstanding_sum (s ∷ ss) ≤ limit
      fitting h =
          let used : (charge_all (s ∷ ss) candidate).1 ≤ limit =
            unfold fits_memory in ground (arith, h) in
          let sum = charge_all_memory (s ∷ ss) candidate.0 candidate.1 in
          omega (arith, used, sum, small)

-- daemon.admissionGate
unfoldable pub admission_gate :
    FloatOps → Weights → Option Store → Text → Float64 × ℕ → Budget → List Slot → Bool
unfolding gate_with_history
admission_gate fl weights none pool candidate b live = true
admission_gate fl weights (some hist) pool candidate b live =
    gate_with_history fl weights hist pool candidate b live
