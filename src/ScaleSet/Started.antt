-- ===== src/ScaleSet/Started.antt =====
-- From the message that a job has started to the next scale-down.
use tentacles.Base.{
  ℕ, ◌≡◌, refl, sym, ap, ◌∙◌, subst, Bool, true, false, some, List, [], ◌∷◌, Text, text_eq,
  text_eq_iff, arith, if_true, ◌==◌,
}
use tentacles.Base.Float.{FloatOps}
use tentacles.Slot.{idle, busy, ClaimJob}
use tentacles.Table.{SlotRec, Table, at_ref}
use tentacles.Table.Claim.{claim, claim_rec, claim_slots, can_claim}
use tentacles.Table.Surplus.{StopWorld, stop_surplus}
use tentacles.Table.Surplus.Spared.{busy_survives}
use tentacles.Table.Invariant.{Inv}
use tentacles.Table.Invariant.Preserved.{Reach-Inv}
use tentacles.Table.Steps.{Reach-Step, claims}
use tentacles.Pool.{PoolRuntime, on_event, claimed_job, queue_wait}
use tentacles.ScaleSet.{JobStarted, job_of, handle_job_started, dispatch}

claim_first :
    (job : ClaimJob) (now : ℕ) (r : SlotRec) (rs : List SlotRec)
    → r.runner_name ≡ job.runner_name
    → claim_slots job now (r ∷ rs) ≡ (claim_rec job now r ∷ rs, true)
unfolding claim_slots
claim_first job now r rs e =
    if_true (text_eq r.runner_name job.runner_name) _ _
      ((text_eq_iff r.runner_name job.runner_name).1 e)

-- The job of a message as the table is told of it.
abbrev claim_of : FloatOps → JobStarted → ClaimJob
claim_of fl m = record {
  runner_name = m.runner_name;
  workflow_ref = m.base.job_workflow_ref;
  run_id = m.base.workflow_run_id;
  queue_wait_seconds = queue_wait fl (job_of m.base m.runner_name []);
}

claimed_table :
    (ref : Text) (done : Table × Bool) (p : PoolRuntime) → (claimed_job ref done p).table ≡ done.0
unfolding claimed_job
claimed_table ref (t, true) p = refl
claimed_table ref (t, false) p = refl

dispatch-table :
    (fl : FloatOps) (now : ℕ) (m : JobStarted) (p : PoolRuntime)
    → (dispatch fl now (handle_job_started (some m)) p).0.table
      ≡ (claim (claim_of fl m) now p.table).0
unfolding dispatch handle_job_started on_event job_of
dispatch-table fl now m p = claimed_table _ _ p

-- What the claim of an idle slot leaves of it.
claimed_idle :
    (job : ClaimJob) (now : ℕ) (r : SlotRec)
    → r.state ≡ idle
    → let s = claim_rec job now r in
      (s.ref ≡ r.ref) × (s.state ≡ busy) × (s.claimed ≡ true) × (s.workflow_ref ≡ job.workflow_ref)
unfolding claim_rec
claimed_idle job now r e =
    let can : can_claim r ≡ true = unfold can_claim in ground (arith, e) in
    let done = if_true (can_claim r) _ r can in
    (
      ap (λ (s : SlotRec). s.ref) done,
      ap (λ (s : SlotRec). s.state) done,
      ap (λ (s : SlotRec). s.claimed) done,
      ap (λ (s : SlotRec). s.workflow_ref) done,
    )

-- In a table that satisfies the invariant, when the message that an idle slot's runner has started a job
-- has been dispatched, the slot is busy with that job's workflow, and it still is after any later
-- scale-down, also at a shutdown. The slot is the first that the map's iteration meets.
pub started_job_survives :
    (fl : FloatOps) (w : StopWorld) (ignore_grace : Bool) (now later target : ℕ) (m : JobStarted)
    (p : PoolRuntime) (r : SlotRec) (rs : List SlotRec)
    → Inv p.table
    → p.table.slots ≡ r ∷ rs
    → r.state ≡ idle
    → r.runner_name ≡ m.runner_name
    → (s : SlotRec) × (at_ref r.ref
          (stop_surplus fl w ignore_grace later target
            (dispatch fl now (handle_job_started (some m)) p).0.table).slots
        ≡ some s)
      × (s.state ≡ busy)
      × (s.claimed ≡ true)
      × (s.workflow_ref ≡ m.base.job_workflow_ref)
started_job_survives fl w ignore_grace now later target m p r rs v head e name =
    let job = claim_of fl m in
    let u = (claim job now p.table).0 in
    let s = claim_rec job now r in
    let (same, held, claimed, flow) = claimed_idle job now r e in
    let sound : Inv u = Reach-Inv (Reach-Step (claims job now)) v in
    let slots : u.slots ≡ s ∷ rs =
      unfold claim in
      ap (λ xs. (claim_slots job now xs).0) head
      ∙ ap (λ (done : List SlotRec × Bool). done.0) (claim_first job now r rs name) in
    let there : at_ref r.ref u.slots ≡ some s =
      subst (λ xs. at_ref r.ref xs ≡ some s) (sym slots)
        (unfold at_ref in if_true (s.ref == r.ref) _ _ (ground (arith, same))) in
    (
      s,
      subst (λ t. at_ref r.ref (stop_surplus fl w ignore_grace later target t).slots ≡ some s)
          (sym (dispatch-table fl now m p))
          (busy_survives fl w ignore_grace later target u r.ref s sound there held),
      held,
      claimed,
      flow,
    )
