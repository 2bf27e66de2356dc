-- ===== src/Table/Claim.antt =====
-- internal/slot/manager.go: MarkBusy, Claim and MarkResult, each one section under the table's
-- lock.
pub mod Redelivery
pub mod Lost
pub mod Live
use tentacles.Base.{
  ℕ, Bool, true, false, ◌&&◌, ◌||◌, not, Option, none, some, List, [], ◌∷◌, Text, text_eq, ◌==◌,
  if◌then◌else◌,
}
use tentacles.Slot.{SlotId, State, starting, idle, busy, is_live, ClaimJob}
use tentacles.Table.{SlotRec, Table, set_state}

-- `State == StateStarting || State == StateIdle`
abbrev pub is_unclaimed : State → Bool
is_unclaimed starting = true
is_unclaimed idle = true
is_unclaimed _ = false

abbrev pub is_busy : State → Bool
is_busy busy = true
is_busy _ = false

unfoldable pub mark_busy_rec : ℕ → SlotRec → SlotRec
mark_busy_rec now r =
    if is_unclaimed r.state then record (set_state busy r) { busy_since = some now } else r

unfoldable pub mark_busy_slots : SlotId → ℕ → List SlotRec → List SlotRec
unfolding mark_busy_rec
mark_busy_slots i now [] = []
mark_busy_slots i now (r ∷ rs) =
    if r.id == i then mark_busy_rec now r ∷ rs else r ∷ mark_busy_slots i now rs

-- Table.MarkBusy
unfoldable pub mark_busy : SlotId → ℕ → Table → Table
unfolding mark_busy_slots
mark_busy i now t = record t { slots = mark_busy_slots i now t.slots }

-- The condition under which a claim is recorded.
unfoldable pub can_claim : SlotRec → Bool
can_claim r = is_unclaimed r.state || (is_busy r.state && not r.claimed)

unfoldable pub claim_rec : ClaimJob → ℕ → SlotRec → SlotRec
unfolding can_claim
claim_rec job now r =
    if can_claim r
    then record r {
      slot = record r.slot { state = busy; workflow_ref = job.workflow_ref; run_id = job.run_id };
      busy_since = some now;
      claimed = true;
      claim_at = some now;
      queue_wait = job.queue_wait_seconds;
      usage_at_claim = r.last_usage;
    }
    else r

-- The loop of Claim: the first record with the runner's name.
unfoldable pub claim_slots : ClaimJob → ℕ → List SlotRec → List SlotRec × Bool
unfolding claim_rec
claim_slots job now [] = ([], false)
claim_slots job now (r ∷ rs) =
    let rest = claim_slots job now rs in
    if text_eq r.runner_name job.runner_name
    then (claim_rec job now r ∷ rs, true)
    else (r ∷ rest.0, rest.1)

-- Table.Claim
unfoldable pub claim : ClaimJob → ℕ → Table → Table × Bool
claim job now t = let done = claim_slots job now t.slots in (record t { slots = done.0 }, done.1)

-- The loop of MarkResult: the first live record with the runner's name.
unfoldable pub result_slots : Text → Text → List SlotRec → List SlotRec
result_slots name res [] = []
result_slots name res (r ∷ rs) =
    if text_eq r.runner_name name && is_live r.state
    then record r { result = res } ∷ rs
    else r ∷ result_slots name res rs

-- Table.MarkResult
unfoldable pub mark_result : Text → Text → Table → Table
unfolding result_slots
mark_result name res t =
    if text_eq res [] then t else record t { slots = result_slots name res t.slots }

-- What the listener tells the table while it does something else.
pub data Message : Type 0 where
  job_started : ClaimJob → ℕ → Message
  job_completed : Text → Text → Message

unfoldable pub deliver : Message → Table → Table
deliver (job_started job now) t = (claim job now t).0
deliver (job_completed name res) t = mark_result name res t

unfoldable pub deliver_all : List Message → Table → Table
unfolding deliver
deliver_all [] t = t
deliver_all (m ∷ ms) t = deliver_all ms (deliver m t)
