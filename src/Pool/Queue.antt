-- ===== src/Pool/Queue.antt =====
-- internal/app/pool.go: the hints of queued workflows, and the reservation that a new slot is charged.
-- The maps queuedRefs and queuedAt have the same keys, each with a time, and are one
-- list of entries here.
pub mod Bounds
use tentacles.Base.{
  ℕ, suc, ◌+◌, ◌-◌, ◌*◌, ◌≤◌, ◌<◌, ◌≡◌, refl, sym, Bool, true, false, not, ◌&&◌, ◌||◌, Option, none,
  some, List, [], ◌∷◌, Text, text_eq, arith, min, max, ltb, leb, if◌then◌else◌, if_cases, length,
  keep, All, All-map, find, put, delete, length-put_held, length-put_le, length-delete_le, All-put,
  All-delete, Option-cases, inl, inr,
}
use tentacles.Base.Float.{Float64, FloatOps}
use tentacles.History.{Store, Weights, predict_cores, predict_mem}

abbrev pub max_queued_refs : ℕ
max_queued_refs = 1024

-- ten minutes
abbrev pub queued_hint_ttl : ℕ
queued_hint_ttl = 600 * 1000000000

pub record Queued : Type 0 where
  pub count : ℕ
  pub queued_at : ℕ

abbrev pub Queue : Type 0
Queue = List (Text × Queued)

unfoldable pub is_fresh : ℕ → Text × Queued → Bool
is_fresh now e = not (leb e.1.count 0 || ltb queued_hint_ttl (now - e.1.queued_at))

-- expireQueuedLocked
unfoldable pub expire : ℕ → Queue → Queue
unfolding is_fresh
expire now q = keep (is_fresh now) q

unfoldable pub note_held : ℕ → Text → Option Queued → Queue → Queue
unfolding put
note_held now ref none q =
    if leb max_queued_refs (length q)
    then q
    else put text_eq ref (record { count = 1; queued_at = now }) q
note_held now ref (some e) q =
    put text_eq ref (record { count = min (suc e.count) 9999; queued_at = now }) q

unfoldable pub note_ref : ℕ → Text → Queue → Queue
unfolding note_held find
note_ref now ref q = if text_eq ref [] then q else note_held now ref (find text_eq ref q) q

unfoldable pub note_refs : ℕ → List Text → Queue → Queue
unfolding note_ref
note_refs now [] q = q
note_refs now (ref ∷ refs) q = note_refs now refs (note_ref now ref q)

-- noteQueued
unfoldable pub note_queued : ℕ → List Text → Queue → Queue
unfolding expire note_refs
note_queued now refs q = note_refs now refs (expire now q)

unfoldable pub consume_held : Text → Option Queued → Queue → Queue
unfolding put delete
consume_held ref none q = delete text_eq ref q
consume_held ref (some e) q =
    if leb e.count 1
    then delete text_eq ref q
    else put text_eq ref (record e { count = e.count - 1 }) q

-- consumeQueuedRef
unfoldable pub consume : Text → Queue → Queue
unfolding consume_held find
consume ref q = consume_held ref (find text_eq ref q) q

-- The loop of candidateEstimate.
unfoldable pub largest : FloatOps → Weights → Store → Text → Queue → Float64 × ℕ → Float64 × ℕ
largest fl weights hist pool [] most = most
largest fl weights hist pool (e ∷ es) (cores, memory) = largest fl weights hist pool es (
  fl.maximum cores (predict_cores fl weights hist pool e.0).0,
  max memory (predict_mem fl weights hist pool e.0).0,
)

unfoldable pub estimate : FloatOps → Weights → Store → Text → Queue → Float64 × ℕ
unfolding largest
estimate fl weights hist pool [] =
    ((predict_cores fl weights hist pool []).0, (predict_mem fl weights hist pool []).0)
estimate fl weights hist pool (e ∷ es) = largest fl weights hist pool (e ∷ es) (fl.zero_value, 0)

-- candidateEstimate: the reservation, and the queue without the expired hints
unfoldable pub candidate_estimate :
    FloatOps → Weights → Option Store → ℕ → Text → Queue → (Float64 × ℕ) × Queue
unfolding expire estimate
candidate_estimate fl weights none now pool q = ((fl.zero_value, 0), q)
candidate_estimate fl weights (some hist) now pool q =
    let fresh = expire now q in (estimate fl weights hist pool fresh, fresh)

-- What happens to the queue: noteQueued, consumeQueuedRef, and the expiry in candidateEstimate.
pub data QueueOp : Type 0 where
  noted : ℕ → List Text → QueueOp
  consumed : Text → QueueOp
  estimated : ℕ → QueueOp

unfoldable pub run_op : QueueOp → Queue → Queue
unfolding note_queued consume expire
run_op (noted now refs) q = note_queued now refs q
run_op (consumed ref) q = consume ref q
run_op (estimated now) q = expire now q

unfoldable pub run_ops : List QueueOp → Queue → Queue
unfolding run_op
run_ops [] q = q
run_ops (op ∷ ops) q = run_ops ops (run_op op q)
