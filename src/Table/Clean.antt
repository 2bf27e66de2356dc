-- ===== src/Table/Clean.antt =====
-- internal/slot/manager.go: the release of a slot. `clean` starts a worker that wipes the slot, and
-- ends it when the wipe has ended; a worker that is still running when the caller stops waiting
-- keeps its record. The outcomes of the file operations are arguments.
use tentacles.Base.{
  ℕ, Bool, true, false, ◌&&◌, not, Option, none, some, List, [], ◌∷◌, ◌==◌, if◌then◌else◌, keep,
}
use tentacles.Slot.{SlotId, Slot, Event}
use tentacles.Table.{
  SlotRec, Table, Done, absent, open_, closed_, at_id, at_ref, remove, update, emit,
}

-- What the calls of one wipe return: whether the context has ended before each of its three checks,
-- whether a JIT directory is set, and whether the two removals succeed.
pub record WipeCalls : Type 0 where
  pub expired_at_start : Bool
  pub expired_after_diag : Bool
  pub has_jit_dir : Bool
  pub jit_removed : Bool
  pub expired_after_jit : Bool
  pub dir_removed : Bool

-- Table.wipe: whether it returns no error. The errors of the diagnostic hook and of the credential
-- unlink are logged and dropped.
unfoldable pub wipe : WipeCalls → Bool
wipe w =
    if w.expired_at_start
    then false
    else if w.expired_after_diag
    then false
    else if w.has_jit_dir && not w.jit_removed
    then false
    else if w.expired_after_jit
    then false
    else w.dir_removed

-- The worker of one `clean` either ends before the caller goes on, or later.
pub data Worker : Type 0 where
  ended : WipeCalls → Worker
  still_running : Worker

renew_done : Done → Done
renew_done absent = open_
renew_done open_ = open_
renew_done closed_ = open_

-- The section of clean that marks the record.
unfoldable pub mark_cleaning : SlotRec → SlotRec
unfolding renew_done
mark_cleaning r = record r {
  cleaning = true;
  clean_done = renew_done r.clean_done;
  cleanup_pending = true;
}

unfoldable pub begin_clean : ℕ → Table → Table
unfolding mark_cleaning
begin_clean p = update p mark_cleaning

-- What the end of the worker writes to a record that it does not delete.
unfoldable pub unmark : SlotRec → SlotRec
unmark r = record r { cleaning = false; clean_done = closed_ }

unfoldable pub emit_event : Option Event → Slot → Table → Table
emit_event none s t = t
emit_event (some e) s t = emit e s t

-- The worker after a wipe: without an error it deletes the record and tells of the exit.
unfoldable pub end_clean : Bool → SlotRec → Table → Table
unfolding emit_event unmark
end_clean ok r t =
    if ok
    then emit_event r.exit_event r.slot (record t { slots = remove r.ref t.slots })
    else update r.ref unmark t

unfoldable pub run_worker : Worker → SlotRec → Table → Table
unfolding end_clean wipe
run_worker (ended w) r t = end_clean (wipe w) r t
run_worker still_running r t = t

unfoldable pub clean_current : Worker → ℕ → Option SlotRec → Table → Table
unfolding run_worker begin_clean
clean_current w p none t = t
clean_current w p (some x) t =
    if x.ref == p && not x.cleaning then run_worker w x (begin_clean p t) else t

-- Table.clean of the record at `p`, whose ID is `i`
unfoldable pub clean : Worker → SlotId → ℕ → Table → Table
unfolding clean_current
clean w i p t = clean_current w p (at_id i t.slots) t

unfoldable pub end_late : WipeCalls → Slot → Option SlotRec → Table → Table
unfolding end_clean wipe
end_late w snap none t = t
end_late w snap (some r) t =
    if r.cleaning then end_clean (wipe w) (record r { slot = snap }) t else t

-- A worker of the record at `p` that ends after its caller has gone on, with the copy of the slot that it
-- was started with.
unfoldable pub finish_clean : WipeCalls → Slot → ℕ → Table → Table
unfolding end_late at_ref
finish_clean w snap p t = end_late w snap (at_ref p t.slots) t

unfoldable pub pending : SlotRec → Bool
pending r = r.cleanup_pending && not r.cleaning

-- The loop of retryCleanup; `expired` tells whether the context has ended before a round.
unfoldable pub retry_all : (SlotId → Bool) → (SlotId → Worker) → List SlotRec → Table → Table
retry_all expired worker [] t = t
retry_all expired worker (r ∷ rs) t =
    let rest = retry_all expired worker rs (clean (worker r.id) r.id r.ref t) in
    if expired r.id then t else rest

-- Table.retryCleanup
unfoldable pub retry_cleanup : Bool → (SlotId → Bool) → (SlotId → Worker) → Table → Table
unfolding retry_all pending
retry_cleanup expired_now expired worker t =
    if expired_now then t else retry_all expired worker (keep pending t.slots) t
