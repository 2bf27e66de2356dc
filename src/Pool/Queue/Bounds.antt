-- ===== src/Pool/Queue/Bounds.antt =====
-- The size of the queue of hints, and what the reservation covers.
use tentacles.Base.{
  ℕ, suc, ◌-◌, ◌≤◌, ◌≡◌, refl, Bool, Option, none, some, List, [], ◌∷◌, Text, text_eq, arith, min,
  max, leb, if_cases, length, keep, All, find, delete, length-put_held, length-put_le,
  length-delete_le, All-put, All-delete, Bool-cases, subst, inl, inr,
}
use tentacles.Base.Float.{Float64, FloatOps}
use tentacles.History.{Store, Weights, predict_cores, predict_mem}
use tentacles.Pool.Queue.{
  max_queued_refs, Queued, Queue, is_fresh, expire, note_held, note_ref, note_refs, note_queued,
  consume_held, consume, largest, estimate, candidate_estimate, QueueOp, noted, consumed, estimated,
  run_op, run_ops,
}

-- A hint stands for at least one job and at most 9999.
abbrev pub IsHint : Text × Queued → Type 0
IsHint e = (1 ≤ e.1.count) × (e.1.count ≤ 9999)

pub record IsBounded (q : Queue) : Type 0 where
  pub few : length q ≤ max_queued_refs
  pub hints : All IsHint q

length-keep_le : (p : Text × Queued → Bool) (q : Queue) → length (keep p q) ≤ length q
length-keep_le p [] = omega arith
length-keep_le p (e ∷ q) = ground (arith, length-keep_le p q)

All-keep_sub :
    (P : Text × Queued → Type 0) (p : Text × Queued → Bool) (q : Queue) → All P q → All P (keep p q)
All-keep_sub P p [] h = tt
All-keep_sub P p (e ∷ q) h =
    if_cases (All P) (p e) _ _ (λ _. (h.0, All-keep_sub P p q h.1)) (λ _. All-keep_sub P p q h.1)

expire-IsBounded : (now : ℕ) (q : Queue) → IsBounded q → IsBounded (expire now q)
unfolding expire
expire-IsBounded now q b = record {
  few = omega (arith, length-keep_le (is_fresh now) q, b.few);
  hints = All-keep_sub IsHint (is_fresh now) q b.hints;
}

note_held-IsBounded :
    (now : ℕ) (ref : Text) (o : Option Queued) (q : Queue)
    → find text_eq ref q ≡ o
    → IsBounded q
    → IsBounded (note_held now ref o q)
unfolding note_held
note_held-IsBounded now ref none q e b =
    if_cases IsBounded (leb max_queued_refs (length q)) _ _ (λ _. b)
      (λ room. record {
        few =
            ground
              (arith, room, length-put_le text_eq ref (record { count = 1; queued_at = now }) q);
        hints = All-put text_eq IsHint ref _ q (omega arith, omega arith) b.hints;
      })
note_held-IsBounded now ref (some x) q e b = record {
  few = omega (
    arith,
    length-put_held text_eq ref (record { count = min (suc x.count) 9999; queued_at = now }) x q e,
    b.few,
  );
  hints = All-put text_eq IsHint ref _ q (omega arith, omega arith) b.hints;
}

note_refs-IsBounded :
    (now : ℕ) (refs : List Text) (q : Queue) → IsBounded q → IsBounded (note_refs now refs q)
unfolding note_refs note_ref
note_refs-IsBounded now [] q b = b
note_refs-IsBounded now (ref ∷ refs) q b = note_refs-IsBounded now refs _ (
    if_cases IsBounded (text_eq ref []) _ _ (λ _. b)
      (λ _. note_held-IsBounded now ref (find text_eq ref q) q refl b))

held-IsHint :
    (ref : Text) (x : Queued) (q : Queue)
    → find text_eq ref q ≡ some x
    → All IsHint q
    → (1 ≤ x.count) × (x.count ≤ 9999)
unfolding find
held-IsHint ref x [] e h = cc
held-IsHint ref x (y ∷ q) e h = elim (Bool-cases (text_eq ref y.0)) [
  | inl t ↦
      let same : y.1 ≡ x = ground (arith, e, t) in
      subst (λ (z : Queued). (1 ≤ z.count) × (z.count ≤ 9999)) same h.0
  | inr t ↦ held-IsHint ref x q (ground (arith, e, t)) h.1
]

consume-IsBounded : (ref : Text) (q : Queue) → IsBounded q → IsBounded (consume ref q)
unfolding consume
consume-IsBounded ref q b = held (find text_eq ref q) refl
  where
    deleted : IsBounded (delete text_eq ref q)
    deleted = record {
      few = omega (arith, length-delete_le text_eq ref q, b.few);
      hints = All-delete text_eq IsHint ref q b.hints;
    }

    held : (o : Option Queued) → find text_eq ref q ≡ o → IsBounded (consume_held ref o q)
    held none e = unfold consume_held in deleted
    held (some x) e =
        unfold consume_held in
        let h = held-IsHint ref x q e b.hints in
        if_cases IsBounded (leb x.count 1) _ _ (λ _. deleted)
          (λ more. record {
            few = omega (
              arith,
              length-put_held text_eq ref (record { count = x.count - 1; queued_at = x.queued_at })
                  x q e,
              b.few,
            );
            hints =
                All-put text_eq IsHint ref _ q (ground (arith, more), omega (arith, h.1)) b.hints;
          })

run_op-IsBounded : (op : QueueOp) (q : Queue) → IsBounded q → IsBounded (run_op op q)
unfolding run_op note_queued
run_op-IsBounded (noted now refs) q b =
    note_refs-IsBounded now refs (expire now q) (expire-IsBounded now q b)
run_op-IsBounded (consumed ref) q b = consume-IsBounded ref q b
run_op-IsBounded (estimated now) q b = expire-IsBounded now q b

run_ops_from : (ops : List QueueOp) (q : Queue) → IsBounded q → IsBounded (run_ops ops q)
unfolding run_ops
run_ops_from [] q b = b
run_ops_from (op ∷ ops) q b = run_ops_from ops (run_op op q) (run_op-IsBounded op q b)

-- Whatever the listener reports and in whatever order, a pool that starts without hints has hints for
-- at most 1024 workflows, each of which stands for at least one and at most 9999 jobs.
pub run_ops-IsBounded : (ops : List QueueOp) → IsBounded (run_ops ops [])
run_ops-IsBounded ops = run_ops_from ops [] (record { few = omega arith; hints = tt })

largest_grows :
    (fl : FloatOps) (weights : Weights) (hist : Store) (pool : Text) (q : Queue)
    (most : Float64 × ℕ)
    → most.1 ≤ (largest fl weights hist pool q most).1
unfolding largest
largest_grows fl weights hist pool [] most = omega arith
largest_grows fl weights hist pool (e ∷ q) (cores, memory) = omega (
  arith,
  largest_grows fl weights hist pool q (
    fl.maximum cores (predict_cores fl weights hist pool e.0).0,
    max memory (predict_mem fl weights hist pool e.0).0,
  ),
)

largest_covers :
    (fl : FloatOps) (weights : Weights) (hist : Store) (pool : Text) (q : Queue)
    (most : Float64 × ℕ)
    → All
        (λ e. (predict_mem fl weights hist pool e.0).0 ≤ (largest fl weights hist pool q most).1)
        q
unfolding largest
largest_covers fl weights hist pool [] most = tt
largest_covers fl weights hist pool (e ∷ q) (cores, memory) =
    let most : Float64 × ℕ = (
      fl.maximum cores (predict_cores fl weights hist pool e.0).0,
      max memory (predict_mem fl weights hist pool e.0).0,
    ) in
    (
      omega (arith, largest_grows fl weights hist pool q most),
      largest_covers fl weights hist pool q most,
    )

-- With a history, the memory that a new slot is charged covers the prediction for every hint that has
-- not expired.
pub estimate_covers :
    (fl : FloatOps) (weights : Weights) (hist : Store) (now : ℕ) (pool : Text) (q : Queue)
    → All
        (λ e.
          (predict_mem fl weights hist pool e.0).0
          ≤ (candidate_estimate fl weights (some hist) now pool q).0.1)
        (expire now q)
unfolding candidate_estimate
estimate_covers fl weights hist now pool q = covers (expire now q)
  where
    covers :
        (fresh : Queue)
        → All
            (λ e.
              (predict_mem fl weights hist pool e.0).0 ≤ (estimate fl weights hist pool fresh).1)
            fresh
    covers [] = tt
    covers (e ∷ es) =
        unfold estimate in largest_covers fl weights hist pool (e ∷ es) (fl.zero_value, 0)
