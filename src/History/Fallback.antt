-- ===== src/History/Fallback.antt =====
-- What the predictions answer, and which aggregates a record changes.
use tentacles.Base.{
  ◌≡◌, refl, sym, ap, Bool, true, false, Option, none, some, Text, text_eq, text_eq_iff,
  text_eq_refl, arith, find, find-put_same, find-put_other, if_cases,
}
use tentacles.Base.Float.{FloatOps}
use tentacles.History.{
  Record, Store, Weights, Stats, HistoryKey, same_key, ref_stats, stats_or_none, absorb, blend,
  blend_wall, blend_sampled, has_samples, fallback, predicted, predict_mem, predict_cpu,
}

module _ (fl : FloatOps) (weights : Weights) where
  blend_samples :
      (r : Record) (st : Stats)
      → r.sampled ≡ true
      → has_samples fl weights (some (blend fl weights r st)) ≡ true
  unfolding has_samples blend blend_wall blend_sampled
  blend_samples r st h = ground (arith, h)

  predicted_known :
      {A : Type 0} (z : A) (f : Stats → A) (o : Option Stats)
      → has_samples fl weights o ≡ true
      → (predicted fl weights z f o).1 ≡ true
  unfolding predicted has_samples
  predicted_known z f none h = h
  predicted_known z f (some st) h = refl

  -- With a usable aggregate of the host the fallback finds a usable one.
  fallback_known :
      (usable : Option Stats → Bool) (s : Store) (pool ref : Text)
      → usable (some s.global) ≡ true
      → usable (fallback fl weights usable s pool ref) ≡ true
  unfolding fallback
  fallback_known usable s pool ref h =
      let of_ref = find same_key (pool, ref) s.refs in
      let of_pool = find text_eq pool s.pools in
      if_cases (λ (o : Option Stats). usable o ≡ true) (usable of_ref) _ _ (λ e. e)
        (λ _.
          if_cases (λ (o : Option Stats). usable o ≡ true) (usable of_pool) _ _ (λ e. e)
            (λ _.
              if_cases (λ (o : Option Stats). usable o ≡ true) (usable (some s.global)) _ _ (λ e. e)
                (λ e. absurd (cc (e, h)))))

  -- After a sampled record has been absorbed, memory and CPU are predicted for every workflow of every
  -- pool, also for those that no record names.
  pub predicts_after_sample :
      (r : Record) (s : Store) (pool ref : Text)
      → r.sampled ≡ true
      → ((predict_mem fl weights (absorb fl weights r s) pool ref).1 ≡ true)
        × ((predict_cpu fl weights (absorb fl weights r s) pool ref).1 ≡ true)
  unfolding predict_mem predict_cpu
  predicts_after_sample r s pool ref h =
      (predicted_known 0 _ _ known, predicted_known fl.zero_value _ _ known)
    where
      known :
          has_samples fl weights
            (fallback fl weights (has_samples fl weights) (absorb fl weights r s) pool ref)
          ≡ true
      known =
          fallback_known (has_samples fl weights) (absorb fl weights r s) pool ref
            (unfold absorb in blend_samples r s.global h)

  same_key_refl : (a : HistoryKey) → same_key a a ≡ true
  unfolding same_key
  same_key_refl a = rw (text_eq_refl a.0, text_eq_refl a.1) refl

  same_key_eq : (a b : HistoryKey) → same_key a b ≡ true → (a.0 ≡ b.0) × (a.1 ≡ b.1)
  unfolding same_key
  same_key_eq a b h =
      ((text_eq_iff a.0 b.0).0 (ground (arith, h)), (text_eq_iff a.1 b.1).0 (ground (arith, h)))

  -- A record changes the aggregate of its own workflow by blending it in, and no aggregate of another
  -- workflow or of another pool.
  pub absorb_ref :
      (r : Record) (s : Store) (pool ref : Text)
      → same_key (pool, ref) (r.pool, r.workflow_ref) ≡ false
      → (ref_stats fl weights (absorb fl weights r s) r.pool r.workflow_ref
          ≡ blend fl weights r (ref_stats fl weights s r.pool r.workflow_ref))
        × (ref_stats fl weights (absorb fl weights r s) pool ref ≡ ref_stats fl weights s pool ref)
  unfolding ref_stats absorb
  absorb_ref r s pool ref other = (
    rw
        (find-put_same same_key (r.pool, r.workflow_ref)
          (blend fl weights r (ref_stats fl weights s r.pool r.workflow_ref)) s.refs
          (same_key_refl (r.pool, r.workflow_ref)))
        (unfold stats_or_none ref_stats in refl),
    ap (stats_or_none fl weights) (
        find-put_other same_key (pool, ref) (r.pool, r.workflow_ref)
          (blend fl weights r (ref_stats fl weights s r.pool r.workflow_ref)) s.refs other
          (λ m e.
            let same = same_key_eq (r.pool, r.workflow_ref) m e in
            rw (sym same.0, sym same.1) other)),
  )
