-- ===== src/Config/Apart.antt =====
-- internal/config/config.go: the directories of two pools of an accepted configuration.
use tentacles.Base.{
  ◌≡◌, ◌≢◌, refl, ap, ◌∙◌, inl, false, List, [], ◌∷◌, Text, codes, text_eq, All, AllPairs,
}
use tentacles.FilePath.{is_abs, join, walk}
use tentacles.FilePath.Segments.{IsPlain, Canon, stack_of, stack_of-Canon}
use tentacles.FilePath.Rendered.{text_of, is_abs-text_of, stack_of-text_of}
use tentacles.Config.{Config, Pool}
use tentacles.Config.JobHome.{paths_overlap}
use tentacles.Config.Forks.{walk-plain, join-stack, pool_id-IsPlain, fork_apart, fork_apart_below}
use tentacles.Config.Dirs.{pool_state_dir, pool_slots_dir, pool_jit_dir, pool_log_dir}
use tentacles.Config.Check.{Machine, validate}
use tentacles.Config.Accepted.{IsBounded}
use tentacles.Config.Bounds.{pools-IsBounded, ids_differ}

abbrev pools : Text
pools = codes "pools"

abbrev slots : Text
slots = codes "slots"

pools-IsPlain : IsPlain pools
unfolding text_eq
pools-IsPlain = (refl, refl, refl, (refl, (refl, (refl, (refl, (refl, tt))))))

slots-IsPlain : IsPlain slots
unfolding text_eq
slots-IsPlain = (refl, refl, refl, (refl, (refl, (refl, (refl, (refl, tt))))))

join-one : (d w : Text) → IsPlain w → join (d ∷ w ∷ []) ≡ text_of (is_abs d) (w ∷ stack_of d)
unfolding walk
join-one d w h =
    join-stack d w [] (h, tt) ∙ ap (text_of (is_abs d)) (walk-plain (is_abs d) (stack_of d) w [] h)

join-two :
    (d v w : Text)
    → IsPlain v
    → IsPlain w
    → join (d ∷ v ∷ w ∷ []) ≡ text_of (is_abs d) (w ∷ v ∷ stack_of d)
unfolding walk
join-two d v w hv hw =
    join-stack d v (w ∷ []) (hv, (hw, tt))
    ∙ ap (text_of (is_abs d)) (
        walk-plain (is_abs d) (stack_of d) v (w ∷ []) hv
        ∙ walk-plain (is_abs d) (v ∷ stack_of d) w [] hw)

slots_dir :
    (c : Config) (id : Text)
    → IsPlain id
    → pool_slots_dir c id
      ≡ text_of (is_abs c.paths.state_dir) (slots ∷ id ∷ pools ∷ stack_of c.paths.state_dir)
unfolding pool_slots_dir pool_state_dir
slots_dir c id h =
    let d = c.paths.state_dir in
    let canon : Canon (is_abs d) (id ∷ pools ∷ stack_of d) =
      inl (h, inl (pools-IsPlain, stack_of-Canon d)) in
    ap (λ s. join (s ∷ slots ∷ [])) (join-two d pools id pools-IsPlain h)
    ∙ join-one (text_of (is_abs d) (id ∷ pools ∷ stack_of d)) slots slots-IsPlain
    ∙ ap (λ r. text_of r (slots ∷ stack_of (text_of (is_abs d) (id ∷ pools ∷ stack_of d))))
        (is_abs-text_of (is_abs d) (id ∷ pools ∷ stack_of d) canon)
    ∙ ap (λ out. text_of (is_abs d) (slots ∷ out))
        (stack_of-text_of (is_abs d) (id ∷ pools ∷ stack_of d) canon)

-- The slot, JIT and log directories of two pools.
pub record DirsApart (c : Config) (p q : Pool) : Type 0 where
  pub slots_apart : paths_overlap (pool_slots_dir c p.id) (pool_slots_dir c q.id) ≡ false
  pub jit_apart : paths_overlap (pool_jit_dir c p.id) (pool_jit_dir c q.id) ≡ false
  pub logs_apart : paths_overlap (pool_log_dir c p.id) (pool_log_dir c q.id) ≡ false

module _ (c : Config) (p q : Pool) (pp : IsPlain p.id) (pq : IsPlain q.id)
    (differ : p.id ≢ q.id) where
  slots_fork : paths_overlap (pool_slots_dir c p.id) (pool_slots_dir c q.id) ≡ false
  slots_fork =
      let d = c.paths.state_dir in
      ap (λ s. paths_overlap s (pool_slots_dir c q.id)) (slots_dir c p.id pp)
      ∙ ap (paths_overlap _) (slots_dir c q.id pq)
      ∙ fork_apart_below (is_abs d) (pools ∷ stack_of d) (inl (pools-IsPlain, stack_of-Canon d))
          slots p.id q.id slots-IsPlain pp pq differ

  jit_fork : paths_overlap (pool_jit_dir c p.id) (pool_jit_dir c q.id) ≡ false
  unfolding pool_jit_dir
  jit_fork =
      let d = c.runtime.jit_dir in
      ap (λ s. paths_overlap s (join (d ∷ q.id ∷ []))) (join-one d p.id pp)
      ∙ ap (paths_overlap _) (join-one d q.id pq)
      ∙ fork_apart (is_abs d) (stack_of d) (stack_of-Canon d) p.id q.id pp pq differ

  logs_fork : paths_overlap (pool_log_dir c p.id) (pool_log_dir c q.id) ≡ false
  unfolding pool_log_dir
  logs_fork =
      let d = c.paths.log_dir in
      ap (λ s. paths_overlap s (join (d ∷ pools ∷ q.id ∷ [])))
        (join-two d pools p.id pools-IsPlain pp)
      ∙ ap (paths_overlap _) (join-two d pools q.id pools-IsPlain pq)
      ∙ fork_apart (is_abs d) (pools ∷ stack_of d) (inl (pools-IsPlain, stack_of-Canon d)) p.id q.id
          pp pq differ

  dirs_fork : DirsApart c p q
  dirs_fork = record { slots_apart = slots_fork; jit_apart = jit_fork; logs_apart = logs_fork }

all_fork :
    (c : Config) (p : Pool) (qs : List Pool)
    → IsPlain p.id
    → All (IsBounded c.capacity.max_runners) qs
    → All (λ q. p.id ≢ q.id) qs
    → All (DirsApart c p) qs
all_fork c p [] pp b differ = tt
all_fork c p (q ∷ qs) pp b differ = (
  dirs_fork c p q pp (pool_id-IsPlain q.id b.0.id_pattern) differ.0,
  all_fork c p qs pp b.1 differ.1,
)

pairs_fork :
    (c : Config) (ps : List Pool)
    → All (IsBounded c.capacity.max_runners) ps
    → AllPairs (λ p q. p.id ≢ q.id) ps
    → AllPairs (DirsApart c) ps
pairs_fork c [] b differ = tt
pairs_fork c (p ∷ ps) b differ = (
  all_fork c p ps (pool_id-IsPlain p.id b.0.id_pattern) b.1 differ.0,
  pairs_fork c ps b.1 differ.1,
)

-- If Validate reports nothing, then of any two pools neither the slot directories nor the JIT directories
-- nor the log directories overlap by the code's own test: neither path is the other or lies below it.
-- This holds whatever the configured roots are, relative ones and ones with `..` included.
pub accepted-DirsApart :
    (w : Machine) (c : Config) → validate w c ≡ [] → AllPairs (DirsApart c) c.pools
accepted-DirsApart w c e = pairs_fork c c.pools (pools-IsBounded w c e) (ids_differ w c e)
