-- ===== src/Table/Runs/Background.antt =====
-- The background goroutines as runs of sections: the watchers and the sampler.
use tentacles.Base.{ℕ, Option, none, some, List, [], ◌∷◌, keep}
use tentacles.Base.Float.{FloatOps}
use tentacles.Slot.{SlotId, Usage}
use tentacles.Table.{SlotRec, Table}
use tentacles.Table.Clean.{Worker}
use tentacles.Table.Watch.{
  Waited, WatchEnd, left_in_place, confirmed, still_watching, first_delay, watch_loop, watch_end,
  watch,
}
use tentacles.Table.Sample.{is_sampled, sample_target, sample_targets, sample_tick}
use tentacles.Table.Steps.{samples, Reach, here, Reach-trans, Reach-Step}
use tentacles.Table.Runs.Release.{observe_exit-Reach}

watch_end-Reach :
    (fl : FloatOps) (i : SlotId) (p now : ℕ) (w : Worker) (t : Table) (e : WatchEnd)
    → Reach t (watch_end fl i p now w t e)
unfolding watch_end
watch_end-Reach fl i p now w t confirmed = observe_exit-Reach fl i (some p) now w t
watch_end-Reach fl i p now w t left_in_place = here
watch_end-Reach fl i p now w t still_watching = here

-- Whatever its waits come to, a watcher is a run of the table's sections.
pub watch-Reach :
    (fl : FloatOps) (ws : List Waited) (i : SlotId) (p now : ℕ) (w : Worker) (t : Table)
    → Reach t (watch fl ws i p now w t)
unfolding watch
watch-Reach fl ws i p now w t = watch_end-Reach fl i p now w t (watch_loop ws first_delay []).0

sample_target-Reach : (o : Option Usage) (p : ℕ) (t : Table) → Reach t (sample_target o p t)
unfolding sample_target
sample_target-Reach none p t = here
sample_target-Reach (some u) p t = Reach-Step (samples p u)

sample_targets-Reach :
    (sampler : SlotId → Option Usage) (rs : List SlotRec) (t : Table)
    → Reach t (sample_targets sampler rs t)
unfolding sample_targets
sample_targets-Reach sampler [] t = here
sample_targets-Reach sampler (r ∷ rs) t =
    Reach-trans (sample_target-Reach (sampler r.id) r.ref t)
      (sample_targets-Reach sampler rs (sample_target (sampler r.id) r.ref t))

-- So is a tick of the sampler.
pub sample_tick-Reach :
    (sampler : SlotId → Option Usage) (t : Table) → Reach t (sample_tick sampler t)
unfolding sample_tick
sample_tick-Reach sampler t =
    sample_targets-Reach sampler (keep (λ r. is_sampled r.state) t.slots) t
