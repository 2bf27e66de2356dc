-- ===== src/Daemon/Start.antt =====
-- internal/app/app.go: the start of the daemon's run, before its listeners and its loop: the scale sets and
-- the boot adoption of every pool.
pub mod Ceiling
use tentacles.Base.{
  ℕ, zero, suc, Bool, true, false, Option, none, some, List, [], ◌∷◌, Text, ◌==◌, if◌then◌else◌,
  ltb,
}
use tentacles.Base.Int.{ℤ, pos_part}
use tentacles.Base.Float.{FloatOps}
use tentacles.Table.{Table}
use tentacles.Table.Start.{Places}
use tentacles.Table.Adopt.{AdoptWorld, AdoptEnd, adopt}
use tentacles.Pool.{PoolRuntime}
use tentacles.Pool.Retry.{Backoff}
use tentacles.Schedule.Host.{Host, set_pool}
use tentacles.Daemon.Boot.{TableSettings, DaemonPool}

-- NewTable, with the completion hook that the daemon gives
unfoldable pub new_table : TableSettings → Table
new_table s = record {
  namespace = s.namespace;
  acquire_grace = pos_part s.acquire_grace;
  idle_grace = pos_part s.idle_grace;
  has_completion_hook = true;
  slots = [];
  desired = 0;
  is_closed = false;
  next_ref = 0;
  effects = [];
}

-- newPoolRuntime of a pool that newDaemonContext sets up
unfoldable pub new_pool : Backoff → DaemonPool → PoolRuntime
unfolding new_table
new_pool idle p = record {
  pool_id = p.config.id;
  min_runners = pos_part p.config.capacity.min_runners;
  max_runners = pos_part p.config.capacity.max_runners;
  table = new_table p.settings;
  desired = pos_part p.desired;
  queued = [];
  backoff = idle;
}

-- What the pools meet: whether EnsureScaleSet succeeds, the units that Active lists, and what Adopt meets.
pub record StartWorld : Type 0 where
  pub scale_set_ready : ℕ → Bool
  pub units : ℕ → Option (List Text)
  pub adoption : ℕ → AdoptWorld

pub data StartEnd : Type 0 where
  serving : StartEnd
  no_scale_set no_units : ℕ → StartEnd
  not_adopted : ℕ → AdoptEnd → StartEnd

-- The first loop: the first pool without its scale set ends it.
unfoldable pub ensure_scale_sets : (ℕ → Bool) → ℕ → ℕ → Option ℕ
ensure_scale_sets ready zero k = none
ensure_scale_sets ready (suc count) k =
    let rest = ensure_scale_sets ready count (suc k) in if ready k then rest else some k

module _ (fl : FloatOps) (places : ℕ → Places) (w : StartWorld) where
  abbrev pub adopted : ℕ → PoolRuntime → Host → Table → Host
  adopted k p h t = set_pool k (record p { table = t }) h

  abbrev pub after_adopt :
      ℕ → Host → (Host → Host × StartEnd) → Table × Option AdoptEnd → Host × StartEnd
  after_adopt k h rest (t, none) = rest (adopted k (h.pool k) h t)
  after_adopt k h rest (t, some e) = (adopted k (h.pool k) h t, not_adopted k e)

  abbrev pub after_list : ℕ → Host → (Host → Host × StartEnd) → Option (List Text) → Host × StartEnd
  after_list k h rest none = (h, no_units k)
  after_list k h rest (some units) =
      after_adopt k h rest (adopt fl (places k) (w.adoption k) units (h.pool k).table)

  -- The second loop, of boot adoption.
  unfoldable pub adopt_pools : ℕ → ℕ → Host → Host × StartEnd
  unfolding adopt set_pool
  adopt_pools zero k h = (h, serving)
  adopt_pools (suc count) k h = after_list k h (adopt_pools count (suc k)) (w.units k)

  abbrev pub after_scale_sets : ℕ → Host → Option ℕ → Host × StartEnd
  after_scale_sets n h (some k) = (h, no_scale_set k)
  after_scale_sets n h none = adopt_pools n 0 h

  -- The start of daemon.run.
  unfoldable pub start : ℕ → Host → Host × StartEnd
  unfolding ensure_scale_sets adopt_pools
  start n h = after_scale_sets n h (ensure_scale_sets w.scale_set_ready n 0)

-- One wait of notifyReady: the pool's session comes up, or the context ends first.
pub data Session : Type 0 where
  session_up context_ended : Session

-- notifyReady: whether READY=1 is sent
unfoldable pub notify_ready : List Session → Bool
notify_ready [] = true
notify_ready (session_up ∷ ss) = notify_ready ss
notify_ready (context_ended ∷ ss) = false
