-- ===== src/Reconcile.antt =====
-- internal/reconcile/reconcile.go: the desired count, put into the capacity window and handed to the
-- slot table. Counts are natural numbers: a negative one from the listener would be raised to the lower
-- bound, which the configuration keeps from being negative.
pub mod Window
mod Examples
use tentacles.Base.{ℕ, Bool, ltb, if◌then◌else◌}
use tentacles.Base.Float.{FloatOps}
use tentacles.Table.{Table, set_desired}
use tentacles.Table.Start.{Places}
use tentacles.Table.Ensure.{World, ensure}

-- Clamp
unfoldable pub clamp : ℕ → ℕ → ℕ → ℕ
clamp v lo hi = if ltb hi lo then hi else if ltb v lo then lo else if ltb hi v then hi else v

pub record Reconciler : Type 0 where
  pub min_runners : ℕ
  pub max_runners : ℕ

-- Reconciler.Reconcile; the result tells whether it returns no error.
unfoldable pub reconcile : FloatOps → Places → World → Reconciler → ℕ → Table → Table × Bool
unfolding clamp
reconcile fl places w r raw t =
    let desired = clamp raw r.min_runners r.max_runners in
    ensure fl places w desired (set_desired desired t)
