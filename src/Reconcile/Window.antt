-- ===== src/Reconcile/Window.antt =====
-- The capacity window.
use tentacles.Base.{ℕ, ◌≤◌, ◌≡◌, refl, arith, min, max}
use tentacles.Base.Float.{FloatOps}
use tentacles.Table.{Table, count_live, set_desired}
use tentacles.Table.Start.{Places}
use tentacles.Table.Ensure.{World}
use tentacles.Table.Ensure.Total.{ensure_ceiling}
use tentacles.Table.Invariant.{Inv}
use tentacles.Table.Invariant.Preserved.{Reach-Inv}
use tentacles.Table.Steps.{Reach-Step, sets_desired}
use tentacles.Reconcile.{clamp, Reconciler, reconcile}

-- Clamp is the least of the upper bound and the greatest of the value and the lower bound, also when
-- the bounds are crossed.
pub clamp_window : (v lo hi : ℕ) → clamp v lo hi ≡ min (max v lo) hi
unfolding clamp
clamp_window v lo hi = ground arith

-- From a table in which the invariant holds, Reconcile leaves no more live slots than there were before
-- or than the capacity window allows, whichever is more, whatever count the listener asks for.
pub reconcile_ceiling :
    (fl : FloatOps) (places : Places) (w : World) (r : Reconciler) (raw : ℕ) (t : Table)
    → Inv t
    → count_live (reconcile fl places w r raw t).0.slots ≤ max (count_live t.slots) r.max_runners
unfolding reconcile
reconcile_ceiling fl places w r raw t v =
    let desired = clamp raw r.min_runners r.max_runners in
    let set : Inv (set_desired desired t) = Reach-Inv (Reach-Step (sets_desired desired)) v in
    let same : count_live (set_desired desired t).slots ≡ count_live t.slots =
      unfold set_desired in refl in
    omega (
      arith,
      ensure_ceiling fl places w desired (set_desired desired t) set,
      same,
      clamp_window raw r.min_runners r.max_runners,
    )
