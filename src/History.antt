-- ===== src/History.antt =====
-- internal/history/history.go: the usage history that admission decisions rest on. The arithmetic of
-- float64 is a parameter.
pub mod File
pub mod Replay
pub mod Fallback
mod Examples
use tentacles.Base.{
  ℕ, zero, suc, ◌+◌, ◌-◌, ◌*◌, ◌/◌, Bool, true, false, ◌&&◌, Option, none, some, List, [], ◌∷◌,
  ◌++◌, Text, text_eq, length, drop, find, put, leb, ltb, if◌then◌else◌,
}
use tentacles.Base.Float.{Float64, FloatOps}

pub record Record : Type 0 where
  pub pool : Text
  pub slot : Text
  pub workflow_ref : Text
  pub run_id : ℕ
  pub cpu_seconds : Float64
  pub peak_mem_bytes : ℕ
  pub wall_seconds : Float64
  pub queue_wait_seconds : Float64
  pub sampled : Bool
  pub at : ℕ

pub record Stats : Type 0 where
  pub count : ℕ
  pub cpu_seconds : Float64
  pub peak_mem_bytes : ℕ
  pub wall_seconds : Float64
  pub sampled_count : ℕ

abbrev pub HistoryKey : Type 0
HistoryKey = Text × Text

-- Equality of historyKey values
unfoldable pub same_key : HistoryKey → HistoryKey → Bool
same_key a b = text_eq a.0 b.0 && text_eq a.1 b.1

pub record Store : Type 0 where
  pub refs : List (HistoryKey × Stats)
  pub pools : List (Text × Stats)
  pub global : Stats

-- The constants of the averages: EWMAAlpha, 1 - EWMAAlpha, and the half that rounds.
pub record Weights : Type 0 where
  pub alpha : Float64
  pub rest : Float64
  pub half : Float64

module _ (fl : FloatOps) (weights : Weights) where
  -- `&Stats{}`
  abbrev pub no_stats : Stats
  no_stats = record {
    count = 0;
    cpu_seconds = fl.zero_value;
    peak_mem_bytes = 0;
    wall_seconds = fl.zero_value;
    sampled_count = 0;
  }

  abbrev pub empty_store : Store
  empty_store = record { refs = []; pools = []; global = no_stats }

  average : Float64 → Float64 → Float64
  average new old = fl.add (fl.mul weights.alpha new) (fl.mul weights.rest old)

  -- The part of blend for a sampled record.
  unfoldable pub blend_sampled : Record → Stats → Stats
  unfolding average
  blend_sampled r st =
      if leb st.sampled_count 0
      then record st {
        cpu_seconds = r.cpu_seconds;
        peak_mem_bytes = r.peak_mem_bytes;
        sampled_count = suc st.sampled_count;
      }
      else record st {
        cpu_seconds = average r.cpu_seconds st.cpu_seconds;
        peak_mem_bytes = fl.to_uint (
            fl.add (average (fl.of_uint r.peak_mem_bytes) (fl.of_uint st.peak_mem_bytes))
              weights.half);
        sampled_count = suc st.sampled_count;
      }

  -- The part of blend for every record.
  unfoldable pub blend_wall : Record → Stats → Stats
  unfolding average
  blend_wall r st = record st {
    wall_seconds =
        if leb st.count 0 then r.wall_seconds else average r.wall_seconds st.wall_seconds;
    count = suc st.count;
  }

  unfoldable pub blend : Record → Stats → Stats
  unfolding blend_sampled blend_wall
  blend r st = blend_wall r (if r.sampled then blend_sampled r st else st)

  -- The entry of a map of aggregates, which is made if it is missing.
  unfoldable pub stats_or_none : Option Stats → Stats
  stats_or_none none = no_stats
  stats_or_none (some st) = st

  -- Store.Ref and Store.Pool
  unfoldable pub ref_stats : Store → Text → Text → Stats
  unfolding find same_key stats_or_none
  ref_stats s pool ref = stats_or_none (find same_key (pool, ref) s.refs)

  unfoldable pub pool_stats : Store → Text → Stats
  unfolding find stats_or_none
  pool_stats s pool = stats_or_none (find text_eq pool s.pools)

  -- Store.absorb
  unfoldable pub absorb : Record → Store → Store
  unfolding put ref_stats pool_stats blend
  absorb r s = record {
    refs =
        put same_key (r.pool, r.workflow_ref) (blend r (ref_stats s r.pool r.workflow_ref)) s.refs;
    pools = put text_eq r.pool (blend r (pool_stats s r.pool)) s.pools;
    global = blend r s.global;
  }

  -- Whether an aggregate has sampled records.
  unfoldable pub has_samples : Option Stats → Bool
  has_samples none = false
  has_samples (some st) = ltb 0 st.sampled_count

  -- usableRate
  unfoldable pub usable_rate : Option Stats → Bool
  usable_rate none = false
  usable_rate (some st) = ltb 0 st.sampled_count && fl.less fl.zero_value st.wall_seconds

  -- The fallback of the predictions: the workflow's aggregate, then the pool's, then the host's.
  unfoldable pub fallback : (Option Stats → Bool) → Store → Text → Text → Option Stats
  unfolding find same_key
  fallback usable s pool ref =
      let of_ref = find same_key (pool, ref) s.refs in
      let of_pool = find text_eq pool s.pools in
      if usable of_ref
      then of_ref
      else if usable of_pool
      then of_pool
      else if usable (some s.global)
      then some s.global
      else none

  unfoldable pub predicted {ℓ} : {A : Type ℓ} → A → (Stats → A) → Option Stats → A × Bool
  predicted zero_value f none = (zero_value, false)
  predicted zero_value f (some st) = (f st, true)

  -- Store.PredictCPU
  unfoldable pub predict_cpu : Store → Text → Text → Float64 × Bool
  unfolding fallback predicted has_samples
  predict_cpu s pool ref =
      predicted fl.zero_value (λ st. st.cpu_seconds) (fallback has_samples s pool ref)

  -- Store.PredictMem
  unfoldable pub predict_mem : Store → Text → Text → ℕ × Bool
  unfolding fallback predicted has_samples
  predict_mem s pool ref = predicted 0 (λ st. st.peak_mem_bytes) (fallback has_samples s pool ref)

  -- Store.PredictCores
  unfoldable pub predict_cores : Store → Text → Text → Float64 × Bool
  unfolding fallback predicted usable_rate
  predict_cores s pool ref =
      predicted fl.zero_value (λ st. fl.div st.cpu_seconds st.wall_seconds)
        (fallback usable_rate s pool ref)

  unfoldable pub absorb_all : List Record → Store → Store
  unfolding absorb
  absorb_all [] s = s
  absorb_all (r ∷ rs) s = absorb_all rs (absorb r s)
