-- ===== src/Queue/Projection.antt =====
-- src/internal/queueProjection.ts: what the levels' sizes look like from outside.
use effect_pm.Prelude.{ℕ, Bool, true, ◌&&◌, Option, none, some, List, [], ◌∷◌, leb, sum, get_elem?}
use effect_pm.Durable.Port.{DurableSizes}
use effect_pm.Queue.Types.{Phase}
pub mod Custom

pub record QueueStatus : Type 0 where
  pub sizes : DurableSizes
  pub paused : Bool
  pub in_flight : ℕ
  pub completed : ℕ
  pub phase : Phase

abbrev pub size_or_zero : Option ℕ → ℕ
size_or_zero none = 0
size_or_zero (some n) = n

-- Sizes are natural numbers here, so `Math.max(0, n)` is the identity.
unfoldable pub project_sizes : List ℕ → DurableSizes
project_sizes levels = record {
  high = size_or_zero (get_elem? levels 0);
  normal = size_or_zero (get_elem? levels 1);
  low = size_or_zero (get_elem? levels 2);
}

unfoldable pub total_pending : List ℕ → ℕ
total_pending levels = sum levels

unfoldable pub is_empty_levels : List ℕ → Bool
is_empty_levels [] = true
is_empty_levels (n ∷ ns) = leb n 0 && is_empty_levels ns

unfoldable pub build_status : List ℕ → Bool → ℕ → ℕ → Phase → QueueStatus
unfolding project_sizes
build_status levels paused in_flight completed phase = record {
  sizes = project_sizes levels;
  paused = paused;
  in_flight = in_flight;
  completed = completed;
  phase = phase;
}
