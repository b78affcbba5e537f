-- ===== src/Lanes/Scheduled.antt =====
-- src/internal/levelLaneStoreScheduled.ts and takeAlgorithm.ts: lanes taken from in the order that an
-- algorithm picks. Virtual times are exact fractions here, where the code has doubles.
pub mod Picks
use effect_pm.Prelude.{
  ℕ, zero, suc, ◌+◌, ◌*◌, Bool, true, false, not, ◌&&◌, ◌||◌, Option, none, some, List, [], ◌∷◌,
  ltb, ◌==◌, if◌then◌else◌, max, filter, ℤ,
}
use mathlib.Core.Option
use effect_pm.Lanes.Bounded.{BoundedQueue}
use effect_pm.Lanes.Priority.{Lanes}
use effect_pm.Lanes.Priority

pub record Fraction : Type 0 where
  pub numerator : ℕ
  pub denominator : ℕ

abbrev pub before : Fraction → Fraction → Bool
before a b = ltb (a.numerator * b.denominator) (b.numerator * a.denominator)

abbrev pub same_time : Fraction → Fraction → Bool
same_time a b = (a.numerator * b.denominator) == (b.numerator * a.denominator)

abbrev pub weight_of : ℕ → ℕ
weight_of level = max 1 level

-- `t + 1 / weight`.
abbrev pub later_by_share : Fraction → ℕ → Fraction
later_by_share t weight = record {
  numerator = t.numerator * weight + t.denominator;
  denominator = t.denominator * weight;
}

pub record WeightedState : Type 0 where
  pub vtime : List (ℕ × Fraction)
  pub system_v : Fraction

abbrev pub vtime_of : ℕ → List (ℕ × Fraction) → Option Fraction
vtime_of level [] = none
vtime_of level ((l, t) ∷ rest) = if l == level then some t else vtime_of level rest

abbrev pub or_time : Fraction → Option Fraction → Fraction
or_time t none = t
or_time t (some u) = u

abbrev pub without_level : ℕ → List (ℕ × Fraction) → List (ℕ × Fraction)
without_level level = filter (λ p. not (p.0 == level))

-- The scheduler state: `undefined` at first, then the weighted algorithm's or a custom one's.
pub data Sched (S : Type 0) : Type 0 where
  unset : Sched S
  weighted_state : WeightedState → Sched S
  custom_state : S → Sched S

pub data TakeAlgorithm (S : Type 0) : Type 0 where
  strict_descending weighted : TakeAlgorithm S
  custom : (List (ℕ × ℕ) → Sched S → Option (ℕ × Sched S)) → TakeAlgorithm S

-- The loops over the non-empty levels, given as pairs of a level and its size.
abbrev pub highest : List (ℕ × ℕ) → Option ℕ → Option ℕ
highest [] best = best
highest ((level, size) ∷ rest) none = highest rest (some level)
highest ((level, size) ∷ rest) (some best) =
    highest rest (some (if ltb best level then level else best))

abbrev pub effective : WeightedState → ℕ → Fraction
effective s level = or_time s.system_v (vtime_of level s.vtime)

abbrev pub takes_over : Fraction → ℕ → Fraction → ℕ → Bool
takes_over eff level best_eff best = before eff best_eff || same_time eff best_eff && ltb level best

abbrev pub earliest : WeightedState → List (ℕ × ℕ) → Option (ℕ × Fraction) → Option (ℕ × Fraction)
earliest s [] best = best
earliest s ((level, size) ∷ rest) none = earliest s rest (some (level, effective s level))
earliest s ((level, size) ∷ rest) (some (best, best_eff)) = earliest s rest (
    if takes_over (effective s level) level best_eff best
    then some (level, effective s level)
    else some (best, best_eff))

-- The state after a pick: the level is later by its share, and the system is at its time.
abbrev pub served : WeightedState → ℕ → Fraction → WeightedState
served sched level eff = record {
  vtime = (level, later_by_share eff (weight_of level)) ∷ without_level level sched.vtime;
  system_v = eff;
}

module _ {S : Type 0} where
  -- `none` where the code throws, on no level at all.
  unfoldable pub pick_strict_descending : List (ℕ × ℕ) → Sched S → Option (ℕ × Sched S)
  pick_strict_descending non_empty state = elim (highest non_empty none) [
    | none ↦ none
    | some level ↦ some (level, state)
  ]

  -- The cast of the state; a custom state never meets this algorithm.
  abbrev pub weighted_of : Sched S → WeightedState
  weighted_of unset = record { vtime = []; system_v = record { numerator = 0; denominator = 1 } }
  weighted_of (weighted_state w) = w
  weighted_of (custom_state c) = record {
    vtime = [];
    system_v = record { numerator = 0; denominator = 1 };
  }

  unfoldable pub pick_weighted : List (ℕ × ℕ) → Sched S → Option (ℕ × Sched S)
  pick_weighted non_empty state =
      let sched = weighted_of state in
      elim (earliest sched non_empty none) [
        | none ↦ none
        | some (level, eff) ↦ some (level, weighted_state (served sched level eff))
      ]

  unfoldable pub resolve_pick : TakeAlgorithm S → List (ℕ × ℕ) → Sched S → Option (ℕ × Sched S)
  unfolding pick_strict_descending pick_weighted
  resolve_pick strict_descending non_empty state = pick_strict_descending non_empty state
  resolve_pick weighted non_empty state = pick_weighted non_empty state
  resolve_pick (custom pick) non_empty state = pick non_empty state

  -- An emptied level loses its virtual time, under the weighted algorithm.
  abbrev pub forget_level : TakeAlgorithm S → ℕ → Sched S → Sched S
  forget_level weighted level (weighted_state w) =
      weighted_state (record w { vtime = without_level level w.vtime })
  forget_level weighted level unset = unset
  forget_level weighted level (custom_state c) = custom_state c
  forget_level strict_descending level state = state
  forget_level (custom pick) level state = state

module _ {A : Type 0} (Q : BoundedQueue A) where
  open Q use {Queue, size, poll as poll_queue}

  -- `nonEmptyLevels`, from level `i` on.
  unfoldable pub non_empty_levels : ℕ → List Queue → List (ℕ × ℕ)
  non_empty_levels i [] = []
  non_empty_levels i (q ∷ qs) =
      let rest = non_empty_levels (suc i) qs in if ltb 0 (size q) then (i, size q) ∷ rest else rest

  -- `Queue.poll(queues[level]!)`, with the size that the lane has left.
  unfoldable pub poll_at : List Queue → ℕ → Option (A × ℕ × List Queue)
  poll_at [] i = none
  poll_at (q ∷ qs) zero = Option.map (λ (a, r). (a, size r, r ∷ qs)) (poll_queue q)
  poll_at (q ∷ qs) (suc i) = Option.map (λ (a, left, rs). (a, left, q ∷ rs)) (poll_at qs i)

  pub record ScheduledLanes (S : Type 0) : Type 0 where
    pub lanes : Lanes Q
    pub sched : Sched S

  module _ {S : Type 0} where
    unfoldable pub poll_scheduled : TakeAlgorithm S → ScheduledLanes S → Option A × ScheduledLanes S
    unfolding non_empty_levels resolve_pick poll_at
    poll_scheduled algorithm s = elim (non_empty_levels 0 s.lanes.queues) [
      | [] ↦ (none, s)
      | p ∷ ps ↦ elim (resolve_pick algorithm (p ∷ ps) s.sched) [
        | none ↦ (none, s)
        | some (level, next) ↦ elim (poll_at s.lanes.queues level) [
          | none ↦ (none, s)
          | some (item, left, queues) ↦ (
            some item,
            record {
              lanes = record s.lanes { queues = queues };
              sched = if left == 0 then forget_level algorithm level next else next;
            },
          )
        ]
      ]
    ]

    -- `drain` also forgets the scheduler state.
    unfoldable pub drain_scheduled : ScheduledLanes S → Option (List A × ScheduledLanes S)
    drain_scheduled s =
        Option.map (λ (out, lanes). (out, record { lanes = lanes; sched = unset }))
          (Priority.drain Q s.lanes)
