-- ===== src/Lanes/Priority.antt =====
-- src/internal/levelLaneStorePriority.ts: N bounded lanes, taken from in order of their index.
pub mod Loops
pub mod Contract
use effect_pm.Prelude.{
  ℕ, zero, suc, ◌+◌, ◌-◌, Bool, true, false, ◌&&◌, List, [], ◌∷◌, ◌++◌, Option, none, some, ℤ, ltb,
  if◌then◌else◌, replicate,
}
use mathlib.Core.Option
use effect_pm.Lanes.Bounded.{BoundedQueue}
use effect_pm.Lanes.Levels.{clamp_level, level_count_of}

module _ {A : Type 0} (Q : BoundedQueue A) where
  open Q use {Queue, bounded, offer_all, poll as poll_queue, size}

  pub record Lanes : Type 0 where
    pub level_count : ℕ
    pub queues : List Queue

  unfoldable pub make : ℕ → ℕ → Lanes
  unfolding level_count_of
  make level_count capacity = record {
    level_count = level_count_of level_count;
    queues = replicate (level_count_of level_count) (bounded capacity);
  }

  -- `Queue.offer(queues[i]!, item)`; no lane stands outside the array.
  unfoldable pub offer_at : List Queue → ℕ → A → Option (List Queue)
  offer_at [] i a = none
  offer_at (q ∷ qs) zero a = Option.map (λ r. r ∷ qs) (Q.offer q a)
  offer_at (q ∷ qs) (suc i) a = Option.map (λ rs. q ∷ rs) (offer_at qs i a)

  unfoldable pub offer : Lanes → A → ℤ → Option Lanes
  unfolding offer_at clamp_level
  offer s item level =
      Option.map (λ qs. record s { queues = qs })
        (offer_at s.queues (clamp_level level s.level_count) item)

  -- `for (i = 0; i < levelCount; i++)`: the first lane that yields an item.
  unfoldable pub poll_lanes : List Queue → Option (A × List Queue)
  poll_lanes [] = none
  poll_lanes (q ∷ qs) = elim (poll_queue q) [
    | some (a, r) ↦ some (a, r ∷ qs)
    | none ↦ Option.map (λ (a, rs). (a, q ∷ rs)) (poll_lanes qs)
  ]

  unfoldable pub poll : Lanes → Option A × Lanes
  unfolding poll_lanes
  poll s = elim (poll_lanes s.queues) [
    | some (a, qs) ↦ (some a, record s { queues = qs })
    | none ↦ (none, s)
  ]

  unfoldable pub lanes_empty : List Queue → Bool
  lanes_empty [] = true
  lanes_empty (q ∷ qs) = if ltb 0 (size q) then false else lanes_empty qs

  unfoldable pub is_empty : Lanes → Bool
  unfolding lanes_empty
  is_empty s = lanes_empty s.queues

  unfoldable pub sizes_of : List Queue → List ℕ
  sizes_of [] = []
  sizes_of (q ∷ qs) = size q ∷ sizes_of qs

  unfoldable pub sizes : Lanes → List ℕ
  unfolding sizes_of
  sizes s = sizes_of s.queues

  -- The `while` loop of `drainLane`, with the items that `onItem` took and those that it kept.
  -- `none` is a loop that outruns its fuel.
  unfoldable pub drain_loop :
      ℕ → Queue → (A → Bool) → List A → List A → Option (List A × List A × Queue)
  drain_loop zero q on_item out kept = none
  drain_loop (suc fuel) q on_item out kept = elim (poll_queue q) [
    | none ↦ some (out, kept, q)
    | some (a, r) ↦ elim (on_item a) [
      | true ↦ drain_loop fuel r on_item (out ++ a ∷ []) kept
      | false ↦ drain_loop fuel r on_item out (kept ++ a ∷ [])
    ]
  ]

  -- `if (kept.length > 0) yield* Queue.offerAll(q, kept)`.
  unfoldable pub put_back : Queue → List A → Option Queue
  put_back q [] = some q
  put_back q (a ∷ kept) = offer_all q (a ∷ kept)

  unfoldable pub drain_lane : Queue → (A → Bool) → List A → Option (List A × Queue)
  unfolding drain_loop put_back
  drain_lane q on_item out = elim (drain_loop (size q + 1) q on_item out []) [
    | none ↦ none
    | some (out', kept, r) ↦ Option.map (λ t. (out', t)) (put_back r kept)
  ]

  unfoldable pub drain_lanes : List Queue → (A → Bool) → List A → Option (List A × List Queue)
  unfolding drain_lane
  drain_lanes [] on_item out = some (out, [])
  drain_lanes (q ∷ qs) on_item out = elim (drain_lane q on_item out) [
    | none ↦ none
    | some (out', r) ↦ Option.map (λ (o, rs). (o, r ∷ rs)) (drain_lanes qs on_item out')
  ]

  unfoldable pub extract_matching : Lanes → (A → Bool) → Option (List A × Lanes)
  unfolding drain_lanes
  extract_matching s predicate =
      Option.map (λ (out, qs). (out, record s { queues = qs })) (drain_lanes s.queues predicate [])

  unfoldable pub drain : Lanes → Option (List A × Lanes)
  unfolding extract_matching
  drain s = extract_matching s (λ a. true)
