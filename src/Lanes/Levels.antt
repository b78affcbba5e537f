-- ===== src/Lanes/Levels.antt =====
-- Levels and priorities: src/internal/priorityMapping.ts, customQueueLevels.ts, and `clampLevel`
-- of both lane stores. Levels are whole numbers here, so `Math.floor` is the identity.
use effect_pm.Prelude.{
  ℕ, zero, suc, ◌-◌, ◌<◌, ◌≡◌, min, max, refl, Option, none, some, String, List, [], ◌∷◌, str_eq, ℤ,
  pos, pos_part, if◌then◌else◌, arith,
}

pub data Priority : Type 0 where
  high normal low : Priority

unfoldable pub default_priority_to_level : Priority → ℤ
default_priority_to_level high = pos 0
default_priority_to_level normal = pos 1
default_priority_to_level low = pos 2

-- Level 0 is high, level 2 is low, any other level is normal.
unfoldable pub level_to_default_priority : ℤ → Priority
level_to_default_priority (pos zero) = high
level_to_default_priority (pos (suc zero)) = normal
level_to_default_priority (pos (suc (suc zero))) = low
level_to_default_priority _ = normal

-- `Math.max(1, Math.floor(options.levelCount))`.
unfoldable pub level_count_of : ℕ → ℕ
level_count_of n = max 1 n

-- `Math.min(levelCount - 1, Math.max(0, Math.floor(level)))`.
unfoldable pub clamp_level : ℤ → ℕ → ℕ
clamp_level level level_count = min (level_count - 1) (pos_part level)

-- A level that a caller of a custom queue names: a number or a text.
pub data LevelInput : Type 0 where
  number : ℤ → LevelInput
  text : String → LevelInput

-- A property of the object `namedLevels`, own keys only.
abbrev pub lookup_name : String → List (String × ℤ) → Option ℤ
lookup_name k [] = none
lookup_name k ((j, v) ∷ rest) = if str_eq j k then some v else lookup_name k rest

abbrev pub or_level : ℤ → Option ℤ → ℤ
or_level d none = d
or_level d (some n) = n

-- `parse` is JavaScript's `Number` on a text, `none` for `NaN`.
unfoldable pub resolve_custom_queue_level :
    (String → Option ℤ) → ℕ → List (String × ℤ) → ℤ → Option LevelInput → ℕ
unfolding clamp_level level_count_of
resolve_custom_queue_level parse count named default none =
    clamp_level default (level_count_of count)
resolve_custom_queue_level parse count named default (some (number n)) =
    clamp_level n (level_count_of count)
resolve_custom_queue_level parse count named default (some (text name)) =
    elim (lookup_name name named) [
      | some n ↦ clamp_level n (level_count_of count)
      | none ↦ clamp_level (or_level default (parse name)) (level_count_of count)
    ]

pub clamp_level-lt : (level : ℤ) (count : ℕ) → 0 < count → clamp_level level count < count
unfolding clamp_level
clamp_level-lt level count h = omega arith

pub level_count_of-pos : (n : ℕ) → 0 < level_count_of n
unfolding level_count_of
level_count_of-pos n = omega arith

-- A level resolved from any input is a lane of the queue.
pub resolve_custom_queue_level-lt :
    (parse : String → Option ℤ) (count : ℕ) (named : List (String × ℤ)) (default : ℤ)
    (input : Option LevelInput)
    → resolve_custom_queue_level parse count named default input < level_count_of count
unfolding resolve_custom_queue_level
resolve_custom_queue_level-lt parse count named default none = omega arith
resolve_custom_queue_level-lt parse count named default (some (number n)) = omega arith
resolve_custom_queue_level-lt parse count named default (some (text name)) =
    elim (lookup_name name named)
      as (λ o.
        elim o [
          | some n ↦ clamp_level n (level_count_of count)
          | none ↦ clamp_level (or_level default (parse name)) (level_count_of count)
        ]
        < level_count_of count) [ some n ↦ omega arith | none ↦ omega arith ]

-- The default mapping of priorities to levels and back is a round trip.
pub level_to_default_priority-of_priority :
    (p : Priority) → level_to_default_priority (default_priority_to_level p) ≡ p
unfolding level_to_default_priority default_priority_to_level
level_to_default_priority-of_priority high = refl
level_to_default_priority-of_priority normal = refl
level_to_default_priority-of_priority low = refl
