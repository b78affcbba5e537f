-- ===== src/Tests/Schedule.antt =====
-- The schedule service at three entries.
use effect_pm.Prelude.{◌≡◌, refl, none, some, [], ◌∷◌, IsSorted}
use effect_pm.Schedule.{ProcessScheduleEntry, Schedule, entry_le, build_in_memory_service, upsert}
use effect_pm.Schedule.Order.{built, upserted, Reachable-IsSorted}

abbrev morning : ProcessScheduleEntry
morning = record { id = some "m"; start_at = 8; stop_at = some 12 }

abbrev all_day : ProcessScheduleEntry
all_day = record { id = some "d"; start_at = 8; stop_at = none }

abbrev evening : ProcessScheduleEntry
evening = record { id = some "m"; start_at = 18; stop_at = none }

abbrev day : Schedule
day = build_in_memory_service (all_day ∷ morning ∷ [])

day_sorted : day.entries ≡ morning ∷ all_day ∷ []
day_sorted = refl

Reachable-IsSorted_example : IsSorted entry_le (upsert evening day).1.entries
Reachable-IsSorted_example =
    Reachable-IsSorted (upsert evening day).1
      (upserted evening day (built (all_day ∷ morning ∷ [])))
