-- ===== src/Polling/IdleSleep.antt =====
-- src/disarmedIdleSleep.ts: the sleep before the schedule's status is read again. Durations are
-- milliseconds; a configured one may be negative, an instant may precede the epoch.
use effect_pm.Prelude.{
  ℕ, ◌+◌, ◌≤◌, max, min, Option, none, some, ℤ, pos, pos_part, neg_part, sub_ℕ, if◌then◌else◌, leb,
  arith,
}

abbrev pub default_poll : ℕ
default_poll = 5000

abbrev pub min_poll : ℕ
min_poll = 100

abbrev pub hint_min : ℕ
hint_min = 1000

abbrev pub hint_max : ℕ
hint_max = 300000

-- `configured ?? DEFAULT_SCHEDULE_POLL_WHILE_DISARMED`.
abbrev pub or_default : Option ℤ → ℤ
or_default none = pos default_poll
or_default (some d) = d

-- `Duration.max(..., MIN_SCHEDULE_POLL_WHILE_DISARMED)`.
unfoldable pub resolve_fallback : Option ℤ → ℕ
resolve_fallback configured = max (pos_part (or_default configured)) min_poll

-- `next.getTime() - now.getTime()`.
abbrev pub difference : ℤ → ℤ → ℤ
difference next now = sub_ℕ (pos_part next + neg_part now) (neg_part next + pos_part now)

abbrev pub clamp : ℕ → ℕ
clamp d = min hint_max (max hint_min d)

unfoldable pub compute : ℤ → Option ℤ → ℕ → ℕ
compute now none fallback = fallback
compute now (some next) fallback =
    let diff = difference next now in
    if leb (pos_part diff) 0 then hint_min else clamp (pos_part diff)

-- Without a hint the sleep is at least a tenth of a second, whatever is configured. With one it is at
-- least a second and at most five minutes, and does not pass a transition that is a second ahead or
-- more.
pub compute_bounds :
    (now next : ℤ) (configured : Option ℤ)
    → (min_poll ≤ compute now none (resolve_fallback configured))
      × (hint_min ≤ compute now (some next) (resolve_fallback configured))
      × (compute now (some next) (resolve_fallback configured) ≤ hint_max)
      × (compute now (some next) (resolve_fallback configured)
          ≤ max hint_min (pos_part (difference next now)))
unfolding compute resolve_fallback
compute_bounds now next configured = (omega arith, ground arith, ground arith, ground arith)
