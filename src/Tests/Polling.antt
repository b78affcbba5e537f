-- ===== src/Tests/Polling.antt =====
-- A run of src/disarmedIdleSleep.ts.
use effect_pm.Prelude.{◌≤◌, ◌≡◌, refl, max, Option, none, some, ℤ, pos, negsuc, pos_part}
use effect_pm.Polling.IdleSleep.{
  compute, resolve_fallback, difference, hint_min, hint_max, min_poll, compute_bounds,
}

-- A transition ten minutes ahead, and a configured poll of -1 ms.
compute-far : compute (pos 1000) (some (pos 601000)) (resolve_fallback (some (negsuc 0))) ≡ 300000
unfolding compute resolve_fallback
compute-far = refl

abbrev minus_one : Option ℤ
minus_one = some (negsuc 0)

compute_bounds_example :
    (min_poll ≤ compute (pos 1000) none (resolve_fallback minus_one))
    × (hint_min ≤ compute (pos 1000) (some (pos 601000)) (resolve_fallback minus_one))
    × (compute (pos 1000) (some (pos 601000)) (resolve_fallback minus_one) ≤ hint_max)
    × (compute (pos 1000) (some (pos 601000)) (resolve_fallback minus_one)
        ≤ max hint_min (pos_part (difference (pos 601000) (pos 1000))))
compute_bounds_example = compute_bounds (pos 1000) (pos 601000) minus_one
