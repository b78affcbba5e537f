-- ===== src/Usage/Windows.antt =====
-- How much the windows that src/internal/apiUsageRegistry.ts publishes hold.
use effect_pm.Prelude.{ℕ, ◌≤◌, ◌≡◌, refl, List, [], ◌∷◌, String, All, arith}
use effect_pm.Usage.{UsageSink, record_event, emit_window, merge_event, make_usage_sink}
use effect_pm.Usage.Steps.{UsageStep, entering, exiting, recording, ticking, run, step}

IsClosed : UsageSink → Type 0
IsClosed s = (s.window_accum.requests ≡ 0) × All (λ m. m.requests ≤ 1) s.published

step-IsClosed : (x : UsageStep) (s : UsageSink) → IsClosed s → IsClosed (step x s)
unfolding IsClosed record_event emit_window merge_event
step-IsClosed entering s h = h
step-IsClosed exiting s h = h
step-IsClosed (recording now event) s h = (refl, (omega (arith, h.0), h.1))
step-IsClosed (ticking now) s h = (refl, (omega (arith, h.0), h.1))

run-IsClosed : (xs : List UsageStep) (s : UsageSink) → IsClosed s → IsClosed (run xs s)
run-IsClosed [] s h = h
run-IsClosed (x ∷ xs) s h = run-IsClosed xs (step x s) (step-IsClosed x s h)

-- Whatever the calls and ticks of a new sink, no published window holds more than one request, since
-- each record closes the window it has been counted in.
pub windows_hold_one :
    (now : ℕ) (client_id : String) (xs : List UsageStep)
    → ((run xs (make_usage_sink now client_id)).window_accum.requests ≡ 0)
      × All (λ m. m.requests ≤ 1) (run xs (make_usage_sink now client_id)).published
unfolding IsClosed
windows_hold_one now client_id xs = run-IsClosed xs (make_usage_sink now client_id) (refl, tt)
