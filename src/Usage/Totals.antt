-- ===== src/Usage/Totals.antt =====
-- What the counters of a sink of src/internal/apiUsageRegistry.ts add up to.
use effect_pm.Prelude.{
  ℕ, ◌+◌, ◌-◌, ◌≡◌, refl, ◌∙◌, true, false, List, [], ◌∷◌, String, length, All, tally, arith,
  if◌then◌else◌,
}
use effect_pm.Usage.{
  UsageSink, EndpointUsageEvent, ApiUsageMetrics, Outcome, success, failure, enter, exit,
  record_event, emit_window, merge_event, make_usage_sink, count_event, error_count,
}
use effect_pm.Usage.Steps.{
  UsageStep, entering, exiting, recording, ticking, run, step, events, has_failed,
}
use effect_pm.Usage.Rows.{
  sum_rows, sum_rows-requests, sum_rows-errors, metrics_requests, metrics_errors, metrics-rows,
}

abbrev pub published_requests : List ApiUsageMetrics → ℕ
published_requests [] = 0
published_requests (m ∷ ms) = m.requests + published_requests ms

abbrev pub published_errors : List ApiUsageMetrics → ℕ
published_errors [] = 0
published_errors (m ∷ ms) = m.errors + published_errors ms

-- The endpoints of a published window add up to the window.
abbrev pub AddsUp : ApiUsageMetrics → Type 0
AddsUp m = (metrics_requests m.by_endpoint ≡ m.requests) × (metrics_errors m.by_endpoint ≡ m.errors)

-- The published windows and the open one add up to the totals, and so do the rows of the endpoints;
-- in each window too.
pub record IsBalanced (s : UsageSink) : Type 0 where
  pub windows_requests : published_requests s.published + s.window_accum.requests ≡ s.requests_total
  pub windows_errors : published_errors s.published + s.window_accum.errors ≡ s.errors_total
  pub window_requests :
      sum_rows (λ r. r.requests) s.window_accum.by_endpoint ≡ s.window_accum.requests
  pub window_errors : sum_rows (λ r. r.errors) s.window_accum.by_endpoint ≡ s.window_accum.errors
  pub cumulative_requests : sum_rows (λ r. r.requests) s.cumulative_by_endpoint ≡ s.requests_total
  pub cumulative_errors : sum_rows (λ r. r.errors) s.cumulative_by_endpoint ≡ s.errors_total
  pub published_rows : All AddsUp s.published

emit_window-IsBalanced : (now : ℕ) (s : UsageSink) → IsBalanced s → IsBalanced (emit_window now s)
unfolding emit_window
emit_window-IsBalanced now s b = record {
  windows_requests = omega (arith, b.windows_requests);
  windows_errors = omega (arith, b.windows_errors);
  window_requests = refl;
  window_errors = refl;
  cumulative_requests = b.cumulative_requests;
  cumulative_errors = b.cumulative_errors;
  published_rows =
      (let rows = metrics-rows s.window_accum.by_endpoint in
        ((rows.0 ∙ b.window_requests, rows.1 ∙ b.window_errors), b.published_rows));
}

abbrev recorded : EndpointUsageEvent → UsageSink → UsageSink
recorded event s = record s {
  requests_total = s.requests_total + 1;
  errors_total = s.errors_total + error_count event.outcome;
  window_accum = merge_event s.window_accum event;
  cumulative_by_endpoint = count_event event s.cumulative_by_endpoint;
}

recorded-IsBalanced :
    (event : EndpointUsageEvent) (s : UsageSink) → IsBalanced s → IsBalanced (recorded event s)
unfolding merge_event
recorded-IsBalanced event s b = record {
  windows_requests = omega (arith, b.windows_requests);
  windows_errors = omega (arith, b.windows_errors);
  window_requests =
      omega (arith, sum_rows-requests event s.window_accum.by_endpoint, b.window_requests);
  window_errors = omega (arith, sum_rows-errors event s.window_accum.by_endpoint, b.window_errors);
  cumulative_requests =
      omega (arith, sum_rows-requests event s.cumulative_by_endpoint, b.cumulative_requests);
  cumulative_errors =
      omega (arith, sum_rows-errors event s.cumulative_by_endpoint, b.cumulative_errors);
  published_rows = b.published_rows;
}

in_flight-IsBalanced :
    (n : ℕ) (s : UsageSink) → IsBalanced s → IsBalanced (record s { in_flight = n })
in_flight-IsBalanced n s b = record {
  windows_requests = b.windows_requests;
  windows_errors = b.windows_errors;
  window_requests = b.window_requests;
  window_errors = b.window_errors;
  cumulative_requests = b.cumulative_requests;
  cumulative_errors = b.cumulative_errors;
  published_rows = b.published_rows;
}

step-IsBalanced : (x : UsageStep) (s : UsageSink) → IsBalanced s → IsBalanced (step x s)
unfolding record_event
step-IsBalanced entering s b = in_flight-IsBalanced (s.in_flight + 1) s b
step-IsBalanced exiting s b = in_flight-IsBalanced (s.in_flight - 1) s b
step-IsBalanced (recording now event) s b =
    emit_window-IsBalanced now (recorded event s) (recorded-IsBalanced event s b)
step-IsBalanced (ticking now) s b = emit_window-IsBalanced now s b

run-IsBalanced : (xs : List UsageStep) (s : UsageSink) → IsBalanced s → IsBalanced (run xs s)
run-IsBalanced [] s b = b
run-IsBalanced (x ∷ xs) s b = run-IsBalanced xs (step x s) (step-IsBalanced x s b)

run-requests_total :
    (xs : List UsageStep) (s : UsageSink)
    → (run xs s).requests_total ≡ s.requests_total + length (events xs)
unfolding record_event emit_window
run-requests_total [] s = omega arith
run-requests_total (entering ∷ xs) s = run-requests_total xs (enter s)
run-requests_total (exiting ∷ xs) s = run-requests_total xs (exit s)
run-requests_total (recording now event ∷ xs) s =
    omega (arith, run-requests_total xs (record_event now event s))
run-requests_total (ticking now ∷ xs) s = run-requests_total xs (emit_window now s)

error_count-has_failed :
    (o : Outcome) → error_count o ≡ (if (elim o [ success ↦ false | failure ↦ true ]) then 1 else 0)
error_count-has_failed success = refl
error_count-has_failed failure = refl

run-errors_total :
    (xs : List UsageStep) (s : UsageSink)
    → (run xs s).errors_total ≡ s.errors_total + tally has_failed (events xs)
unfolding record_event emit_window
run-errors_total [] s = omega arith
run-errors_total (entering ∷ xs) s = run-errors_total xs (enter s)
run-errors_total (exiting ∷ xs) s = run-errors_total xs (exit s)
run-errors_total (recording now event ∷ xs) s =
    omega
      (arith, run-errors_total xs (record_event now event s), error_count-has_failed event.outcome)
run-errors_total (ticking now ∷ xs) s = run-errors_total xs (emit_window now s)

-- After any run of a new sink the totals are the number of events recorded and of those that failed,
-- and the published windows together with the open one, and the rows of the endpoints, add up to
-- them. In the open window and in every published one the rows of the endpoints add up to the window.
pub run_totals :
    (now : ℕ) (client_id : String) (xs : List UsageStep)
    → IsBalanced (run xs (make_usage_sink now client_id))
      × ((run xs (make_usage_sink now client_id)).requests_total ≡ length (events xs))
      × ((run xs (make_usage_sink now client_id)).errors_total ≡ tally has_failed (events xs))
run_totals now client_id xs =
    let s = make_usage_sink now client_id in
    let fresh : IsBalanced s = record {
      windows_requests = refl;
      windows_errors = refl;
      window_requests = refl;
      window_errors = refl;
      cumulative_requests = refl;
      cumulative_errors = refl;
      published_rows = tt;
    } in
    (
      run-IsBalanced xs s fresh,
      omega (arith, run-requests_total xs s),
      omega (arith, run-errors_total xs s),
    )
