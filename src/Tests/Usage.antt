-- ===== src/Tests/Usage.antt =====
-- A run of src/internal/apiUsageRegistry.ts.
use effect_pm.Prelude.{◌≤◌, ◌≡◌, refl, List, [], ◌∷◌, All, length, tally}
use effect_pm.Prelude.Dict.{get}
use effect_pm.Usage.{
  UsageSink, EndpointUsageEvent, success, failure, make_usage_sink, endpoint_key, error_count,
  record_event, emit_window, merge_event, snapshot, ensure_client_usage, record_endpoint_usage,
  usage_enter,
}
use effect_pm.Usage.Steps.{
  UsageStep, entering, exiting, recording, ticking, run, events, has_failed,
}
use effect_pm.Usage.Totals.{IsBalanced, run_totals}
use effect_pm.Usage.Rows.{counted}
use effect_pm.Usage.Endpoints.{weight_of, endpoint_counts}
use effect_pm.Usage.Windows.{windows_hold_one}

abbrev got : EndpointUsageEvent
got = record { group = "jobs"; endpoint = "get"; outcome = success; duration_ms = 12 }

abbrev lost : EndpointUsageEvent
lost = record { group = "jobs"; endpoint = "put"; outcome = failure; duration_ms = 40 }

abbrev calls : List UsageStep
calls =
    entering ∷ recording 5 got ∷ exiting ∷ recording 6 lost ∷ recording 9 got ∷ ticking 5000 ∷ []

abbrev used : UsageSink
used = run calls (make_usage_sink 0 "api")

top-used :
    (snapshot used).top_endpoints
    ≡ record { group = "jobs"; endpoint = "get"; requests = 2; errors = 0 }
      ∷ record { group = "jobs"; endpoint = "put"; requests = 1; errors = 1 }
      ∷ []
unfolding snapshot record_event emit_window merge_event
top-used = refl

-- A call of a client without a sink leaves no trace, and the first sink of a client stays.
usage-ensured :
    (ensure_client_usage 9 "api" (
      record_endpoint_usage 1 "other" got
        (usage_enter "api" (ensure_client_usage 0 "api" []).1))).0.in_flight
    ≡ 1
unfolding ensure_client_usage record_endpoint_usage usage_enter
usage-ensured = refl

run_totals_example :
    IsBalanced used
    × (used.requests_total ≡ length (events calls))
    × (used.errors_total ≡ tally has_failed (events calls))
run_totals_example = run_totals 0 "api" calls

endpoint_counts_example :
    (counted (λ r. r.requests) (get (endpoint_key "jobs" "get") used.cumulative_by_endpoint)
      ≡ weight_of (endpoint_key "jobs" "get") (λ event. 1) (events calls))
    × (counted (λ r. r.errors) (get (endpoint_key "jobs" "get") used.cumulative_by_endpoint)
        ≡ weight_of (endpoint_key "jobs" "get") (λ event. error_count event.outcome) (events calls))
    × (counted
          (λ r. r.duration_sum_ms)
          (get (endpoint_key "jobs" "get") used.cumulative_by_endpoint)
        ≡ weight_of (endpoint_key "jobs" "get") (λ event. event.duration_ms) (events calls))
endpoint_counts_example = endpoint_counts 0 "api" (endpoint_key "jobs" "get") calls

windows_hold_one_example :
    (used.window_accum.requests ≡ 0) × All (λ m. m.requests ≤ 1) used.published
windows_hold_one_example = windows_hold_one 0 "api" calls
