-- ===== src/Usage/Endpoints.antt =====
-- What the snapshot of src/internal/apiUsageRegistry.ts knows of each endpoint.
use effect_pm.Prelude.{
  ℕ, ◌+◌, ◌≡◌, refl, sym, ap, ◌∙◌, Option, none, some, List, [], ◌∷◌, String, str_eq, str_eq_iff,
  arith, Bool-cases, inl, inr, if◌then◌else◌,
}
use effect_pm.Prelude.Dict.{Dict, get, set, get-set, get-set_other}
use effect_pm.Usage.{
  UsageSink, EndpointUsageEvent, EndpointWindowStats, enter, exit, record_event, emit_window,
  make_usage_sink, count_event, next_stats, error_count, endpoint_key,
}
use effect_pm.Usage.Steps.{UsageStep, entering, exiting, recording, ticking, run, events}
use effect_pm.Usage.Rows.{counted, next_stats-requests, next_stats-errors}

-- A number that each event adds to the row of its endpoint.
record Counter : Type 0 where
  field_of : EndpointWindowStats → ℕ
  adds : EndpointUsageEvent → ℕ
  counts :
      (o : Option EndpointWindowStats) (event : EndpointUsageEvent)
      → field_of (next_stats o event) ≡ counted field_of o + adds event

-- The events of a key, each with its weight.
abbrev pub weight_of : String → (EndpointUsageEvent → ℕ) → List EndpointUsageEvent → ℕ
weight_of key adds [] = 0
weight_of key adds (event ∷ rest) =
    (if str_eq (endpoint_key event.group event.endpoint) key then adds event else 0)
    + weight_of key adds rest

module _ (c : Counter) (key : String) where
  counted-count_event :
      (event : EndpointUsageEvent) (rows : Dict EndpointWindowStats)
      → counted c.field_of (get key (count_event event rows))
        ≡ counted c.field_of (get key rows)
          + (if str_eq (endpoint_key event.group event.endpoint) key then c.adds event else 0)
  counted-count_event event rows =
      let own = endpoint_key event.group event.endpoint in
      let row = next_stats (get own rows) event in
      elim (Bool-cases (str_eq own key)) [
        | inl e ↦
            let same : own ≡ key = (str_eq_iff own key).0 e in
            ap (λ k. counted c.field_of (get k (set own row rows))) (sym same)
            ∙ ap (counted c.field_of) (get-set own row rows)
            ∙ c.counts (get own rows) event
            ∙ ap (λ k. counted c.field_of (get k rows) + c.adds event) same
            ∙ rw e refl
        | inr e ↦
            let distinct : ¬ (key ≡ own) = λ q. ground (arith, e, (str_eq_iff own key).1 (sym q)) in
            ap (counted c.field_of) (get-set_other key own row rows distinct) ∙ rw e (omega arith)
      ]

  abbrev count_in : UsageSink → ℕ
  count_in s = counted c.field_of (get key s.cumulative_by_endpoint)

  run-count_in :
      (xs : List UsageStep) (s : UsageSink)
      → count_in (run xs s) ≡ count_in s + weight_of key c.adds (events xs)
  unfolding record_event emit_window
  run-count_in [] s = omega arith
  run-count_in (entering ∷ xs) s = run-count_in xs (enter s)
  run-count_in (exiting ∷ xs) s = run-count_in xs (exit s)
  run-count_in (recording now event ∷ xs) s = omega (
    arith,
    run-count_in xs (record_event now event s),
    counted-count_event event s.cumulative_by_endpoint,
  )
  run-count_in (ticking now ∷ xs) s = run-count_in xs (emit_window now s)

next_stats-duration :
    (o : Option EndpointWindowStats) (event : EndpointUsageEvent)
    → (next_stats o event).duration_sum_ms ≡ counted (λ r. r.duration_sum_ms) o + event.duration_ms
next_stats-duration none event = refl
next_stats-duration (some row) event = refl

abbrev requests_counter : Counter
requests_counter = record {
  field_of = λ r. r.requests;
  adds = λ event. 1;
  counts = next_stats-requests;
}

abbrev errors_counter : Counter
errors_counter = record {
  field_of = λ r. r.errors;
  adds = λ event. error_count event.outcome;
  counts = next_stats-errors;
}

abbrev duration_counter : Counter
duration_counter = record {
  field_of = λ r. r.duration_sum_ms;
  adds = λ event. event.duration_ms;
  counts = next_stats-duration;
}

-- After any run of a new sink the row of a key counts the events recorded for that key and those of
-- them that failed, and sums their durations; a key without a row has none.
pub endpoint_counts :
    (now : ℕ) (client_id key : String) (xs : List UsageStep)
    → (counted
          (λ r. r.requests)
          (get key (run xs (make_usage_sink now client_id)).cumulative_by_endpoint)
        ≡ weight_of key (λ event. 1) (events xs))
      × (counted
            (λ r. r.errors)
            (get key (run xs (make_usage_sink now client_id)).cumulative_by_endpoint)
          ≡ weight_of key (λ event. error_count event.outcome) (events xs))
      × (counted
            (λ r. r.duration_sum_ms)
            (get key (run xs (make_usage_sink now client_id)).cumulative_by_endpoint)
          ≡ weight_of key (λ event. event.duration_ms) (events xs))
endpoint_counts now client_id key xs =
    let s = make_usage_sink now client_id in
    (
      omega (arith, run-count_in requests_counter key xs s),
      omega (arith, run-count_in errors_counter key xs s),
      omega (arith, run-count_in duration_counter key xs s),
    )
