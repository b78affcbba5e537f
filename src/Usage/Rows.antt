-- ===== src/Usage/Rows.antt =====
-- Sums over the rows of the endpoints of src/internal/apiUsageRegistry.ts.
use effect_pm.Prelude.{
  ℕ, ◌+◌, ◌≡◌, refl, Option, none, some, List, [], ◌∷◌, String, str_eq, map, arith, Bool-cases, inl,
  inr,
}
use effect_pm.Prelude.Dict.{Dict, get, set}
use effect_pm.Usage.{
  EndpointUsageEvent, EndpointWindowStats, EndpointMetrics, count_event, next_stats, error_count,
  endpoint_key, endpoint_metrics,
}

-- A number of every row of a map, added up.
abbrev pub sum_rows : (EndpointWindowStats → ℕ) → Dict EndpointWindowStats → ℕ
sum_rows f [] = 0
sum_rows f ((k, row) ∷ rows) = f row + sum_rows f rows

abbrev pub counted : (EndpointWindowStats → ℕ) → Option EndpointWindowStats → ℕ
counted f none = 0
counted f (some row) = f row

sum_rows-set :
    (f : EndpointWindowStats → ℕ) (key : String) (row : EndpointWindowStats)
    (rows : Dict EndpointWindowStats)
    → sum_rows f (set key row rows) + counted f (get key rows) ≡ sum_rows f rows + f row
sum_rows-set f key row [] = omega arith
sum_rows-set f key row ((k, old) ∷ rows) = elim (Bool-cases (str_eq k key)) [
  | inl e ↦ rw e (omega arith)
  | inr e ↦ rw e (omega (arith, sum_rows-set f key row rows))
]

pub next_stats-requests :
    (o : Option EndpointWindowStats) (event : EndpointUsageEvent)
    → (next_stats o event).requests ≡ counted (λ r. r.requests) o + 1
next_stats-requests none event = refl
next_stats-requests (some row) event = refl

pub next_stats-errors :
    (o : Option EndpointWindowStats) (event : EndpointUsageEvent)
    → (next_stats o event).errors ≡ counted (λ r. r.errors) o + error_count event.outcome
next_stats-errors none event = refl
next_stats-errors (some row) event = refl

pub sum_rows-requests :
    (event : EndpointUsageEvent) (rows : Dict EndpointWindowStats)
    → sum_rows (λ r. r.requests) (count_event event rows) ≡ sum_rows (λ r. r.requests) rows + 1
sum_rows-requests event rows =
    let key = endpoint_key event.group event.endpoint in
    omega (
      arith,
      sum_rows-set (λ r. r.requests) key (next_stats (get key rows) event) rows,
      next_stats-requests (get key rows) event,
    )

pub sum_rows-errors :
    (event : EndpointUsageEvent) (rows : Dict EndpointWindowStats)
    → sum_rows (λ r. r.errors) (count_event event rows)
      ≡ sum_rows (λ r. r.errors) rows + error_count event.outcome
sum_rows-errors event rows =
    let key = endpoint_key event.group event.endpoint in
    omega (
      arith,
      sum_rows-set (λ r. r.errors) key (next_stats (get key rows) event) rows,
      next_stats-errors (get key rows) event,
    )

abbrev pub metrics_requests : List EndpointMetrics → ℕ
metrics_requests [] = 0
metrics_requests (m ∷ ms) = m.requests + metrics_requests ms

abbrev pub metrics_errors : List EndpointMetrics → ℕ
metrics_errors [] = 0
metrics_errors (m ∷ ms) = m.errors + metrics_errors ms

pub metrics-rows :
    (rows : Dict EndpointWindowStats)
    → (metrics_requests (map endpoint_metrics rows) ≡ sum_rows (λ r. r.requests) rows)
      × (metrics_errors (map endpoint_metrics rows) ≡ sum_rows (λ r. r.errors) rows)
metrics-rows [] = (refl, refl)
metrics-rows ((k, row) ∷ rows) =
    let rest = metrics-rows rows in (omega (arith, rest.0), omega (arith, rest.1))
