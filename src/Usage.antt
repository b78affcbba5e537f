-- ===== src/Usage.antt =====
-- src/internal/apiUsageRegistry.ts: what each API client has used. Durations are natural numbers of
-- milliseconds; a mean or a rate is the pair of what is divided and what it is divided by. What the
-- hub has published is a list with the newest first.
pub mod Steps
pub mod Rows
pub mod Totals
pub mod Endpoints
pub mod Top
pub mod Windows
use Prim.Native.String.{◌++◌ as join}
use effect_pm.Prelude.{
  ℕ, ◌+◌, ◌*◌, ◌-◌, Bool, Option, none, some, List, [], ◌∷◌, String, ltb, leb, sort, take, map, ℤ,
  sub_ℕ, if◌then◌else◌,
}
use effect_pm.Prelude.Dict.{Dict, get, set}

pub data Outcome : Type 0 where
  success failure : Outcome

pub record EndpointUsageEvent : Type 0 where
  pub group : String
  pub endpoint : String
  pub outcome : Outcome
  pub duration_ms : ℕ

pub record EndpointWindowStats : Type 0 where
  pub group : String
  pub endpoint : String
  pub requests : ℕ
  pub errors : ℕ
  pub duration_sum_ms : ℕ

pub record WindowAccum : Type 0 where
  pub started_at : ℕ
  pub requests : ℕ
  pub errors : ℕ
  pub by_endpoint : Dict EndpointWindowStats

pub record Quotient : Type 0 where
  pub dividend : ℕ
  pub divisor : ℕ

pub record EndpointMetrics : Type 0 where
  pub group : String
  pub endpoint : String
  pub requests : ℕ
  pub errors : ℕ
  pub avg_duration_ms : Option Quotient

pub record ApiUsageMetrics : Type 0 where
  pub window_start : ℕ
  pub window_end : ℕ
  pub window_millis : ℤ
  pub requests : ℕ
  pub errors : ℕ
  pub in_flight : ℕ
  pub throughput_per_sec : Quotient
  pub by_endpoint : List EndpointMetrics

pub record TopEndpoint : Type 0 where
  pub group : String
  pub endpoint : String
  pub requests : ℕ
  pub errors : ℕ

pub record ApiUsageSnapshot : Type 0 where
  pub client_id : String
  pub in_flight : ℕ
  pub requests_total : ℕ
  pub errors_total : ℕ
  pub top_endpoints : List TopEndpoint

pub record UsageSink : Type 0 where
  pub client_id : String
  pub window_accum : WindowAccum
  pub requests_total : ℕ
  pub errors_total : ℕ
  pub in_flight : ℕ
  pub cumulative_by_endpoint : Dict EndpointWindowStats
  pub published : List ApiUsageMetrics

abbrev pub endpoint_key : String → String → String
endpoint_key group endpoint = join group (join "\0" endpoint)

abbrev pub fresh_accum : ℕ → WindowAccum
fresh_accum started_at = record {
  started_at = started_at;
  requests = 0;
  errors = 0;
  by_endpoint = [];
}

-- `event.outcome === "error" ? 1 : 0`.
abbrev pub error_count : Outcome → ℕ
error_count success = 0
error_count failure = 1

abbrev pub next_stats : Option EndpointWindowStats → EndpointUsageEvent → EndpointWindowStats
next_stats none event = record {
  group = event.group;
  endpoint = event.endpoint;
  requests = 0 + 1;
  errors = 0 + error_count event.outcome;
  duration_sum_ms = 0 + event.duration_ms;
}
next_stats (some prev) event = record {
  group = event.group;
  endpoint = event.endpoint;
  requests = prev.requests + 1;
  errors = prev.errors + error_count event.outcome;
  duration_sum_ms = prev.duration_sum_ms + event.duration_ms;
}

-- The endpoint's row of a map, after one more event.
abbrev pub count_event : EndpointUsageEvent → Dict EndpointWindowStats → Dict EndpointWindowStats
count_event event rows =
    let key = endpoint_key event.group event.endpoint in
    set key (next_stats (get key rows) event) rows

unfoldable pub merge_event : WindowAccum → EndpointUsageEvent → WindowAccum
merge_event acc event = record {
  started_at = acc.started_at;
  requests = acc.requests + 1;
  errors = acc.errors + error_count event.outcome;
  by_endpoint = count_event event acc.by_endpoint;
}

abbrev pub endpoint_metrics : String × EndpointWindowStats → EndpointMetrics
endpoint_metrics (key, row) = record {
  group = row.group;
  endpoint = row.endpoint;
  requests = row.requests;
  errors = row.errors;
  avg_duration_ms =
      if ltb 0 row.requests
      then some (record { dividend = row.duration_sum_ms; divisor = row.requests })
      else none;
}

abbrev pub window_metrics : ℕ → ℕ → WindowAccum → ApiUsageMetrics
window_metrics now in_flight acc = record {
  window_start = acc.started_at;
  window_end = now;
  window_millis = sub_ℕ now acc.started_at;
  requests = acc.requests;
  errors = acc.errors;
  in_flight = in_flight;
  throughput_per_sec =
      if ltb acc.started_at now
      then record { dividend = acc.requests * 1000; divisor = now - acc.started_at }
      else record { dividend = 0; divisor = 1 };
  by_endpoint = map endpoint_metrics acc.by_endpoint;
}

unfoldable pub emit_window : ℕ → UsageSink → UsageSink
emit_window now s = record s {
  window_accum = fresh_accum now;
  published = window_metrics now s.in_flight s.window_accum ∷ s.published;
}

abbrev pub make_usage_sink : ℕ → String → UsageSink
make_usage_sink now client_id = record {
  client_id = client_id;
  window_accum = fresh_accum now;
  requests_total = 0;
  errors_total = 0;
  in_flight = 0;
  cumulative_by_endpoint = [];
  published = [];
}

abbrev pub enter : UsageSink → UsageSink
enter s = record s { in_flight = s.in_flight + 1 }

-- `Math.max(0, n - 1)`.
abbrev pub exit : UsageSink → UsageSink
exit s = record s { in_flight = s.in_flight - 1 }

unfoldable pub record_event : ℕ → EndpointUsageEvent → UsageSink → UsageSink
record_event now event s = emit_window now (record s {
  requests_total = s.requests_total + 1;
  errors_total = s.errors_total + error_count event.outcome;
  window_accum = merge_event s.window_accum event;
  cumulative_by_endpoint = count_event event s.cumulative_by_endpoint;
})

abbrev pub top_endpoint : String × EndpointWindowStats → TopEndpoint
top_endpoint (key, row) = record {
  group = row.group;
  endpoint = row.endpoint;
  requests = row.requests;
  errors = row.errors;
}

-- `(a, b) => b.requests - a.requests`.
abbrev pub more_requests : TopEndpoint → TopEndpoint → Bool
more_requests a b = leb b.requests a.requests

unfoldable pub snapshot : UsageSink → ApiUsageSnapshot
snapshot s = record {
  client_id = s.client_id;
  in_flight = s.in_flight;
  requests_total = s.requests_total;
  errors_total = s.errors_total;
  top_endpoints = take 10 (sort more_requests (map top_endpoint s.cumulative_by_endpoint));
}

-- The sinks by client.
abbrev pub Registry : Type 0
Registry = Dict UsageSink

unfoldable pub ensure_client_usage : ℕ → String → Registry → UsageSink × Registry
ensure_client_usage now client_id sinks = elim (get client_id sinks) [
  | none ↦ let sink = make_usage_sink now client_id in (sink, set client_id sink sinks)
  | some existing ↦ (existing, sinks)
]

abbrev pub update_sink : (UsageSink → UsageSink) → String → Registry → Registry
update_sink f client_id sinks = elim (get client_id sinks) [
  | none ↦ sinks
  | some sink ↦ set client_id (f sink) sinks
]

unfoldable pub usage_enter : String → Registry → Registry
usage_enter client_id sinks = update_sink enter client_id sinks

unfoldable pub usage_exit : String → Registry → Registry
usage_exit client_id sinks = update_sink exit client_id sinks

unfoldable pub record_endpoint_usage : ℕ → String → EndpointUsageEvent → Registry → Registry
record_endpoint_usage now client_id event sinks =
    update_sink (record_event now event) client_id sinks

abbrev pub get_client_usage : String → Registry → Option UsageSink
get_client_usage client_id sinks = get client_id sinks
