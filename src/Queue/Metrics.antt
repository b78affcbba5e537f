-- ===== src/Queue/Metrics.antt =====
-- The windowed metrics of the queue engine: `freshAccum`, `waitMsOf`, `foldLatency`, `accumulate`,
-- `isSignificant` and `emitMetricsWindow` of src/internal/queueResource.ts.
pub mod Window
use effect_pm.Prelude.{
  ℕ, zero, suc, ◌+◌, ◌*◌, negsuc, ltb, if◌then◌else◌, Bool, true, false, Option, none, some, List,
  [], ◌∷◌, ℤ, pos, sub_ℕ, ◌+ℤ◌, length,
}
use effect_pm.Lanes.Levels.{Priority, high, normal, low}
use effect_pm.Queue.Types.{QueueEvent, QueueEntry}

pub record PerPriority (N : Type 0) : Type 0 where
  pub high : N
  pub normal : N
  pub low : N

abbrev pub at_priority : {N : Type 0} → PerPriority N → Priority → N
at_priority p high = p.high
at_priority p normal = p.normal
at_priority p low = p.low

-- `{ ...p, [priority]: f(p[priority]) }`.
abbrev pub update_at : {N : Type 0} → PerPriority N → Priority → (N → N) → PerPriority N
update_at p high f = record p { high = f p.high }
update_at p normal f = record p { normal = f p.normal }
update_at p low f = record p { low = f p.low }

pub record WindowAccum : Type 0 where
  pub started_at : ℕ
  pub enqueued : ℕ
  pub started : ℕ
  pub completed : ℕ
  pub failed : ℕ
  pub retried : ℕ
  pub dead_lettered : ℕ
  pub dropped : ℕ
  pub rate_limit_exceeded : ℕ
  pub wait_sum : PerPriority ℤ
  pub wait_count : PerPriority ℕ
  pub execution_sum : ℕ
  pub execution_count : ℕ
  pub total_sum : ℤ
  pub total_count : ℕ

unfoldable pub fresh_accum : ℕ → WindowAccum
fresh_accum started_at = record {
  started_at = started_at;
  enqueued = 0;
  started = 0;
  completed = 0;
  failed = 0;
  retried = 0;
  dead_lettered = 0;
  dropped = 0;
  rate_limit_exceeded = 0;
  wait_sum = record { high = pos 0; normal = pos 0; low = pos 0 };
  wait_count = record { high = 0; normal = 0; low = 0 };
  execution_sum = 0;
  execution_count = 0;
  total_sum = pos 0;
  total_count = 0;
}

module _ {T : Type 0} where
  unfoldable pub wait_ms_of : QueueEntry T → Option ℤ
  wait_ms_of entry = elim entry.started_at [
    | some at ↦ some (sub_ℕ at entry.enqueued_at)
    | none ↦ none
  ]

  unfoldable pub fold_latency : WindowAccum → QueueEntry T → ℕ → WindowAccum
  unfolding wait_ms_of
  fold_latency acc entry execution = elim (wait_ms_of entry) [
    | some wait ↦ record acc {
      wait_sum = update_at acc.wait_sum entry.priority (λ s. s +ℤ wait);
      wait_count = update_at acc.wait_count entry.priority (λ n. n + 1);
      execution_sum = acc.execution_sum + execution;
      execution_count = acc.execution_count + 1;
      total_sum = acc.total_sum +ℤ wait +ℤ pos execution;
      total_count = acc.total_count + 1;
    }
    | none ↦ record acc {
      execution_sum = acc.execution_sum + execution;
      execution_count = acc.execution_count + 1;
    }
  ]

module _ {T C : Type 0} where
  unfoldable pub accumulate : WindowAccum → QueueEvent T C → WindowAccum
  unfolding fold_latency
  accumulate acc (QueueEvent.enqueued entries _) = record acc {
    enqueued = acc.enqueued + length entries;
  }
  accumulate acc (QueueEvent.started _) = record acc { started = acc.started + 1 }
  accumulate acc (QueueEvent.completed entry elapsed) =
      fold_latency (record acc { completed = acc.completed + 1 }) entry elapsed
  accumulate acc (QueueEvent.failed entry _ elapsed) =
      fold_latency (record acc { failed = acc.failed + 1 }) entry elapsed
  accumulate acc (QueueEvent.retry_scheduled _ _ _) = record acc { retried = acc.retried + 1 }
  accumulate acc (QueueEvent.dead_lettered entries _) = record acc {
    dead_lettered = acc.dead_lettered + length entries;
  }
  accumulate acc (QueueEvent.dropped entries _) = record acc {
    dropped = acc.dropped + length entries;
  }
  accumulate acc (QueueEvent.rate_limit_exceeded _) = record acc {
    rate_limit_exceeded = acc.rate_limit_exceeded + 1;
  }
  accumulate acc _ = acc

  unfoldable pub is_significant : QueueEvent T C → Bool
  is_significant (QueueEvent.drained _) = true
  is_significant (QueueEvent.cleared _) = true
  is_significant (QueueEvent.released _ _) = true
  is_significant (QueueEvent.dead_lettered _ _) = true
  is_significant (QueueEvent.dropped _ _) = true
  is_significant (QueueEvent.shutdown_requested _ _) = true
  is_significant (QueueEvent.shutdown_complete _) = true
  is_significant _ = false

-- A quotient of JavaScript numbers, which the model leaves undivided.
pub record Quotient : Type 0 where
  pub numerator : ℤ
  pub denominator : ℤ

-- `QueueMetrics`: the counters, and the averages where the window has anything to average.
pub record QueueMetrics : Type 0 where
  pub window_start : ℕ
  pub window_end : ℕ
  pub window_millis : ℤ
  pub counters : WindowAccum
  pub in_flight : ℕ
  pub throughput_per_sec : Quotient
  pub avg_wait_millis : PerPriority (Option Quotient)
  pub avg_execution_millis : Option Quotient
  pub avg_total_millis : Option Quotient

-- `count > 0 ? sum / count : absent`.
abbrev pub average : ℤ → ℕ → Option Quotient
average sum n = if ltb 0 n then some (record { numerator = sum; denominator = pos n }) else none

-- `windowMillis > 0 ? (completed / windowMillis) * 1000 : 0`.
abbrev pub throughput : ℕ → ℤ → Quotient
throughput completed (pos (suc n)) = record {
  numerator = pos (completed * 1000);
  denominator = pos (suc n);
}
throughput completed (pos zero) = record { numerator = pos 0; denominator = pos 1 }
throughput completed (negsuc n) = record { numerator = pos 0; denominator = pos 1 }

-- What `emitMetricsWindow` publishes of the window that it closes.
unfoldable pub metrics_of_window : WindowAccum → ℕ → ℕ → QueueMetrics
metrics_of_window acc now in_flight = record {
  window_start = acc.started_at;
  window_end = now;
  window_millis = sub_ℕ now acc.started_at;
  counters = acc;
  in_flight = in_flight;
  throughput_per_sec = throughput acc.completed (sub_ℕ now acc.started_at);
  avg_wait_millis = record {
    high = average acc.wait_sum.high acc.wait_count.high;
    normal = average acc.wait_sum.normal acc.wait_count.normal;
    low = average acc.wait_sum.low acc.wait_count.low;
  };
  avg_execution_millis = average (pos acc.execution_sum) acc.execution_count;
  avg_total_millis = average acc.total_sum acc.total_count;
}
