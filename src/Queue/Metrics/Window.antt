-- ===== src/Queue/Metrics/Window.antt =====
-- What the windowed metrics of src/internal/queueResource.ts add up to.
use effect_pm.Prelude.{ℕ, ◌+◌, ◌≡◌, ◌∙◌, List, [], ◌∷◌, length, arith}
use effect_pm.Queue.Types.{QueueEvent, QueueEntry}
use effect_pm.Queue.Metrics.{
  WindowAccum, fresh_accum, fold_latency, accumulate, QueueMetrics, metrics_of_window,
}

-- The counters of a window.
pub data Counter : Type 0 where
  enqueued started completed failed retried dead_lettered dropped rate_limit_exceeded : Counter

abbrev pub count_of : Counter → WindowAccum → ℕ
count_of enqueued acc = acc.enqueued
count_of started acc = acc.started
count_of completed acc = acc.completed
count_of failed acc = acc.failed
count_of retried acc = acc.retried
count_of dead_lettered acc = acc.dead_lettered
count_of dropped acc = acc.dropped
count_of rate_limit_exceeded acc = acc.rate_limit_exceeded

-- What happens to the accumulator: an event is published, or a window is emitted.
pub data Action (T C : Type 0) : Type 0 where
  publish : QueueEvent T C → Action T C
  emit : ℕ → ℕ → Action T C

abbrev pub reported : Counter → List QueueMetrics → ℕ
reported c [] = 0
reported c (w ∷ ws) = count_of c w.counters + reported c ws

fold_latency_count :
    {T : Type 0} (c : Counter) (acc : WindowAccum) (entry : QueueEntry T) (execution : ℕ)
    → count_of c (fold_latency acc entry execution) ≡ count_of c acc
unfolding fold_latency
fold_latency_count c acc entry execution = ground arith

fresh_count : (c : Counter) (now : ℕ) → count_of c (fresh_accum now) ≡ 0
unfolding fresh_accum
fresh_count c now = ground arith

module _ {T C : Type 0} where
  -- How many entries an event reports to a counter.
  abbrev pub weight : Counter → QueueEvent T C → ℕ
  weight enqueued (QueueEvent.enqueued entries _) = length entries
  weight started (QueueEvent.started _) = 1
  weight completed (QueueEvent.completed _ _) = 1
  weight failed (QueueEvent.failed _ _ _) = 1
  weight retried (QueueEvent.retry_scheduled _ _ _) = 1
  weight dead_lettered (QueueEvent.dead_lettered entries _) = length entries
  weight dropped (QueueEvent.dropped entries _) = length entries
  weight rate_limit_exceeded (QueueEvent.rate_limit_exceeded _) = 1
  weight _ _ = 0

  -- The windows emitted on the way, and the accumulator at the end.
  abbrev pub run_window : List (Action T C) → WindowAccum → List QueueMetrics × WindowAccum
  run_window [] acc = ([], acc)
  run_window (publish event ∷ actions) acc = run_window actions (accumulate acc event)
  run_window (emit now in_flight ∷ actions) acc =
      let (windows, last) = run_window actions (fresh_accum now) in
      (metrics_of_window acc now in_flight ∷ windows, last)

  abbrev pub published : Counter → List (Action T C) → ℕ
  published c [] = 0
  published c (publish event ∷ actions) = weight c event + published c actions
  published c (emit _ _ ∷ actions) = published c actions

  accumulate_count :
      (c : Counter) (acc : WindowAccum) (event : QueueEvent T C)
      → count_of c (accumulate acc event) ≡ weight c event + count_of c acc
  unfolding accumulate
  accumulate_count c acc (QueueEvent.completed entry elapsed) =
      fold_latency_count c (record acc { completed = acc.completed + 1 }) entry elapsed
      ∙ ground arith
  accumulate_count c acc (QueueEvent.failed entry cause elapsed) =
      fold_latency_count c (record acc { failed = acc.failed + 1 }) entry elapsed ∙ ground arith
  accumulate_count c acc event = ground arith

  -- However publications and emissions interleave, what the emitted windows report to a counter,
  -- with what the open window holds, is what the events published reported to it.
  pub run_window_total :
      (c : Counter) (actions : List (Action T C)) (acc : WindowAccum)
      → reported c (run_window actions acc).0 + count_of c (run_window actions acc).1
        ≡ published c actions + count_of c acc
  unfolding metrics_of_window
  run_window_total c [] acc = omega arith
  run_window_total c (publish event ∷ actions) acc =
      omega (arith, run_window_total c actions (accumulate acc event), accumulate_count c acc event)
  run_window_total c (emit now in_flight ∷ actions) acc =
      omega (arith, run_window_total c actions (fresh_accum now), fresh_count c now)
