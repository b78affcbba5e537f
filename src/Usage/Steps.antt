-- ===== src/Usage/Steps.antt =====
-- Runs of a sink of src/internal/apiUsageRegistry.ts: calls by the clients and ticks of the schedule, in
-- any order.
use effect_pm.Prelude.{ℕ, Bool, true, false, List, [], ◌∷◌}
use effect_pm.Usage.{
  UsageSink, EndpointUsageEvent, success, failure, enter, exit, record_event, emit_window,
}

pub data UsageStep : Type 0 where
  entering exiting : UsageStep
  recording : ℕ → EndpointUsageEvent → UsageStep
  ticking : ℕ → UsageStep

abbrev pub step : UsageStep → UsageSink → UsageSink
step entering s = enter s
step exiting s = exit s
step (recording now event) s = record_event now event s
step (ticking now) s = emit_window now s

abbrev pub run : List UsageStep → UsageSink → UsageSink
run [] s = s
run (x ∷ xs) s = run xs (step x s)

-- The events recorded by a run, in their order.
abbrev pub events : List UsageStep → List EndpointUsageEvent
events [] = []
events (entering ∷ xs) = events xs
events (exiting ∷ xs) = events xs
events (recording now event ∷ xs) = event ∷ events xs
events (ticking now ∷ xs) = events xs

abbrev pub has_failed : EndpointUsageEvent → Bool
has_failed event = elim event.outcome [ success ↦ false | failure ↦ true ]
