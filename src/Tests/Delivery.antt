-- ===== src/Tests/Delivery.antt =====
-- A durable queue of texts that is restarted on its table.
use effect_pm.Prelude.{
  ℕ, ◌≡◌, refl, Option, false, true, none, some, List, [], ◌∷◌, String, pos, arith, ◌==◌,
  if◌then◌else◌,
}
use effect_pm.Lanes.Levels.{level_to_default_priority}
use effect_pm.Durable.Port.{durable_priority_rank}
use effect_pm.Durable.Sqlite.{Row, offer}
use effect_pm.Durable.Sqlite.Invariant.{IsWellFormed}
use effect_pm.Durable.Sqlite.Delivery.{IsQueued}
use effect_pm.Queue.Engine.{Setup, Engine, next_entry_id}
use effect_pm.Queue.Enqueue.{enqueue_internal}
use effect_pm.Queue.Delivery.{on_sqlite, enqueue_internal_queues, enqueue_internal_loses}
use effect_pm.Tests.Instances.{jobs}
use effect_pm.Tests.Persistence.{as_text, stored_jobs, waiting}

abbrev numeral : ℕ → String
numeral n = if n == 1 then "1" else if n == 2 then "2" else "3"

abbrev counting_jobs : Setup
counting_jobs = record stored_jobs { config = record jobs.config { show = numeral } }

-- A process that has just started on a table.
abbrev started_on : List (Row String) → Engine (on_sqlite counting_jobs)
started_on rows = record {
  lanes = waiting.lanes;
  active_keys = [];
  durable = rows;
  entry_seq = 0;
  release_seq = 0;
  entry_fact_seq = 0;
  is_shutdown = false;
  phase = waiting.phase;
  paused = false;
  latch_open = true;
  completed_count = 0;
  in_flight = 0;
  accum = waiting.accum;
  flush_requested = false;
  events = [];
  entry_facts = [];
  lifecycle = [];
  dedupe_changes = [];
  worker_wakes = 0;
  drain_wakes = 0;
}

empty-IsWellFormed : IsWellFormed {P = String} []
empty-IsWellFormed = record { ids = λ id. omega arith; live = λ q k. omega arith; ranks = tt }

enqueue_internal_queues_example :
    (e' : Engine (on_sqlite counting_jobs)) × (enqueue_internal
        (on_sqlite counting_jobs)
        ("x" ∷ [])
        (pos 1)
        0
        none
        5
        (started_on [])
      ≡ some e')
    × IsQueued "jobs" "x" 1 e'.durable
    × (e'.lanes ≡ waiting.lanes)
unfolding durable_priority_rank level_to_default_priority
enqueue_internal_queues_example =
    enqueue_internal_queues counting_jobs as_text refl (λ t. t) refl "x" "x" (pos 1) 0 none 5
      (started_on []) refl refl refl empty-IsWellFormed refl

abbrev or_started : Option (Engine (on_sqlite counting_jobs)) → Engine (on_sqlite counting_jobs)
or_started none = started_on []
or_started (some e) = e

-- What the first process leaves of its table.
abbrev left_behind : List (Row String)
left_behind =
    (or_started (
      enqueue_internal (on_sqlite counting_jobs) ("x" ∷ []) (pos 1) 0 none 5
        (started_on []))).durable

-- The process is restarted on the table and is offered its first item, which is another one.
enqueue_internal_loses_example :
    enqueue_internal (on_sqlite counting_jobs) ("y" ∷ []) (pos 1) 0 none 9 (started_on left_behind)
    ≡ some (record (started_on left_behind) { entry_seq = 1 })
unfolding enqueue_internal offer durable_priority_rank next_entry_id
enqueue_internal_loses_example =
    enqueue_internal_loses counting_jobs as_text refl "y" (pos 1) 0 none 9 (started_on left_behind)
      refl refl refl
