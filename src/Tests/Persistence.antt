-- ===== src/Tests/Persistence.antt =====
-- The durable path of the queue engine, over the SQLite store, at a queue of texts.
use effect_pm.Prelude.{
  ◌≡◌, refl, List, ℕ, length, sym, ap, subst, Option, false, true, none, some, [], ◌∷◌, String, pos,
  arith,
}
use effect_pm.Lanes.Levels.{level_to_default_priority, default_priority_to_level}
use effect_pm.Lanes.Priority
use effect_pm.Durable.Port.{durable_priority_rank}
use effect_pm.Durable.Sqlite.{offer, take}
use effect_pm.Queue.Types.{running}
use effect_pm.Queue.Engine.{PersistCodec, Setup, Engine}
use effect_pm.Queue.Enqueue.{enqueue_internal}
use effect_pm.Queue.Worker.{feeder_round, Fed, fed, feeder_waits, feeder_ends, feeder_blocked}
use effect_pm.Queue.Persistence.{IsStored, enqueue_internal-IsStored}
use effect_pm.Tests.Instances.{jobs, item_queue}
use effect_pm.Tests.Queue.{no_work, idle}

abbrev pub as_text : PersistCodec String String
as_text = record { encode = λ t. some t; decode = λ t. some t; is_json_value = λ t. true }

abbrev pub stored_jobs : Setup
stored_jobs = record jobs { persist = some as_text }

abbrev pub waiting : Engine stored_jobs
waiting = record {
  lanes = idle.lanes;
  active_keys = [];
  durable = [];
  entry_seq = 0;
  release_seq = 0;
  entry_fact_seq = 0;
  is_shutdown = false;
  phase = running;
  paused = false;
  latch_open = true;
  completed_count = 0;
  in_flight = 0;
  accum = no_work;
  flush_requested = false;
  events = [];
  entry_facts = [];
  lifecycle = [];
  dedupe_changes = [];
  worker_wakes = 0;
  drain_wakes = 0;
}

waiting-IsStored : IsStored stored_jobs waiting
waiting-IsStored = record { ids = λ id. omega arith; live = λ q k. omega arith; ranks = tt }

abbrev or_waiting : Option (Engine stored_jobs) → Engine stored_jobs
or_waiting none = waiting
or_waiting (some e) = e

-- Two texts that are offered, of which the second has the key of the first.
abbrev holding : Engine stored_jobs
holding = or_waiting (enqueue_internal stored_jobs ("x" ∷ "x" ∷ []) (pos 1) 0 none 5 waiting)

holding-IsStored : IsStored stored_jobs holding
holding-IsStored =
    let (e', run, v) =
      enqueue_internal-IsStored stored_jobs as_text refl ("x" ∷ "x" ∷ []) (pos 1) 0 none 5 waiting
        waiting-IsStored in
    subst (IsStored stored_jobs) (sym (ap or_waiting run)) v

abbrev sizes_after : Fed stored_jobs → List ℕ
sizes_after (fed e) = Priority.sizes item_queue e.lanes
sizes_after (feeder_waits e) = []
sizes_after (feeder_ends e) = []
sizes_after feeder_blocked = []

-- Only one row is stored, and the feeder brings it into lane 1.
holding_rows : length holding.durable ≡ 1
unfolding enqueue_internal offer durable_priority_rank level_to_default_priority
holding_rows = refl

fed_sizes : sizes_after (feeder_round stored_jobs as_text 6 holding) ≡ 0 ∷ 1 ∷ []
unfolding enqueue_internal offer feeder_round take Priority.offer Priority.sizes
    durable_priority_rank level_to_default_priority default_priority_to_level
fed_sizes = refl
