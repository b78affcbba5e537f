-- ===== src/Queue/Engine.antt =====
-- The state that `makeQueueRuntime` of src/internal/queueResource.ts allocates, and the operations
-- that only record: events, metrics, process-store rows, wake signals. Every log is newest first.
use effect_pm.Prelude.{
  ℕ, ◌+◌, Bool, true, false, Option, none, some, List, [], ◌∷◌, String, if◌then◌else◌, ◌||◌,
}
use Prim.Native.String.{◌++◌ as text_append}
use effect_pm.Lanes.Store.{LaneStore}
use effect_pm.Durable.Port.{DurableStore}
use effect_pm.Queue.Types.{
  KeySet, Phase, running, EntryStatus, LifecycleTag, InternalItem, QueueEntry, QueueEvent,
  EntryFact, DedupeChange, Config,
}
use effect_pm.Queue.Metrics.{
  WindowAccum, fresh_accum, accumulate, is_significant, QueueMetrics, metrics_of_window,
}

-- The codec of a durable queue: what `Schema` does with the item schema. `encode` and `decode`
-- return `none` on a failure.
pub record PersistCodec (T P : Type 0) : Type 0 where
  pub encode : T → Option P
  pub decode : P → Option T
  pub is_json_value : P → Bool

-- What an engine is made from. `persist` is `none` where no durable store is in context.
pub record Setup : Type 1 where
  pub T : Type 0
  pub C : Type 0
  pub P : Type 0
  pub lane_store : LaneStore (InternalItem T)
  pub key_set : KeySet
  pub durable_store : DurableStore P
  pub config : Config T C
  pub persist : Option (PersistCodec T P)

pub record Engine (s : Setup) : Type 0 where
  pub lanes : s.lane_store.State
  pub active_keys : s.key_set.Keys
  pub durable : s.durable_store.State
  pub entry_seq : ℕ
  pub release_seq : ℕ
  pub entry_fact_seq : ℕ
  pub is_shutdown : Bool
  pub phase : Phase
  pub paused : Bool
  pub latch_open : Bool
  pub completed_count : ℕ
  pub in_flight : ℕ
  pub accum : WindowAccum
  pub flush_requested : Bool
  pub events : List (QueueEvent s.T s.C)
  pub entry_facts : List EntryFact
  pub lifecycle : List LifecycleTag
  pub dedupe_changes : List DedupeChange
  pub worker_wakes : ℕ
  pub drain_wakes : ℕ

-- The state that the engine starts in; `paused` is the configuration's.
unfoldable pub initial :
    (s : Setup) → s.lane_store.State → s.durable_store.State → Bool → ℕ → Engine s
unfolding fresh_accum
initial s lanes durable paused now = record {
  lanes = lanes;
  active_keys = s.key_set.empty;
  durable = durable;
  entry_seq = 0;
  release_seq = 0;
  entry_fact_seq = 0;
  is_shutdown = false;
  phase = running;
  paused = paused;
  latch_open = if paused then false else true;
  completed_count = 0;
  in_flight = 0;
  accum = fresh_accum now;
  flush_requested = false;
  events = [];
  entry_facts = [];
  lifecycle = [];
  dedupe_changes = [];
  worker_wakes = 0;
  drain_wakes = 0;
}

module _ {s : Setup} where
  unfoldable pub next_entry_id : Engine s → String × Engine s
  next_entry_id e = (
    text_append s.config.queue_name (text_append "-entry-" (s.config.show (e.entry_seq + 1))),
    record e { entry_seq = e.entry_seq + 1 },
  )

  unfoldable pub next_release_id : Engine s → String × Engine s
  next_release_id e = (
    text_append s.config.queue_name (text_append "-release-" (s.config.show (e.release_seq + 1))),
    record e { release_seq = e.release_seq + 1 },
  )

  -- The hub's capacity is left out: `events` keeps whatever was published.
  unfoldable pub publish_event : QueueEvent s.T s.C → Engine s → Engine s
  unfolding accumulate is_significant
  publish_event event e = record e {
    accum = accumulate e.accum event;
    events = event ∷ e.events;
    flush_requested = e.flush_requested || is_significant event;
  }

  -- `emitMetricsWindow`: the window so far, and a fresh one.
  unfoldable pub emit_metrics_window : ℕ → Engine s → QueueMetrics × Engine s
  unfolding fresh_accum metrics_of_window
  emit_metrics_window now e =
      (metrics_of_window e.accum now e.in_flight, record e { accum = fresh_accum now })

  -- `recordEntryEvent` of an item: a row is built only where a process store is present.
  unfoldable pub record_entry_event : EntryStatus → InternalItem s.T → Engine s → Engine s
  record_entry_event status i e =
      if s.config.has_process_store
      then record e {
        entry_fact_seq = e.entry_fact_seq + 1;
        entry_facts =
            record {
              status = status;
              entry_id = i.entry_id;
              key = i.key;
              priority = s.config.level_to_priority i.level;
              attempts = i.retries + 1;
              sequence = e.entry_fact_seq + 1;
            }
            ∷ e.entry_facts;
      }
      else e

  unfoldable pub record_entry_event_for_queue_entry :
      EntryStatus → QueueEntry s.T → Engine s → Engine s
  record_entry_event_for_queue_entry status q e =
      if s.config.has_process_store
      then record e {
        entry_fact_seq = e.entry_fact_seq + 1;
        entry_facts =
            record {
              status = status;
              entry_id = q.entry_id;
              key = q.key;
              priority = q.priority;
              attempts = q.attempts;
              sequence = e.entry_fact_seq + 1;
            }
            ∷ e.entry_facts;
      }
      else e

  unfoldable pub record_entry_events : EntryStatus → List (InternalItem s.T) → Engine s → Engine s
  unfolding record_entry_event
  record_entry_events status [] e = e
  record_entry_events status (i ∷ is) e =
      record_entry_events status is (record_entry_event status i e)

  unfoldable pub record_lifecycle_event : LifecycleTag → Engine s → Engine s
  record_lifecycle_event tag e =
      if s.config.has_process_store then record e { lifecycle = tag ∷ e.lifecycle } else e

  unfoldable pub record_dedupe_key_change : DedupeChange → Engine s → Engine s
  record_dedupe_key_change change e =
      if s.config.has_process_store
      then record e { dedupe_changes = change ∷ e.dedupe_changes }
      else e

  unfoldable pub record_dedupe_key_changes :
      (String → DedupeChange) → List String → Engine s → Engine s
  unfolding record_dedupe_key_change
  record_dedupe_key_changes change [] e = e
  record_dedupe_key_changes change (k ∷ ks) e =
      record_dedupe_key_changes change ks (record_dedupe_key_change (change k) e)

  unfoldable pub signal_worker_wake : Engine s → Engine s
  signal_worker_wake e = record e { worker_wakes = e.worker_wakes + 1 }

  unfoldable pub signal_drain_wake : Engine s → Engine s
  signal_drain_wake e = record e { drain_wakes = e.drain_wakes + 1 }

  unfoldable pub wake_drained_if_all_queues_empty : Engine s → Engine s
  unfolding record_lifecycle_event signal_drain_wake
  wake_drained_if_all_queues_empty e =
      if s.lane_store.is_empty e.lanes
      then signal_drain_wake (record_lifecycle_event LifecycleTag.drained e)
      else e

  unfoldable pub release_active_key : InternalItem s.T → Engine s → Engine s
  release_active_key i e = elim i.key [
    | some k ↦ record e { active_keys = s.key_set.remove e.active_keys k }
    | none ↦ e
  ]

  unfoldable pub restore_active_key : InternalItem s.T → Engine s → Engine s
  restore_active_key i e = elim i.key [
    | some k ↦ record e { active_keys = s.key_set.add e.active_keys k }
    | none ↦ e
  ]
