-- ===== src/Queue/Worker.antt =====
-- A worker's handling of one item (src/internal/queueResource.ts): `takeNext`, `processItemBody` in
-- its three parts, the disposition of a failure, `retryInternal`, the rate limit, the feeder.
use effect_pm.Prelude.{
  ℕ, ◌+◌, ◌-◌, Bool, true, false, Option, none, some, [], ◌∷◌, String, if◌then◌else◌,
}
use effect_pm.Lanes.Levels.{level_to_default_priority}
use effect_pm.Durable.Port.{DurableEntry}
use effect_pm.Queue.Types.{
  EntryStatus, InternalItem, QueueEntry, QueueEvent, DedupeChange, Outcome, success, failure,
  Disposition, retry, dead_letter, drop, default, ShutdownMode, finish_active, retries_spent,
  auto_re_enqueue, queue_entry_from_internal,
}
use effect_pm.Queue.Engine.{
  PersistCodec, Setup, Engine, publish_event, record_entry_event, record_dedupe_key_change,
  signal_worker_wake, wake_drained_if_all_queues_empty, release_active_key,
}
use effect_pm.Queue.Enqueue.{enqueue_internal}
use effect_pm.Queue.Control.{to_dead_letter, to_drop, route_entry}

module _ (s : Setup) where
  -- What `takeNext` does next: run an item, end the worker, or wait for a wake signal.
  pub data Next : Type 0 where
    took : InternalItem s.T → Engine s → Next
    interrupted : Engine s → Next
    waits : Engine s → Next

  unfoldable pub take_next : Engine s → Next
  take_next e =
      let (polled, lanes) = s.lane_store.poll e.lanes in
      elim polled [
        | some i ↦ took i (record e { lanes = lanes })
        | none ↦
            if e.is_shutdown
            then interrupted (record e { lanes = lanes })
            else waits (record e { lanes = lanes })
      ]

  -- The head of `workerLoop`: under `finishActive` a worker stops at once.
  unfoldable pub worker_stops : Engine s → Bool
  worker_stops e =
      if e.is_shutdown
      then elim s.config.shutdown_mode [ finish_active ↦ true | ShutdownMode.drain ↦ false ]
      else false

  abbrev pub entry_at : InternalItem s.T → Option ℕ → Option ℕ → QueueEntry s.T
  entry_at i started_at completed_at =
      queue_entry_from_internal level_to_default_priority i started_at completed_at none

  -- `if (config.key !== undefined && internal.key !== undefined)`: the key is free again.
  unfoldable pub release_dedupe_key : InternalItem s.T → Engine s → Engine s
  unfolding record_dedupe_key_change
  release_dedupe_key i e = elim s.config.key [
    | none ↦ e
    | some key ↦ elim i.key [
      | none ↦ e
      | some k ↦
          record_dedupe_key_change (DedupeChange.released k)
            (record e { active_keys = s.key_set.remove e.active_keys k })
    ]
  ]

  -- `processItemBody` up to the call of the user's effect.
  unfoldable pub process_start : InternalItem s.T → ℕ → Engine s → Engine s
  unfolding record_entry_event publish_event
  process_start i now e =
      let e' =
        publish_event (QueueEvent.started (entry_at i (some now) none))
          (record_entry_event EntryStatus.started i e) in
      record e' { in_flight = e'.in_flight + 1 }

  abbrev pub outcome_status : Outcome s.C → EntryStatus
  outcome_status success = EntryStatus.completed
  outcome_status (failure cause) = EntryStatus.failed

  abbrev pub outcome_event : QueueEntry s.T → Outcome s.C → ℕ → QueueEvent s.T s.C
  outcome_event entry success elapsed = QueueEvent.completed entry elapsed
  outcome_event entry (failure cause) elapsed = QueueEvent.failed entry cause elapsed

  -- From the effect's exit to the two exit events. A duration is never negative.
  unfoldable pub process_finish : InternalItem s.T → ℕ → ℕ → Outcome s.C → Engine s → Engine s
  unfolding record_entry_event release_dedupe_key publish_event
  process_finish i start end outcome e =
      let entry = entry_at i (some start) (some end) in
      let e' = publish_event (outcome_event entry outcome (end - start)) (
        publish_event (QueueEvent.exit entry outcome (end - start)) (
          release_dedupe_key i (
            record_entry_event (outcome_status outcome) i
              (record e { completed_count = e.completed_count + 1 })))) in
      record e' { in_flight = e'.in_flight - 1 }

  -- A failed write to the durable store is logged and passed over.
  unfoldable pub persist_complete : String → Engine s → Engine s
  persist_complete id e = elim s.persist [
    | none ↦ e
    | some codec ↦ record e { durable = (s.durable_store.complete e.durable id).1 }
  ]

  abbrev pub max_attempts : ℕ
  max_attempts = elim s.config.attempts [ some n ↦ n + 1 | none ↦ 1 ]

  unfoldable pub persist_fail : String → Engine s → Engine s
  persist_fail id e = elim s.persist [
    | none ↦ e
    | some codec ↦ record e { durable = (s.durable_store.fail e.durable id max_attempts).1 }
  ]

  abbrev pub cause_of : Outcome s.C → s.C
  cause_of success = s.config.no_cause
  cause_of (failure cause) = cause

  unfoldable pub retry_internal : InternalItem s.T → Outcome s.C → ℕ → Engine s → Option (Engine s)
  unfolding publish_event record_entry_event release_active_key enqueue_internal
  retry_internal i outcome now e =
      let entry = entry_at i none none in
      if retries_spent s.config i.retries
      then some (
          record_entry_event EntryStatus.exhausted i
            (publish_event (QueueEvent.retry_exhausted entry (cause_of outcome)) e))
      else enqueue_internal s (i.item ∷ []) i.level (i.retries + 1) (some i.enqueued_at) now (
          release_active_key i (
            publish_event (QueueEvent.retry_scheduled entry (cause_of outcome) (i.retries + 2))
              (record_entry_event EntryStatus.retried i e)))

  unfoldable pub retry_or_fail : InternalItem s.T → Outcome s.C → ℕ → Engine s → Option (Engine s)
  unfolding persist_fail retry_internal
  retry_or_fail i outcome now e = elim s.persist [
    | some codec ↦ some (persist_fail i.entry_id e)
    | none ↦ retry_internal i outcome now e
  ]

  abbrev pub disposition_of : QueueEntry s.T → s.C → Disposition
  disposition_of entry cause = elim s.config.on_failure [
    | some decide ↦ decide entry cause
    | none ↦ default
  ]

  -- The `switch` on the disposition of a failure.
  unfoldable pub dispose :
      Disposition
      → InternalItem s.T
      → QueueEntry s.T
      → Outcome s.C
      → ℕ
      → Engine s
      → Option (Engine s)
  unfolding retry_or_fail route_entry persist_complete auto_re_enqueue
  dispose retry i entry outcome now e = retry_or_fail i outcome now e
  dispose dead_letter i entry outcome now e =
      some (persist_complete i.entry_id (route_entry s to_dead_letter "onFailure" entry e))
  dispose drop i entry outcome now e =
      some (persist_complete i.entry_id (route_entry s to_drop "onFailure" entry e))
  dispose default i entry outcome now e =
      if auto_re_enqueue s.config
      then retry_or_fail i outcome now e
      else some (persist_complete i.entry_id e)

  abbrev pub then_wake : Option (Engine s) → Option (Engine s)
  then_wake none = none
  then_wake (some e) = some (wake_drained_if_all_queues_empty e)

  -- What follows the exit events: the disposition, and the check for a drained queue.
  unfoldable pub process_settle :
      InternalItem s.T → ℕ → ℕ → Outcome s.C → ℕ → Engine s → Option (Engine s)
  unfolding dispose persist_complete wake_drained_if_all_queues_empty
  process_settle i start end success now e = then_wake (some (persist_complete i.entry_id e))
  process_settle i start end (failure cause) now e =
      let entry = entry_at i (some start) (some end) in
      then_wake (dispose (disposition_of entry cause) i entry (failure cause) now e)

  -- `processItemBody` where no other fiber runs in between.
  unfoldable pub process_item_body :
      InternalItem s.T → ℕ → ℕ → Outcome s.C → Engine s → Option (Engine s)
  unfolding process_start process_finish process_settle
  process_item_body i start end outcome e =
      process_settle i start end outcome end
        (process_finish i start end outcome (process_start i start e))

  unfoldable pub skip_rate_limited_item : InternalItem s.T → Engine s → Engine s
  unfolding record_entry_event release_dedupe_key
  skip_rate_limited_item i e = release_dedupe_key i (record_entry_event EntryStatus.dropped i e)

  -- One round of the durable feeder: a leased entry goes to its lane, one that does not decode is
  -- removed from the store. `none` waits on a full lane.
  pub data Fed : Type 0 where
    fed : Engine s → Fed
    feeder_waits : Engine s → Fed
    feeder_ends : Engine s → Fed
    feeder_blocked : Fed

  unfoldable pub feed_entry : PersistCodec s.T s.P → DurableEntry s.P → Engine s → Fed
  unfolding signal_worker_wake
  feed_entry codec entry e = elim (codec.decode entry.payload) [
    | none ↦ fed (record e { durable = (s.durable_store.complete e.durable entry.id).1 })
    | some item ↦
        let level = s.config.priority_to_level entry.priority in
        elim (s.lane_store.offer e.lanes
          (record {
            item = item;
            entry_id = entry.id;
            retries = entry.attempts - 1;
            level = level;
            enqueued_at = entry.enqueued_at_millis;
            key = entry.dedup_key;
          })
          level) [
            | none ↦ feeder_blocked
            | some lanes ↦ fed (signal_worker_wake (record e { lanes = lanes }))
          ]
  ]

  unfoldable pub feeder_round : PersistCodec s.T s.P → ℕ → Engine s → Fed
  unfolding worker_stops feed_entry
  feeder_round codec now e =
      if worker_stops e
      then feeder_ends e
      else (let (taken, durable) = s.durable_store.take e.durable now s.config.queue_name 300_000 in
          let e' : Engine s = record e { durable = durable } in
          elim taken [
            | some (some entry) ↦ feed_entry codec entry e'
            | some none ↦ if e.is_shutdown then feeder_ends e' else feeder_waits e'
            | none ↦ if e.is_shutdown then feeder_ends e' else feeder_waits e'
          ])
