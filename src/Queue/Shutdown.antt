-- ===== src/Queue/Shutdown.antt =====
-- The lifecycle of the engine (src/internal/queueResource.ts): status, pause, resume, shutdown and
-- its finalization, and the whole of `processItem`.
use effect_pm.Prelude.{
  ℕ, Bool, true, false, ◌||◌, Option, none, some, List, [], ◌∷◌, map, ltb, if◌then◌else◌,
}
use effect_pm.Lanes.Levels.{level_to_default_priority}
use effect_pm.Durable.Port.{DurableSizes}
use effect_pm.Queue.Types.{
  InternalItem, QueueEvent, Outcome, running, draining, off, ShutdownMode, finish_active,
  LifecycleTag, queue_entry_from_internal,
}
use effect_pm.Queue.Projection.{QueueStatus, total_pending, build_status}
use effect_pm.Queue.Engine.{
  Setup, Engine, publish_event, record_lifecycle_event, signal_worker_wake, signal_drain_wake,
}
use effect_pm.Queue.Control.{release_active_keys}
use effect_pm.Queue.Worker.{process_item_body, skip_rate_limited_item}

module _ (s : Setup) where
  abbrev pub sizes_list : Option DurableSizes → List ℕ
  sizes_list none = 0 ∷ 0 ∷ 0 ∷ []
  sizes_list (some z) = z.high ∷ z.normal ∷ z.low ∷ []

  unfoldable pub level_sizes : Engine s → List ℕ
  level_sizes e = elim s.persist [
    | none ↦ s.lane_store.sizes e.lanes
    | some codec ↦ sizes_list (s.durable_store.sizes e.durable s.config.queue_name)
  ]

  unfoldable pub compute_status : Engine s → QueueStatus
  unfolding level_sizes build_status
  compute_status e = build_status (level_sizes e) e.paused e.in_flight e.completed_count e.phase

  -- `pending > 0 || inFlight > 0`.
  unfoldable pub busy : Engine s → Bool
  unfolding level_sizes total_pending
  busy e = ltb 0 (total_pending (level_sizes e)) || ltb 0 e.in_flight

  unfoldable pub finalize_shutdown_if_drained : Engine s → Engine s
  unfolding busy publish_event
  finalize_shutdown_if_drained e = elim e.phase [
    | draining ↦
        if busy e
        then e
        else publish_event (QueueEvent.shutdown_complete e.completed_count)
            (record e { phase = off })
    | running ↦ e
    | off ↦ e
  ]

  unfoldable pub discard_pending_on_shutdown : Engine s → Option (Engine s)
  unfolding release_active_keys publish_event
  discard_pending_on_shutdown e = elim (s.lane_store.drain e.lanes) [
    | none ↦ none
    | some ([], lanes) ↦ some (record e { lanes = lanes })
    | some (i ∷ is, lanes) ↦ some (
        publish_event
          (QueueEvent.dropped
            (map (λ j. queue_entry_from_internal level_to_default_priority j none none none)
              (i ∷ is))
            "shutdown")
          (release_active_keys s (i ∷ is) (record e { lanes = lanes })))
  ]

  -- How `shutdown` treats the queued items.
  unfoldable pub wind_down : Engine s → Option (Engine s)
  unfolding discard_pending_on_shutdown
  wind_down e = elim s.config.shutdown_mode [
    | finish_active ↦ discard_pending_on_shutdown e
    | ShutdownMode.drain ↦ some (record e { latch_open = true; paused = false })
  ]

  abbrev pub after_wind_down : Option (Engine s) → Option (Engine s)
  after_wind_down none = none
  after_wind_down (some e) =
      let e' = signal_drain_wake (signal_worker_wake e) in
      some (finalize_shutdown_if_drained (record e' { flush_requested = true }))

  unfoldable pub shutdown : Engine s → Option (Engine s)
  unfolding level_sizes total_pending publish_event record_lifecycle_event wind_down
      signal_worker_wake signal_drain_wake finalize_shutdown_if_drained
  shutdown e =
      let e' : Engine s = record e { phase = draining } in
      elim e.phase [
        | draining ↦ some e'
        | off ↦ some e'
        | running ↦ after_wind_down (
            wind_down (
              record_lifecycle_event LifecycleTag.shutdown (
                publish_event
                  (QueueEvent.shutdown_requested s.config.shutdown_mode
                    (total_pending (level_sizes e)))
                  (record e' { is_shutdown = true }))))
      ]

  unfoldable pub pause : Engine s → Engine s
  unfolding record_lifecycle_event
  pause e =
      record_lifecycle_event LifecycleTag.paused (record e { latch_open = false; paused = true })

  unfoldable pub resume : Engine s → Engine s
  unfolding record_lifecycle_event
  resume e =
      record_lifecycle_event LifecycleTag.resumed (record e { latch_open = true; paused = false })

  abbrev pub then_finalize : Option (Engine s) → Option (Engine s)
  then_finalize none = none
  then_finalize (some e) = some (finalize_shutdown_if_drained e)

  -- `processItem`; `proceeds` is the answer of the rate limit, which skips the item where it fails.
  unfoldable pub process_item :
      Bool → InternalItem s.T → ℕ → ℕ → Outcome s.C → Engine s → Option (Engine s)
  unfolding process_item_body skip_rate_limited_item finalize_shutdown_if_drained
  process_item proceeds i start end outcome e =
      if proceeds
      then then_finalize (process_item_body s i start end outcome e)
      else some (finalize_shutdown_if_drained (skip_rate_limited_item s i e))
