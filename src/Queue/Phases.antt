-- ===== src/Queue/Phases.antt =====
-- The phases of the engine (src/internal/queueResource.ts): what closes it, and when it is off.
use effect_pm.Prelude.{
  ℕ, ◌≡◌, refl, sym, ap, subst, ◌∙◌, ◌⊎◌, inl, inr, true, false, Option, none, some, List, [], ◌∷◌,
  Bool-cases, Option-cases, List-cases, map, sum, length, length_nil, ◌↔◌, arith,
}
use effect_pm.Queue.Types.{
  InternalItem, queue_entry_from_internal, QueueEvent, Phase, running, draining, off, finish_active,
  ShutdownMode, LifecycleTag,
}
use effect_pm.Queue.Engine.{
  Setup, Engine, publish_event, release_active_key, record_lifecycle_event, signal_worker_wake,
  signal_drain_wake,
}
use effect_pm.Lanes.Levels.{level_to_default_priority}
use effect_pm.Queue.Projection.{total_pending}
use effect_pm.Queue.Frame.{
  SameState, SameState-trans, publish_event_same, record_lifecycle_event_same,
}
use effect_pm.Queue.Enqueue.{enqueue_internal}
use effect_pm.Queue.Control.{release_active_keys}
use effect_pm.Queue.Shutdown.{
  level_sizes, busy, finalize_shutdown_if_drained, discard_pending_on_shutdown, wind_down, shutdown,
  after_wind_down,
}

Phase-cases : (p : Phase) → (p ≡ draining) ⊎ ((p ≡ running) ⊎ (p ≡ off))
Phase-cases draining = inl refl
Phase-cases running = inr (inl refl)
Phase-cases off = inr (inr refl)

module _ (s : Setup) where
  -- Where the queue is draining with nothing pending and nothing in flight, it turns off and says
  -- so once; in every other state it is left as it is.
  pub finalize_lem :
      (e : Engine s)
      → ((e.phase ≡ draining)
          × (busy s e ≡ false)
          × ((finalize_shutdown_if_drained s e).phase ≡ off)
          × ((finalize_shutdown_if_drained s e).events
              ≡ QueueEvent.shutdown_complete e.completed_count ∷ e.events))
        ⊎ (finalize_shutdown_if_drained s e ≡ e)
  unfolding finalize_shutdown_if_drained publish_event
  finalize_lem e = elim (Phase-cases e.phase) [
    | inl p ↦ elim (Bool-cases (busy s e)) [
      | inl b ↦ inr (rw (finalize_shutdown_if_drained, p, b) (same_phase p))
      | inr b ↦ inl (
        p,
        b,
        rw (finalize_shutdown_if_drained, p, b) refl,
        rw (finalize_shutdown_if_drained, p, b) refl,
      )
    ]
    | inr (inl p) ↦ inr (rw (finalize_shutdown_if_drained, p) (same_phase p))
    | inr (inr p) ↦ inr (rw (finalize_shutdown_if_drained, p) (same_phase p))
  ]
    where
      same_phase : {q : Phase} → e.phase ≡ q → e ≡ record e { phase = q }
      same_phase h = ap (λ q. record e { phase = q }) h

  -- A closed queue takes nothing in: enqueueing leaves its state as it was.
  pub enqueue_internal_closed :
      (items : List s.T) (level : _) (retries : ℕ) (at : Option ℕ) (now : ℕ) (e : Engine s)
      → e.is_shutdown ≡ true
      → enqueue_internal s items level retries at now e ≡ some e
  unfolding enqueue_internal
  enqueue_internal_closed items level retries at now e closed = rw (enqueue_internal, closed) refl

  level_sizes_lem :
      (e : Engine s)
      → s.persist ≡ none
      → s.lane_store.IsValid e.lanes
      → sum (level_sizes s e) ≡ length (s.lane_store.pending e.lanes)
  unfolding level_sizes
  level_sizes_lem e volatile v = rw (level_sizes, volatile) (s.lane_store.sizes_lem e.lanes v)

  -- An in-memory queue is idle exactly when nothing is pending in its lanes or in flight.
  pub busy_iff :
      (e : Engine s)
      → s.persist ≡ none
      → s.lane_store.IsValid e.lanes
      → (busy s e ≡ false) ↔ ((s.lane_store.pending e.lanes ≡ []) × (e.in_flight ≡ 0))
  unfolding busy level_sizes total_pending
  busy_iff e volatile v = (
    λ idle.
        let count = level_sizes_lem e volatile v in
        (length_nil (s.lane_store.pending e.lanes) (ground (arith, count)), ground arith),
    λ both. ground (arith, level_sizes_lem e volatile v, ap length both.0, both.1),
  )

  busy_phase : (p : Phase) (e : Engine s) → busy s (record e { phase = p }) ≡ busy s e
  unfolding busy level_sizes
  busy_phase p e = refl

  publish_event-events :
      (event : QueueEvent s.T s.C) (e : Engine s)
      → (publish_event event e).events ≡ event ∷ e.events
  unfolding publish_event
  publish_event-events event e = refl

  -- Shutting down a queue that is off leaves it draining. Were its finalization to run afterwards,
  -- which the call itself does not, an idle queue would announce its completion once more.
  pub shutdown_again :
      (e : Engine s)
      → e.phase ≡ off
      → busy s e ≡ false
      → (e' : Engine s) × (shutdown s e ≡ some e')
        × (e'.phase ≡ draining)
        × ((finalize_shutdown_if_drained s e').events
            ≡ QueueEvent.shutdown_complete e.completed_count ∷ e.events)
  unfolding shutdown
  shutdown_again e p idle = (
    record e { phase = draining },
    rw (shutdown, p) refl,
    refl,
    rw (busy_phase draining e, idle)
        (publish_event-events (QueueEvent.shutdown_complete e.completed_count)
          (record e { phase = off })),
  )

  release_active_key_frame :
      (i : InternalItem s.T) (e : Engine s)
      → (keys : s.key_set.Keys) × (release_active_key i e ≡ record e { active_keys = keys })
  unfolding release_active_key
  release_active_key_frame i e = elim (Option-cases i.key) [
    | inl n ↦ (e.active_keys, rw (release_active_key, n) refl)
    | inr (k, n) ↦ (s.key_set.remove e.active_keys k, rw (release_active_key, n) refl)
  ]

  release_active_keys_frame :
      (is : List (InternalItem s.T)) (e : Engine s)
      → (keys : s.key_set.Keys) × (release_active_keys s is e ≡ record e { active_keys = keys })
  unfolding release_active_keys
  release_active_keys_frame [] e = (e.active_keys, refl)
  release_active_keys_frame (i ∷ is) e =
      let (keys, same) = release_active_key_frame i e in
      let (left, rest) = release_active_keys_frame is (record e { active_keys = keys }) in
      (left, ap (release_active_keys s is) same ∙ rest)

  -- What stays of the state when the pending items are discarded.
  pub discard_lem :
      (e : Engine s)
      → s.lane_store.IsValid e.lanes
      → (e' : Engine s) × (discard_pending_on_shutdown s e ≡ some e')
        × s.lane_store.IsValid e'.lanes
        × (s.lane_store.pending e'.lanes ≡ [])
        × (e'.is_shutdown ≡ e.is_shutdown)
        × (e'.phase ≡ e.phase)
        × (e'.in_flight ≡ e.in_flight)
  unfolding discard_pending_on_shutdown publish_event
  discard_lem e v =
      let (l, drained, valid, empty) = s.lane_store.drain_lem e.lanes v in
      elim (List-cases (s.lane_store.pending e.lanes)) [
        | inl none_left ↦ (
          record e { lanes = l },
          rw (discard_pending_on_shutdown, drained, none_left) refl,
          valid,
          empty,
          refl,
          refl,
          refl,
        )
        | inr (i, is, some_left) ↦
            let (keys, released) = release_active_keys_frame (i ∷ is) (record e { lanes = l }) in
            (
              publish_event
                  (QueueEvent.dropped
                    (map (λ j. queue_entry_from_internal level_to_default_priority j none none none)
                      (i ∷ is))
                    "shutdown")
                  (record e { lanes = l; active_keys = keys }),
              rw (discard_pending_on_shutdown, drained, some_left, released) refl,
              valid,
              empty,
              refl,
              refl,
              refl,
            )
      ]

  finalize-state :
      (e : Engine s)
      → ((finalize_shutdown_if_drained s e).lanes ≡ e.lanes)
        × ((finalize_shutdown_if_drained s e).is_shutdown ≡ e.is_shutdown)
  unfolding finalize_shutdown_if_drained publish_event
  finalize-state e = elim (Phase-cases e.phase) [
    | inl p ↦ elim (Bool-cases (busy s e)) [
      | inl b ↦ (
        rw (finalize_shutdown_if_drained, p, b) refl,
        rw (finalize_shutdown_if_drained, p, b) refl,
      )
      | inr b ↦ (
        rw (finalize_shutdown_if_drained, p, b) refl,
        rw (finalize_shutdown_if_drained, p, b) refl,
      )
    ]
    | inr (inl p) ↦
        (rw (finalize_shutdown_if_drained, p) refl, rw (finalize_shutdown_if_drained, p) refl)
    | inr (inr p) ↦
        (rw (finalize_shutdown_if_drained, p) refl, rw (finalize_shutdown_if_drained, p) refl)
  ]

  finalize_idle :
      (e : Engine s)
      → e.phase ≡ draining
      → busy s e ≡ false
      → (finalize_shutdown_if_drained s e).phase ≡ off
  unfolding finalize_shutdown_if_drained publish_event
  finalize_idle e p b = rw (finalize_shutdown_if_drained, p, b) refl

  abbrev closing : Engine s → Engine s
  closing e = record_lifecycle_event LifecycleTag.shutdown (
      publish_event
        (QueueEvent.shutdown_requested s.config.shutdown_mode
          (total_pending (level_sizes s (record e { phase = draining }))))
        (record e { phase = draining; is_shutdown = true }))

  closing_same :
      (e : Engine s) → SameState (record e { phase = draining; is_shutdown = true }) (closing e)
  closing_same e =
      SameState-trans (publish_event_same _ (record e { phase = draining; is_shutdown = true }))
        (record_lifecycle_event_same LifecycleTag.shutdown _)

  shutdown_running :
      (e : Engine s)
      → e.phase ≡ running
      → shutdown s e ≡ after_wind_down s (wind_down s (closing e))
  unfolding shutdown
  shutdown_running e runs =
      ap
        (λ p. elim p as (λ _. Option (Engine s)) [
          | draining ↦ some (record e { phase = draining })
          | off ↦ some (record e { phase = draining })
          | running ↦ after_wind_down s (wind_down s (closing e))
        ])
        runs

  wind_down_discards :
      (e : Engine s)
      → s.config.shutdown_mode ≡ finish_active
      → wind_down s e ≡ discard_pending_on_shutdown s e
  unfolding wind_down
  wind_down_discards e mode =
      ap
        (λ m. elim m as (λ _. Option (Engine s)) [
          | finish_active ↦ discard_pending_on_shutdown s e
          | ShutdownMode.drain ↦ some (record e { latch_open = true; paused = false })
        ])
        mode

  -- With `finishActive`, the shutdown of a running in-memory queue always succeeds, closes the queue
  -- to new items and leaves none pending; if no item is in flight, the queue is off at once.
  pub shutdown_finishes :
      (e : Engine s)
      → s.persist ≡ none
      → s.config.shutdown_mode ≡ finish_active
      → s.lane_store.IsValid e.lanes
      → e.phase ≡ running
      → (e' : Engine s) × (shutdown s e ≡ some e')
        × (e'.is_shutdown ≡ true)
        × (s.lane_store.pending e'.lanes ≡ [])
        × (e.in_flight ≡ 0 → e'.phase ≡ off)
  unfolding signal_worker_wake signal_drain_wake
  shutdown_finishes e volatile mode v runs =
      let same = closing_same e in
      let (d, discarded, valid, empty, closed, phase, active) =
        discard_lem (closing e) (subst s.lane_store.IsValid (sym same.lanes) v) in
      let n : Engine s = record (signal_drain_wake (signal_worker_wake d)) {
        flush_requested = true;
      } in
      let (lanes, shut) = finalize-state n in
      (
        finalize_shutdown_if_drained s n,
        shutdown_running e runs
            ∙ ap (after_wind_down s) (wind_down_discards (closing e) mode ∙ discarded),
        shut ∙ closed ∙ same.is_shutdown,
        ap s.lane_store.pending lanes ∙ empty,
        λ quiet.
            finalize_idle n (phase ∙ same.phase)
              ((busy_iff n volatile valid).1 (empty, active ∙ same.in_flight ∙ quiet)),
      )
