-- ===== src/Queue/Frame.antt =====
-- What the recording operations of the engine leave alone.
use effect_pm.Prelude.{◌≡◌, refl, ◌∙◌, List, [], ◌∷◌, String, arith}
use effect_pm.Queue.Types.{
  EntryStatus, InternalItem, QueueEntry, QueueEvent, DedupeChange, LifecycleTag,
}
use effect_pm.Queue.Engine.{
  Setup, Engine, publish_event, record_entry_event, record_entry_events,
  record_entry_event_for_queue_entry, record_lifecycle_event, record_dedupe_key_change,
  record_dedupe_key_changes, signal_worker_wake, wake_drained_if_all_queues_empty,
}

module _ {s : Setup} where
  -- The fields that decide what the queue does next.
  pub record SameState (e e' : Engine s) : Type 0 where
    pub lanes : e'.lanes ≡ e.lanes
    pub active_keys : e'.active_keys ≡ e.active_keys
    pub durable : e'.durable ≡ e.durable
    pub is_shutdown : e'.is_shutdown ≡ e.is_shutdown
    pub phase : e'.phase ≡ e.phase
    pub in_flight : e'.in_flight ≡ e.in_flight
    pub completed_count : e'.completed_count ≡ e.completed_count

  pub SameState-refl : (e : Engine s) → SameState e e
  SameState-refl e = record {
    lanes = refl;
    active_keys = refl;
    durable = refl;
    is_shutdown = refl;
    phase = refl;
    in_flight = refl;
    completed_count = refl;
  }

  pub SameState-trans : {e e' e'' : Engine s} → SameState e e' → SameState e' e'' → SameState e e''
  SameState-trans p q = record {
    lanes = q.lanes ∙ p.lanes;
    active_keys = q.active_keys ∙ p.active_keys;
    durable = q.durable ∙ p.durable;
    is_shutdown = q.is_shutdown ∙ p.is_shutdown;
    phase = q.phase ∙ p.phase;
    in_flight = q.in_flight ∙ p.in_flight;
    completed_count = q.completed_count ∙ p.completed_count;
  }

  pub publish_event_same :
      (event : QueueEvent s.T s.C) (e : Engine s) → SameState e (publish_event event e)
  unfolding publish_event
  publish_event_same event e = ground arith

  pub record_entry_event_same :
      (status : EntryStatus) (i : InternalItem s.T) (e : Engine s)
      → SameState e (record_entry_event status i e)
  unfolding record_entry_event
  record_entry_event_same status i e = ground arith

  pub record_entry_events_same :
      (status : EntryStatus) (is : List (InternalItem s.T)) (e : Engine s)
      → SameState e (record_entry_events status is e)
  unfolding record_entry_events
  record_entry_events_same status [] e = SameState-refl e
  record_entry_events_same status (i ∷ is) e =
      SameState-trans (record_entry_event_same status i e)
        (record_entry_events_same status is (record_entry_event status i e))

  pub record_queue_entry_same :
      (status : EntryStatus) (q : QueueEntry s.T) (e : Engine s)
      → SameState e (record_entry_event_for_queue_entry status q e)
  unfolding record_entry_event_for_queue_entry
  record_queue_entry_same status q e = ground arith

  pub record_lifecycle_event_same :
      (tag : LifecycleTag) (e : Engine s) → SameState e (record_lifecycle_event tag e)
  unfolding record_lifecycle_event
  record_lifecycle_event_same tag e = ground arith

  pub record_dedupe_key_change_same :
      (change : DedupeChange) (e : Engine s) → SameState e (record_dedupe_key_change change e)
  unfolding record_dedupe_key_change
  record_dedupe_key_change_same change e = ground arith

  pub record_dedupe_key_changes_same :
      (change : String → DedupeChange) (ks : List String) (e : Engine s)
      → SameState e (record_dedupe_key_changes change ks e)
  unfolding record_dedupe_key_changes
  record_dedupe_key_changes_same change [] e = SameState-refl e
  record_dedupe_key_changes_same change (k ∷ ks) e =
      SameState-trans (record_dedupe_key_change_same (change k) e)
        (record_dedupe_key_changes_same change ks (record_dedupe_key_change (change k) e))

  pub wake_drained_same : (e : Engine s) → SameState e (wake_drained_if_all_queues_empty e)
  unfolding wake_drained_if_all_queues_empty
  wake_drained_same e = ground arith

  pub signal_worker_wake_same : (e : Engine s) → SameState e (signal_worker_wake e)
  unfolding signal_worker_wake
  signal_worker_wake_same e = ground arith
