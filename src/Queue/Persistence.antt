-- ===== src/Queue/Persistence.antt =====
-- The durable path of the queue engine (src/internal/queueResource.ts) keeps the store valid.
use effect_pm.Prelude.{
  ℕ, ◌≡◌, sym, subst, Option, some, List, [], ◌∷◌, String, ℤ, Bool-cases, Option-cases, inl, inr,
  arith, ◌-◌, if◌then◌else◌,
}
use effect_pm.Queue.Types.{InternalItem, EntryStatus}
use effect_pm.Queue.Engine.{PersistCodec, Setup, Engine, signal_worker_wake}
use effect_pm.Queue.Frame.{
  SameState, SameState-refl, SameState-trans, publish_event_same, record_entry_events_same,
}
use effect_pm.Queue.Enqueue.{
  persist_item, persist_items, publish_persisted, enqueue_persisted, enqueue_internal,
  enqueued_event, at_or,
}
use effect_pm.Queue.Worker.{
  persist_complete, persist_fail, max_attempts, Fed, feeder_round, feed_entry, fed, feeder_waits,
  feeder_ends, feeder_blocked, worker_stops,
}
use effect_pm.Durable.Port.{DurableEntry}

module _ (s : Setup) where
  abbrev pub IsStored : Engine s → Type 0
  IsStored e = s.durable_store.IsValid e.durable

  persist_item-IsStored :
      (codec : PersistCodec s.T s.P) (level : ℤ) (retries at now : ℕ) (item : s.T) (e : Engine s)
      → IsStored e
      → IsStored (persist_item s codec level retries at now item e).1
  unfolding persist_item
  persist_item-IsStored codec level retries at now item e v =
      elim (Option-cases (codec.encode item)) [
        | inl n ↦ rw (persist_item, n) v
        | inr (payload, n) ↦ elim (Bool-cases (codec.is_json_value payload)) [
          | inl j ↦ rw (persist_item, n, j) (s.durable_store.offer-IsValid e.durable now _ v)
          | inr j ↦ rw (persist_item, n, j) v
        ]
      ]

  persist_complete-IsStored :
      (id : String) (e : Engine s) → IsStored e → IsStored (persist_complete s id e)
  unfolding persist_complete
  persist_complete-IsStored id e v = elim (Option-cases s.persist) [
    | inl n ↦ rw (persist_complete, n) v
    | inr (codec, n) ↦ rw (persist_complete, n) (s.durable_store.complete-IsValid e.durable id v)
  ]

  persist_fail-IsStored : (id : String) (e : Engine s) → IsStored e → IsStored (persist_fail s id e)
  unfolding persist_fail
  persist_fail-IsStored id e v = elim (Option-cases s.persist) [
    | inl n ↦ rw (persist_fail, n) v
    | inr (codec, n) ↦
        rw (persist_fail, n) (s.durable_store.fail-IsValid e.durable id (max_attempts s) v)
  ]

  persist_items-IsStored :
      (codec : PersistCodec s.T s.P) (level : ℤ) (retries at now : ℕ) (items : List s.T)
      (e : Engine s)
      → IsStored e
      → IsStored (persist_items s codec level retries at now items e).1
  unfolding persist_items
  persist_items-IsStored codec level retries at now [] e v = v
  persist_items-IsStored codec level retries at now (item ∷ items) e v =
      persist_items-IsStored codec level retries at now items
        (persist_item s codec level retries at now item e).1
        (persist_item-IsStored codec level retries at now item e v)

  pub publish_persisted_same :
      (level : ℤ) (is : List (InternalItem s.T)) (e : Engine s)
      → SameState e (publish_persisted s level is e)
  unfolding publish_persisted
  publish_persisted_same level [] e = SameState-refl e
  publish_persisted_same level (i ∷ is) e =
      SameState-trans (record_entry_events_same EntryStatus.enqueued (i ∷ is) e)
        (publish_event_same (enqueued_event s level (i ∷ is)) _)

  -- Enqueueing through the engine of a durable queue waits for no lane, and its offers keep the store
  -- valid.
  pub enqueue_internal-IsStored :
      (codec : PersistCodec s.T s.P)
      → s.persist ≡ some codec
      → (items : List s.T) (level : ℤ) (retries : ℕ) (at : Option ℕ) (now : ℕ) (e : Engine s)
      → IsStored e
      → (e' : Engine s) × (enqueue_internal s items level retries at now e ≡ some e') × IsStored e'
  unfolding enqueue_internal enqueue_persisted
  enqueue_internal-IsStored codec durable items level retries at now e v =
      elim (Bool-cases e.is_shutdown) [
        | inl down ↦ (e, ground (arith, down), v)
        | inr up ↦
            let (is, m) = persist_items s codec level retries (at_or at now) now items e in
            (
              publish_persisted s level is m,
              ground (arith, up, durable),
              subst s.durable_store.IsValid (sym (publish_persisted_same level is m).durable)
                  (persist_items-IsStored codec level retries (at_or at now) now items e v),
            )
      ]

  -- What a round of the feeder leaves of the store.
  abbrev pub IsStoredAfter : Fed s → Type 0
  IsStoredAfter (fed e) = IsStored e
  IsStoredAfter (feeder_waits e) = IsStored e
  IsStoredAfter (feeder_ends e) = IsStored e
  IsStoredAfter feeder_blocked = Unit

  abbrev fed_item : s.T → DurableEntry s.P → ℤ → InternalItem s.T
  fed_item item entry level = record {
    item = item;
    entry_id = entry.id;
    retries = entry.attempts - 1;
    level = level;
    enqueued_at = entry.enqueued_at_millis;
    key = entry.dedup_key;
  }

  feed_entry-IsStored :
      (codec : PersistCodec s.T s.P) (entry : DurableEntry s.P) (e : Engine s)
      → IsStored e
      → IsStoredAfter (feed_entry s codec entry e)
  unfolding feed_entry signal_worker_wake
  feed_entry-IsStored codec entry e v = elim (Option-cases (codec.decode entry.payload)) [
    | inl n ↦ rw (feed_entry, n) (s.durable_store.complete-IsValid e.durable entry.id v)
    | inr (item, n) ↦
        let level = s.config.priority_to_level entry.priority in
        elim (Option-cases (s.lane_store.offer e.lanes (fed_item item entry level) level)) [
          | inl full ↦ rw (feed_entry, n, full) tt
          | inr (lanes, room) ↦ rw (feed_entry, n, room) v
        ]
  ]

  -- A round of the feeder keeps the store valid, whether it moves an entry into the lanes, drops one
  -- that does not decode, waits or ends.
  pub feeder_round-IsStored :
      (codec : PersistCodec s.T s.P) (now : ℕ) (e : Engine s)
      → IsStored e
      → IsStoredAfter (feeder_round s codec now e)
  unfolding feeder_round
  feeder_round-IsStored codec now e v =
      let (taken, durable) = s.durable_store.take e.durable now s.config.queue_name 300_000 in
      let kept : s.durable_store.IsValid durable =
        s.durable_store.take-IsValid e.durable now s.config.queue_name 300_000 v in
      let waits : IsStoredAfter (
          if e.is_shutdown
          then feeder_ends (record e { durable = durable })
          else feeder_waits (record e { durable = durable })) =
        elim (Bool-cases e.is_shutdown) [ inl down ↦ rw (down) kept | inr up ↦ rw (up) kept ] in
      elim (Bool-cases (worker_stops s e)) [
        | inl stops ↦ rw (feeder_round, stops) v
        | inr goes ↦ elim (Option-cases taken) [
          | inl failed ↦ rw (feeder_round, goes, failed) waits
          | inr (found, t) ↦ elim (Option-cases found) [
            | inl n ↦ rw (feeder_round, goes, t, n) waits
            | inr (entry, n) ↦
                rw (feeder_round, goes, t, n)
                  (feed_entry-IsStored codec entry (record e { durable = durable }) kept)
          ]
        ]
      ]
