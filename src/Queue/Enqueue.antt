-- ===== src/Queue/Enqueue.antt =====
-- `enqueueInternal`, `enqueueEntries`, the public enqueue operations and the guarded ones that a
-- worker's effect is given (src/internal/queueResource.ts).
use effect_pm.Prelude.{
  ℕ, ◌-◌, Bool, true, false, not, ◌||◌, Option, none, some, List, [], ◌∷◌, ◌++◌, String, map,
  if◌then◌else◌, ℤ, filter, str_eq,
}
use effect_pm.Lanes.Levels.{Priority}
use effect_pm.Durable.Port.{OfferResult, inserted, escalated, deduplicated}
use effect_pm.Queue.Types.{
  EntryStatus, InternalItem, QueueEntry, QueueEvent, DedupeChange, queue_entry_from_internal,
}
use effect_pm.Queue.Validate.{EnqueueError, Checked, valid, invalid}
use effect_pm.Queue.Engine.{
  PersistCodec, Setup, Engine, next_entry_id, publish_event, record_entry_events,
  record_dedupe_key_changes, signal_worker_wake,
}

abbrev pub at_or : Option ℕ → ℕ → ℕ
at_or none now = now
at_or (some at) now = at

abbrev pub stored_result : Option OfferResult → Bool
stored_result (some inserted) = true
stored_result (some escalated) = true
stored_result (some deduplicated) = false
stored_result none = false

-- How an operation that may wait ends: `suspended` is a fiber that waits on a full lane.
pub data Reply (A : Type 0) : Type 0 where
  done : A → Reply A
  suspended : Reply A
  rejected : EnqueueError → Reply A

abbrev pub reply_of : {A : Type 0} → Option A → Reply A
reply_of none = suspended
reply_of (some a) = done a

abbrev keys_equal : Option String → Option String → Bool
keys_equal (some k) (some j) = str_eq k j
keys_equal none k = false
keys_equal (some k) none = false

module _ (s : Setup) where
  abbrev pub key_of : s.T → Option String
  key_of item = elim s.config.key [ some key ↦ some (key item) | none ↦ none ]

  abbrev pub make_item : ℤ → ℕ → ℕ → s.T → String → InternalItem s.T
  make_item level retries at item id = record {
    item = item;
    entry_id = id;
    retries = retries;
    level = level;
    enqueued_at = at;
    key = key_of item;
  }

  -- One round of the loop of the in-memory path: the item admitted, if any, and its dedup key.
  unfoldable pub admit :
      ℤ → ℕ → ℕ → s.T → Engine s → List (InternalItem s.T) × List String × Engine s
  unfolding next_entry_id
  admit level retries at item e = elim s.config.key [
    | some key ↦
        if s.key_set.has e.active_keys (key item)
        then ([], [], e)
        else let (id, e') =
            next_entry_id (record e { active_keys = s.key_set.add e.active_keys (key item) }) in
          (make_item level retries at item id ∷ [], key item ∷ [], e')
    | none ↦ let (id, e') = next_entry_id e in (make_item level retries at item id ∷ [], [], e')
  ]

  unfoldable pub collect :
      ℤ → ℕ → ℕ → List s.T → Engine s → List (InternalItem s.T) × List String × Engine s
  unfolding admit
  collect level retries at [] e = ([], [], e)
  collect level retries at (item ∷ items) e =
      let (is, ks, e') = admit level retries at item e in
      let (js, ls, e'') = collect level retries at items e' in (is ++ js, ks ++ ls, e'')

  -- `Effect.forEach(toEnqueue, (i) => laneStore.offer(i, i.level))`.
  unfoldable pub offer_items :
      List (InternalItem s.T) → s.lane_store.State → Option s.lane_store.State
  offer_items [] lanes = some lanes
  offer_items (i ∷ is) lanes = elim (s.lane_store.offer lanes i i.level) [
    | none ↦ none
    | some lanes' ↦ offer_items is lanes'
  ]

  abbrev pub enqueued_event : ℤ → List (InternalItem s.T) → QueueEvent s.T s.C
  enqueued_event level is =
      QueueEvent.enqueued
        (map (λ i. queue_entry_from_internal s.config.level_to_priority i none none none) is)
        (s.config.level_to_priority level)

  unfoldable pub enqueue_collected :
      ℤ → List (InternalItem s.T) → List String → Engine s → Option (Engine s)
  unfolding offer_items record_entry_events record_dedupe_key_changes signal_worker_wake
      publish_event
  enqueue_collected level [] ks e = some e
  enqueue_collected level (i ∷ is) ks e = elim (offer_items (i ∷ is) e.lanes) [
    | none ↦ none
    | some lanes ↦ some (
        publish_event (enqueued_event level (i ∷ is)) (
          signal_worker_wake (
            record_dedupe_key_changes DedupeChange.added ks
              (record_entry_events EntryStatus.enqueued (i ∷ is) (record e { lanes = lanes })))))
  ]

  unfoldable pub enqueue_lanes : List s.T → ℤ → ℕ → ℕ → Engine s → Option (Engine s)
  unfolding collect enqueue_collected
  enqueue_lanes items level retries at e =
      let (is, ks, e') = collect level retries at items e in enqueue_collected level is ks e'

  -- One round of the loop of the durable path: the item, if the store took it as new work.
  unfoldable pub persist_item :
      PersistCodec s.T s.P → ℤ → ℕ → ℕ → ℕ → s.T → Engine s → List (InternalItem s.T) × Engine s
  unfolding next_entry_id
  persist_item codec level retries at now item e =
      let (id, e') = next_entry_id e in
      elim (codec.encode item) [
        | none ↦ ([], e')
        | some payload ↦
            if codec.is_json_value payload
            then (let (result, durable) = s.durable_store.offer e'.durable now (record {
              id = id;
              queue_id = s.config.queue_name;
              dedup_key = key_of item;
              priority = s.config.level_to_priority level;
              payload = payload;
              schema_version = none;
            }) in
                (
                  if stored_result result then make_item level retries at item id ∷ [] else [],
                  record e' { durable = durable },
                ))
            else ([], e')
      ]

  unfoldable pub persist_items :
      PersistCodec s.T s.P
      → ℤ
      → ℕ
      → ℕ
      → ℕ
      → List s.T
      → Engine s
      → List (InternalItem s.T) × Engine s
  unfolding persist_item
  persist_items codec level retries at now [] e = ([], e)
  persist_items codec level retries at now (item ∷ items) e =
      let (is, e') = persist_item codec level retries at now item e in
      let (js, e'') = persist_items codec level retries at now items e' in (is ++ js, e'')

  unfoldable pub publish_persisted : ℤ → List (InternalItem s.T) → Engine s → Engine s
  unfolding record_entry_events publish_event
  publish_persisted level [] e = e
  publish_persisted level (i ∷ is) e =
      publish_event (enqueued_event level (i ∷ is))
        (record_entry_events EntryStatus.enqueued (i ∷ is) e)

  unfoldable pub enqueue_persisted :
      PersistCodec s.T s.P → List s.T → ℤ → ℕ → ℕ → ℕ → Engine s → Engine s
  unfolding persist_items publish_persisted
  enqueue_persisted codec items level retries at now e =
      let (is, e') = persist_items codec level retries at now items e in
      publish_persisted level is e'

  -- `enqueueInternal`; after shutdown the items are dropped.
  unfoldable pub enqueue_internal : List s.T → ℤ → ℕ → Option ℕ → ℕ → Engine s → Option (Engine s)
  unfolding enqueue_lanes enqueue_persisted
  enqueue_internal items level retries enqueued_at now e =
      if e.is_shutdown then some e else elim s.persist [
        | some codec ↦
            some (enqueue_persisted codec items level retries (at_or enqueued_at now) now e)
        | none ↦ enqueue_lanes items level retries (at_or enqueued_at now) e
      ]

  -- `enqueuePublic` and `enqueueAtLevelPublic`, after validation by `check`.
  unfoldable pub enqueue_at_level :
      (List s.T → Checked s.T) → List s.T → ℤ → ℕ → Engine s → Reply (Engine s)
  unfolding enqueue_internal
  enqueue_at_level check items level now e = elim (check items) [
    | valid validated ↦ reply_of (enqueue_internal validated level 0 none now e)
    | invalid error ↦ rejected error
  ]

  unfoldable pub enqueue_public :
      (List s.T → Checked s.T) → List s.T → Priority → ℕ → Engine s → Reply (Engine s)
  unfolding enqueue_at_level
  enqueue_public check items priority now e =
      enqueue_at_level check items (s.config.priority_to_level priority) now e

  -- `entry.level ?? levelOf(entry.priority)`.
  abbrev pub level_of_entry : QueueEntry s.T → ℤ
  level_of_entry entry = elim entry.level [
    | some level ↦ level
    | none ↦ s.config.priority_to_level entry.priority
  ]

  -- `enqueueEntries`: each entry anew, with its level, its attempts and its time.
  unfoldable pub enqueue_entries : List (QueueEntry s.T) → ℕ → Engine s → Option (Engine s)
  unfolding enqueue_internal
  enqueue_entries [] now e = some e
  enqueue_entries (entry ∷ entries) now e =
      elim (enqueue_internal (entry.item ∷ []) (level_of_entry entry) (entry.attempts - 1)
        (some entry.enqueued_at) now e) [ none ↦ none | some e' ↦ enqueue_entries entries now e' ]

  -- `isSameItem` of the context of `internal`.
  unfoldable pub is_same_item : InternalItem s.T → s.T → Bool
  is_same_item internal candidate =
      s.config.same_item candidate internal.item || keys_equal (key_of candidate) internal.key

  -- `guardedEnqueue`: the item itself is dropped from what its effect enqueues.
  unfoldable pub guarded_enqueue :
      (List s.T → Checked s.T)
      → InternalItem s.T
      → List s.T
      → Priority
      → ℕ
      → Engine s
      → Reply (Engine s)
  unfolding is_same_item enqueue_public
  guarded_enqueue check internal candidates priority now e =
      elim (filter (λ c. not (is_same_item internal c)) candidates) [
        | [] ↦ done e
        | c ∷ cs ↦ enqueue_public check (c ∷ cs) priority now e
      ]
