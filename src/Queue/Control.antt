-- ===== src/Queue/Control.antt =====
-- The control operations of the queue handle (src/internal/queueResource.ts): extraction of pending
-- items, `release`, `deadLetter`, `drop`, `clear`, and the restoring of extracted items.
use effect_pm.Prelude.{
  ℕ, ◌-◌, Bool, true, Option, none, some, List, [], ◌∷◌, ◌++◌, String, map, length, if◌then◌else◌,
}
use effect_pm.Lanes.Levels.{level_to_default_priority}
use effect_pm.Durable.Port.{DurableEntry, Match, any_entry, by_id, by_key}
use effect_pm.Queue.Types.{
  EntryStatus, InternalItem, QueueEntry, QueueEntrySelector, QueueEvent, DedupeChange, LifecycleTag,
  queue_entry_from_internal, matches_selector,
}
use effect_pm.Queue.Engine.{
  PersistCodec, Setup, Engine, next_release_id, publish_event, record_entry_events,
  record_entry_event_for_queue_entry, record_lifecycle_event, record_dedupe_key_changes,
  signal_worker_wake, wake_drained_if_all_queues_empty, release_active_key, restore_active_key,
}

-- How `routePending` disposes of an entry.
pub data RouteKind : Type 0 where
  to_dead_letter to_drop : RouteKind

abbrev pub status_of : RouteKind → EntryStatus
status_of to_dead_letter = EntryStatus.dead_lettered
status_of to_drop = EntryStatus.dropped

abbrev pub route_event : {T C : Type 0} → RouteKind → List (QueueEntry T) → String → QueueEvent T C
route_event to_dead_letter entries reason = QueueEvent.dead_lettered entries reason
route_event to_drop entries reason = QueueEvent.dropped entries reason

abbrev pub key_list : Option String → List String
key_list none = []
key_list (some k) = k ∷ []

abbrev pub keys_of : {T : Type 0} → List (InternalItem T) → List String
keys_of [] = []
keys_of (i ∷ is) = key_list i.key ++ keys_of is

module _ (s : Setup) where
  unfoldable pub release_active_keys : List (InternalItem s.T) → Engine s → Engine s
  unfolding release_active_key
  release_active_keys [] e = e
  release_active_keys (i ∷ is) e = release_active_keys is (release_active_key i e)

  -- `none` stands for a lane store that does not answer; the stores here always do.
  unfoldable pub extract_pending :
      (InternalItem s.T → Bool) → Engine s → Option (List (InternalItem s.T) × Engine s)
  unfolding release_active_keys record_dedupe_key_changes
  extract_pending select e = elim (s.lane_store.extract_matching e.lanes select) [
    | none ↦ none
    | some (extracted, lanes) ↦ some (
      extracted,
      record_dedupe_key_changes DedupeChange.released (keys_of extracted)
          (release_active_keys extracted (record e { lanes = lanes })),
    )
  ]

  -- The item of a row of the durable store, unless its payload does not decode.
  unfoldable pub item_of_entry : PersistCodec s.T s.P → DurableEntry s.P → List (InternalItem s.T)
  item_of_entry codec entry = elim (codec.decode entry.payload) [
    | none ↦ []
    | some item ↦
        record {
          item = item;
          entry_id = entry.id;
          retries = entry.attempts - 1;
          level = s.config.priority_to_level entry.priority;
          enqueued_at = entry.enqueued_at_millis;
          key = entry.dedup_key;
        }
        ∷ []
  ]

  unfoldable pub items_of_entries :
      PersistCodec s.T s.P → List (DurableEntry s.P) → List (InternalItem s.T)
  unfolding item_of_entry
  items_of_entries codec [] = []
  items_of_entries codec (entry ∷ entries) =
      item_of_entry codec entry ++ items_of_entries codec entries

  -- A selector of an item alone cannot match a stored row.
  abbrev pub match_of : Option (QueueEntrySelector s.T) → Option Match
  match_of none = some any_entry
  match_of (some selector) = elim selector.entry_id [
    | some id ↦ some (by_id id)
    | none ↦ elim selector.key [ some key ↦ some (by_key key) | none ↦ none ]
  ]

  unfoldable pub extract_pending_persist :
      PersistCodec s.T s.P
      → Option (QueueEntrySelector s.T)
      → ℕ
      → Engine s
      → List (InternalItem s.T) × Engine s
  unfolding items_of_entries
  extract_pending_persist codec selector now e = elim (match_of selector) [
    | none ↦ ([], e)
    | some match ↦
        let (result, durable) = s.durable_store.drain e.durable now s.config.queue_name match in
        (
          elim result [ some entries ↦ items_of_entries codec entries | none ↦ [] ],
          record e { durable = durable },
        )
  ]

  -- The extraction of `release`, `deadLetter` and `drop`: from the store where there is one.
  unfoldable pub extract :
      Option (QueueEntrySelector s.T)
      → (InternalItem s.T → Bool)
      → ℕ
      → Engine s
      → Option (List (InternalItem s.T) × Engine s)
  unfolding extract_pending extract_pending_persist
  extract selector select now e = elim s.persist [
    | some codec ↦ some (extract_pending_persist codec selector now e)
    | none ↦ extract_pending select e
  ]

  abbrev pub released_entries : String → List (InternalItem s.T) → List (QueueEntry s.T)
  released_entries release_id =
      map λ i. queue_entry_from_internal level_to_default_priority i none none (some release_id)

  unfoldable pub publish_released : String → List (InternalItem s.T) → Engine s → Engine s
  unfolding publish_event
  publish_released release_id [] e = e
  publish_released release_id (i ∷ is) e =
      publish_event (QueueEvent.released release_id (released_entries release_id (i ∷ is))) e

  abbrev pub release_id_of : Option String → Engine s → String × Engine s
  release_id_of (some id) e = (id, e)
  release_id_of none e = next_release_id e

  -- `releasePending`: everything pending leaves the queue and is returned.
  unfoldable pub release_pending :
      Option String → ℕ → Engine s → Option (List (QueueEntry s.T) × Engine s)
  unfolding next_release_id extract record_entry_events publish_released
      wake_drained_if_all_queues_empty
  release_pending given_id now e =
      let (release_id, e') = release_id_of given_id e in
      elim (extract none (λ i. true) now e') [
        | none ↦ none
        | some (internals, e'') ↦ some (
          released_entries release_id internals,
          wake_drained_if_all_queues_empty (
              publish_released release_id internals
                (record_entry_events EntryStatus.released internals e'')),
        )
      ]

  unfoldable pub publish_routed : RouteKind → String → List (QueueEntry s.T) → Engine s → Engine s
  unfolding publish_event
  publish_routed kind reason [] e = e
  publish_routed kind reason (q ∷ qs) e = publish_event (route_event kind (q ∷ qs) reason) e

  -- `routePending` at an entry, which is not looked for among the pending items.
  unfoldable pub route_entry : RouteKind → String → QueueEntry s.T → Engine s → Engine s
  unfolding record_entry_event_for_queue_entry publish_routed wake_drained_if_all_queues_empty
  route_entry kind reason entry e = wake_drained_if_all_queues_empty (
      publish_routed kind reason (entry ∷ [])
        (record_entry_event_for_queue_entry (status_of kind) entry e))

  -- `routePending` at a selector: `deadLetter` and `drop` of the handle.
  unfoldable pub route_pending :
      RouteKind
      → String
      → QueueEntrySelector s.T
      → ℕ
      → Engine s
      → Option (List (QueueEntry s.T) × Engine s)
  unfolding extract record_entry_events publish_routed wake_drained_if_all_queues_empty
      matches_selector
  route_pending kind reason selector now e =
      elim (extract (some selector) (λ i. matches_selector s.config.same_item i selector) now e) [
        | none ↦ none
        | some (internals, e') ↦
            let entries =
              map (λ i. queue_entry_from_internal level_to_default_priority i none none none)
                internals in
            some (
              entries,
              wake_drained_if_all_queues_empty (
                  publish_routed kind reason entries
                    (record_entry_events (status_of kind) internals e')),
            )
      ]

  -- The in-memory loop of `restorePending`.
  unfoldable pub restore_items : List (InternalItem s.T) → Engine s → Option (Engine s)
  unfolding restore_active_key
  restore_items [] e = some e
  restore_items (i ∷ is) e = elim (s.lane_store.offer e.lanes i i.level) [
    | none ↦ none
    | some lanes ↦ restore_items is (restore_active_key i (record e { lanes = lanes }))
  ]

  unfoldable pub restore_item_persist :
      PersistCodec s.T s.P → ℕ → InternalItem s.T → Engine s → Engine s
  restore_item_persist codec now i e = elim (codec.encode i.item) [
    | none ↦ e
    | some payload ↦
        if codec.is_json_value payload
        then record e {
          durable =
              (s.durable_store.offer e.durable now (record {
                id = i.entry_id;
                queue_id = s.config.queue_name;
                dedup_key = i.key;
                priority = s.config.level_to_priority i.level;
                payload = payload;
                schema_version = none;
              })).1;
        }
        else e
  ]

  unfoldable pub restore_items_persist :
      PersistCodec s.T s.P → ℕ → List (InternalItem s.T) → Engine s → Engine s
  unfolding restore_item_persist
  restore_items_persist codec now [] e = e
  restore_items_persist codec now (i ∷ is) e =
      restore_items_persist codec now is (restore_item_persist codec now i e)

  abbrev pub wake_if_any : List (InternalItem s.T) → Engine s → Engine s
  wake_if_any [] e = e
  wake_if_any (i ∷ is) e = signal_worker_wake e

  unfoldable pub restore_pending : List (InternalItem s.T) → ℕ → Engine s → Option (Engine s)
  unfolding restore_items restore_items_persist record_dedupe_key_changes signal_worker_wake
  restore_pending items now e = elim s.persist [
    | some codec ↦ some (restore_items_persist codec now items e)
    | none ↦ elim (restore_items items e) [
      | none ↦ none
      | some e' ↦
          some (record_dedupe_key_changes DedupeChange.added (keys_of items) (wake_if_any items e'))
    ]
  ]

  -- The end of `clear`, once `count` items are gone.
  abbrev pub cleared : ℕ → Engine s → Engine s
  cleared count e =
      publish_event (QueueEvent.cleared count)
        (record_lifecycle_event (LifecycleTag.cleared count) (record e { completed_count = 0 }))

  abbrev pub or_zero : Option ℕ → ℕ
  or_zero none = 0
  or_zero (some n) = n

  -- The durable path of `clear`: the store is the truth, and the leased copies are purged.
  unfoldable pub clear_persisted : Engine s → Option (ℕ × Engine s)
  clear_persisted e =
      let (result, durable) = s.durable_store.clear e.durable s.config.queue_name in
      elim (s.lane_store.drain e.lanes) [
        | none ↦ none
        | some (purged, lanes) ↦
            let count = or_zero result in
            some (
              count,
              wake_drained_if_all_queues_empty
                  (cleared count (record e { durable = durable; lanes = lanes })),
            )
      ]

  -- Items have keys only where `config.key` is set.
  abbrev pub cleared_keys : List (InternalItem s.T) → List String
  cleared_keys drained = elim s.config.key [ some key ↦ keys_of drained | none ↦ [] ]

  abbrev pub release_cleared : List (InternalItem s.T) → Engine s → Engine s
  release_cleared drained e = elim s.config.key [
    | some key ↦ release_active_keys drained e
    | none ↦ e
  ]

  unfoldable pub clear_lanes : Engine s → Option (ℕ × Engine s)
  clear_lanes e = elim (s.lane_store.drain e.lanes) [
    | none ↦ none
    | some (drained, lanes) ↦
        let count = length drained in
        some (
          count,
          wake_drained_if_all_queues_empty (
              record_dedupe_key_changes DedupeChange.released (cleared_keys drained)
                (cleared count (release_cleared drained (record e { lanes = lanes })))),
        )
  ]

  -- `clear`: the number of items that it removed.
  unfoldable pub clear : Engine s → Option (ℕ × Engine s)
  unfolding clear_persisted clear_lanes
  clear e = elim s.persist [ some codec ↦ clear_persisted e | none ↦ clear_lanes e ]

  -- `Effect.forEach(internals, encodeForRelease)`: it stops at the first item that does not encode.
  unfoldable pub encode_all :
      {B : Type 0} → (InternalItem s.T → Option B) → List (InternalItem s.T) → Option (List B)
  encode_all encode [] = some []
  encode_all encode (i ∷ is) = elim (encode i) [
    | none ↦ none
    | some b ↦ elim (encode_all encode is) [ none ↦ none | some bs ↦ some (b ∷ bs) ]
  ]

  -- How `releaseEncodedPending` ends: with the encoded entries, or with its error once everything
  -- that it extracted is restored.
  pub data Released (B : Type 0) : Type 0 where
    encoded : List B → Engine s → Released B
    encoding_failed : Engine s → Released B
    blocked : Released B

  unfoldable pub release_encoded_pending :
      {B : Type 0}
      → (String → InternalItem s.T → Option B)
      → Option String
      → ℕ
      → Engine s
      → Released B
  unfolding next_release_id extract record_entry_events publish_released encode_all restore_pending
      wake_drained_if_all_queues_empty
  release_encoded_pending encode given_id now e =
      let (release_id, e') = release_id_of given_id e in
      elim (extract none (λ i. true) now e') [
        | none ↦ blocked
        | some (internals, e'') ↦ elim (encode_all (encode release_id) internals) [
          | none ↦ elim (restore_pending internals now e'') [
            | none ↦ blocked
            | some restored ↦ encoding_failed restored
          ]
          | some out ↦ encoded out (
              wake_drained_if_all_queues_empty (
                publish_released release_id internals
                  (record_entry_events EntryStatus.released internals e'')))
        ]
      ]
