-- ===== src/Queue/Delivery.antt =====
-- The durable path of `enqueueInternal` (src/internal/queueResource.ts) over the SQLite store of
-- src/storage/sqlite/durableQueue.ts.
use effect_pm.Prelude.{
  ℕ, ◌+◌, ◌≡◌, refl, subst, sym, ◌∙◌, true, false, Option, none, some, List, [], ◌∷◌, String, ℤ,
  any, ltb, Option-cases, Bool-cases, inl, inr, arith,
}
use effect_pm.Durable.Port.{DurableEntryInput, OfferResult, durable_priority_rank}
use effect_pm.Durable.Sqlite.{Row, has_id, find_live, offer, insert_new}
use effect_pm.Durable.Sqlite.Invariant.{IsWellFormed}
use effect_pm.Durable.Sqlite.Contract.{sqlite_store}
use effect_pm.Durable.Sqlite.Delivery.{IsQueued, offer_once}
use effect_pm.Queue.Engine.{PersistCodec, Setup, Engine, next_entry_id}
use effect_pm.Queue.Enqueue.{
  persist_item, persist_items, publish_persisted, enqueue_persisted, enqueue_internal, key_of,
  at_or,
}
use effect_pm.Queue.Persistence.{publish_persisted_same}

-- The queue on the SQLite store.
abbrev pub on_sqlite : Setup → Setup
on_sqlite s = record s { durable_store = sqlite_store s.P }

module _ {P : Type 0} where
  -- An offer of a new id is answered.
  offer_answers :
      (rows : List (Row P)) (now : ℕ) (entry : DurableEntryInput P)
      → any (has_id entry.id) rows ≡ false
      → (result : OfferResult) × ((offer rows now entry).0 ≡ some result)
  unfolding offer insert_new
  offer_answers rows now entry fresh =
      elim (Option-cases (find_live rows entry.queue_id entry.dedup_key)) [
        | inl e ↦ (OfferResult.inserted, rw (offer, e, fresh) refl)
        | inr (live, e) ↦
            elim (Bool-cases (ltb (durable_priority_rank entry.priority) live.priority_rank)) [
              | inl t ↦ (OfferResult.escalated, rw (offer, e, t) refl)
              | inr t ↦ (OfferResult.deduplicated, rw (offer, e, t) refl)
            ]
      ]

  -- An offer of a stored id with no live entry of its key fails.
  offer_taken :
      (rows : List (Row P)) (now : ℕ) (entry : DurableEntryInput P)
      → find_live rows entry.queue_id entry.dedup_key ≡ none
      → any (has_id entry.id) rows ≡ true
      → offer rows now entry ≡ (none, rows)
  unfolding offer insert_new
  offer_taken rows now entry absent taken = rw (offer, absent, taken) refl

module _ (s : Setup) where
  -- What the engine offers of an item.
  abbrev pub offered_entry : Engine (on_sqlite s) → s.T → s.P → ℤ → DurableEntryInput s.P
  offered_entry e item payload level = record {
    id = (next_entry_id e).0;
    queue_id = s.config.queue_name;
    dedup_key = key_of (on_sqlite s) item;
    priority = s.config.level_to_priority level;
    payload = payload;
    schema_version = none;
  }

  persist_item-durable :
      (codec : PersistCodec s.T s.P) (level : ℤ) (retries at now : ℕ) (item : s.T) (payload : s.P)
      (e : Engine (on_sqlite s))
      → codec.encode item ≡ some payload
      → codec.is_json_value payload ≡ true
      → (persist_item (on_sqlite s) codec level retries at now item e).1.durable
        ≡ (offer e.durable now (offered_entry e item payload level)).1
  unfolding persist_item next_entry_id
  persist_item-durable codec level retries at now item payload e encodes json =
      rw (persist_item, encodes, json) refl

  persist_item-lanes :
      (codec : PersistCodec s.T s.P) (level : ℤ) (retries at now : ℕ) (item : s.T) (payload : s.P)
      (e : Engine (on_sqlite s))
      → codec.encode item ≡ some payload
      → codec.is_json_value payload ≡ true
      → (persist_item (on_sqlite s) codec level retries at now item e).1.lanes ≡ e.lanes
  unfolding persist_item next_entry_id
  persist_item-lanes codec level retries at now item payload e encodes json =
      rw (persist_item, encodes, json) refl

  -- What the durable path does with one item.
  enqueue_internal_one :
      (codec : PersistCodec s.T s.P)
      → s.persist ≡ some codec
      → (item : s.T) (level : ℤ) (retries : ℕ) (at : Option ℕ) (now : ℕ) (e : Engine (on_sqlite s))
      → e.is_shutdown ≡ false
      → enqueue_internal (on_sqlite s) (item ∷ []) level retries at now e
        ≡ some (
            publish_persisted
              (on_sqlite s)
              level
              (persist_items (on_sqlite s) codec level retries (at_or at now) now (item ∷ []) e).0
              (persist_item (on_sqlite s) codec level retries (at_or at now) now item e).1)
  unfolding enqueue_internal enqueue_persisted persist_items
  enqueue_internal_one codec durable item level retries at now e up = ground (arith, up, durable)

  -- In a durable queue over the SQLite store that has a key function and is not shut down: an item
  -- that encodes, and whose new entry id has no row yet, is accepted without waiting for a lane, and
  -- the table then has exactly one pending row of its key, at the priority of its level or a higher
  -- one. No lane changes.
  pub enqueue_internal_queues :
      (codec : PersistCodec s.T s.P)
      → s.persist ≡ some codec
      → (key : s.T → String) → s.config.key ≡ some key
      → (item : s.T) (payload : s.P) (level : ℤ) (retries : ℕ) (at : Option ℕ) (now : ℕ)
        (e : Engine (on_sqlite s))
      → codec.encode item ≡ some payload
      → codec.is_json_value payload ≡ true
      → e.is_shutdown ≡ false
      → IsWellFormed e.durable
      → any (has_id (next_entry_id e).0) e.durable ≡ false
      → (e' : Engine (on_sqlite s)) × (enqueue_internal
            (on_sqlite s)
            (item ∷ [])
            level
            retries
            at
            now
            e
          ≡ some e')
        × IsQueued s.config.queue_name
            (key item)
            (durable_priority_rank (s.config.level_to_priority level))
            e'.durable
        × (e'.lanes ≡ e.lanes)
  enqueue_internal_queues codec durable key keyed item payload level retries at now e encodes json
        up valid fresh =
      let entry = offered_entry e item payload level in
      let (result, answered) = offer_answers e.durable now entry fresh in
      let named : key_of (on_sqlite s) item ≡ some (key item) = rw keyed refl in
      let queued = offer_once e.durable now entry (key item) result valid named answered in
      let m = (persist_item (on_sqlite s) codec level retries (at_or at now) now item e).1 in
      let is =
        (persist_items (on_sqlite s) codec level retries (at_or at now) now (item ∷ []) e).0 in
      let same = publish_persisted_same (on_sqlite s) level is m in
      (
        publish_persisted (on_sqlite s) level is m,
        enqueue_internal_one codec durable item level retries at now e up,
        subst
            (IsQueued s.config.queue_name (key item)
              (durable_priority_rank (s.config.level_to_priority level)))
            (sym (
              same.durable
              ∙ persist_item-durable codec level retries (at_or at now) now item payload e encodes
                  json))
            queued,
        same.lanes
            ∙ persist_item-lanes codec level retries (at_or at now) now item payload e encodes json,
      )

  -- In the same queue, where the item's new entry id already has a row and no pending row has the
  -- item's key: the enqueue succeeds and the item is lost. Nothing changes but the counter of ids,
  -- neither the table nor the lanes, and no event is published.
  pub enqueue_internal_loses :
      (codec : PersistCodec s.T s.P)
      → s.persist ≡ some codec
      → (item : s.T) (level : ℤ) (retries : ℕ) (at : Option ℕ) (now : ℕ) (e : Engine (on_sqlite s))
      → e.is_shutdown ≡ false
      → find_live e.durable s.config.queue_name (key_of (on_sqlite s) item) ≡ none
      → any (has_id (next_entry_id e).0) e.durable ≡ true
      → enqueue_internal (on_sqlite s) (item ∷ []) level retries at now e
        ≡ some (record e { entry_seq = e.entry_seq + 1 })
  unfolding persist_items persist_item publish_persisted next_entry_id
  enqueue_internal_loses codec durable item level retries at now e up absent taken =
      enqueue_internal_one codec durable item level retries at now e up
      ∙ elim (Option-cases (codec.encode item)) [
        | inl n ↦ rw (persist_items, persist_item, n) refl
        | inr (payload, n) ↦ elim (Bool-cases (codec.is_json_value payload)) [
          | inr j ↦ rw (persist_items, persist_item, n, j) refl
          | inl j ↦
              rw
                (
                  persist_items,
                  persist_item,
                  n,
                  j,
                  offer_taken e.durable now (offered_entry e item payload level) absent taken,
                )
                refl
        ]
      ]
