-- ===== src/Queue/Keys/Control.antt =====
-- The control operations keep the dedup keys consistent, and take out exactly what they return.
use effect_pm.Prelude.{
  ℕ, ◌≡◌, refl, sym, ap, ◌∙◌, subst, Bool, true, not, Option, none, some, List, [], ◌∷◌, ◌++◌,
  String, tally, tally-append, tally-filter, filter, length, map, arith, filter-true, filter-false,
}
use effect_pm.Lanes.Levels.{level_to_default_priority}
use effect_pm.Queue.Types.{
  InternalItem, QueueEntry, QueueEntrySelector, QueueEvent, LifecycleTag, EntryStatus, DedupeChange,
  matches_selector, queue_entry_from_internal,
}
use effect_pm.Queue.Engine.{
  Setup, Engine, publish_event, record_entry_events, record_dedupe_key_changes,
  record_lifecycle_event, wake_drained_if_all_queues_empty, next_release_id,
}
use effect_pm.Queue.Frame.{
  SameState, SameState-refl, SameState-trans, publish_event_same, record_entry_events_same,
  record_lifecycle_event_same, record_dedupe_key_changes_same, wake_drained_same,
}
use effect_pm.Queue.Control.{
  RouteKind, keys_of, release_active_keys, extract, extract_pending, release_pending, release_id_of,
  released_entries, publish_released, route_pending, publish_routed, status_of, clear, cleared,
}
use effect_pm.Queue.Keys.{has_key, pending, Counted, IsConsistent}
use effect_pm.Queue.Keys.Release.{release_active_keys-lanes, release_active_keys-Counted}
use effect_pm.Queue.Keys.Worker.{live-IsConsistent, SameState-IsConsistent}

module _ (s : Setup) where
  -- An extraction always answers: with the selected items, which are then no longer live, while the
  -- others stay pending in their order.
  pub extract_pending_lem :
      (select : InternalItem s.T → Bool) (held : List (InternalItem s.T)) (e : Engine s)
      → IsConsistent s held e
      → (e' : Engine s) × (extract_pending s select e ≡ some (filter select (pending s e), e'))
        × IsConsistent s held e'
        × (pending s e' ≡ filter (λ i. not (select i)) (pending s e))
  unfolding extract_pending
  extract_pending_lem select held e c =
      let (l, taken, valid, left) = s.lane_store.extract_lem e.lanes select c.valid in
      let out : List (InternalItem s.T) = filter select (pending s e) in
      let e1 : Engine s = record e { lanes = l } in
      let e2 = release_active_keys s out e1 in
      let same = record_dedupe_key_changes_same DedupeChange.released (keys_of out) e2 in
      let lanes : e2.lanes ≡ l = release_active_keys-lanes s out e1 in
      let counted : Counted s (out ++ held) e1 = λ k. omega (
        arith,
        c.counted k,
        tally-append (has_key k) out held,
        tally-filter (has_key k) select (pending s e),
        ap (tally (has_key k)) left,
      ) in
      (
        record_dedupe_key_changes DedupeChange.released (keys_of out) e2,
        rw (taken, extract_pending) refl,
        SameState-IsConsistent s held same (record {
          valid = subst s.lane_store.IsValid (sym lanes) valid;
          counted = release_active_keys-Counted s out held e1 counted;
        }),
        ap s.lane_store.pending (same.lanes ∙ lanes) ∙ left,
      )

  publish_released_same :
      (release_id : String) (is : List (InternalItem s.T)) (e : Engine s)
      → SameState e (publish_released s release_id is e)
  unfolding publish_released
  publish_released_same release_id [] e = SameState-refl e
  publish_released_same release_id (i ∷ is) e = publish_event_same _ e

  publish_routed_same :
      (kind : RouteKind) (reason : String) (qs : List (QueueEntry s.T)) (e : Engine s)
      → SameState e (publish_routed s kind reason qs e)
  unfolding publish_routed
  publish_routed_same kind reason [] e = SameState-refl e
  publish_routed_same kind reason (q ∷ qs) e = publish_event_same _ e

  pub release_id_same : (id : Option String) (e : Engine s) → SameState e (release_id_of s id e).1
  unfolding next_release_id
  release_id_same none e = ground arith
  release_id_same (some id) e = SameState-refl e

  abbrev pub selected : QueueEntrySelector s.T → InternalItem s.T → Bool
  selected selector i = matches_selector s.config.same_item i selector

  clear_same :
      (n : ℕ) (ks : List String) (e : Engine s)
      → SameState
          (record e { completed_count = 0 })
          (wake_drained_if_all_queues_empty
            (record_dedupe_key_changes DedupeChange.released ks (cleared s n e)))
  clear_same n ks e =
      let e1 : Engine s = record e { completed_count = 0 } in
      let e2 = record_lifecycle_event (LifecycleTag.cleared n) e1 in
      let e3 = publish_event (QueueEvent.cleared n) e2 in
      let e4 = record_dedupe_key_changes DedupeChange.released ks e3 in
      SameState-trans {e' = e2} (record_lifecycle_event_same (LifecycleTag.cleared n) e1) (
        SameState-trans {e' = e3} (publish_event_same (QueueEvent.cleared n) e2) (
          SameState-trans {e' = e4} (record_dedupe_key_changes_same DedupeChange.released ks e3)
            (wake_drained_same e4)))

  -- Once everything pending is gone and its keys are released, only what is held is live.
  drained-IsConsistent :
      (held : List (InternalItem s.T)) (e : Engine s) (l : s.lane_store.State)
      → IsConsistent s held e
      → s.lane_store.IsValid l
      → s.lane_store.pending l ≡ []
      → let e' = release_active_keys s (pending s e) (record e { lanes = l }) in
        IsConsistent s held e' × (e'.lanes ≡ l)
  drained-IsConsistent held e l c valid left =
      let e1 : Engine s = record e { lanes = l } in
      let lanes : (release_active_keys s (pending s e) e1).lanes ≡ l =
        release_active_keys-lanes s (pending s e) e1 in
      let counted : Counted s (pending s e ++ held) e1 = λ k. omega (
        arith,
        c.counted k,
        tally-append (has_key k) (pending s e) held,
        ap (tally (has_key k)) left,
      ) in
      (
        record {
          valid = subst s.lane_store.IsValid (sym lanes) valid;
          counted = release_active_keys-Counted s (pending s e) held e1 counted;
        },
        lanes,
      )

  module _ (volatile : s.persist ≡ none) where
    -- In a queue without a durable store whose dedup keys are consistent, `release` always answers:
    -- it leaves no item pending and the keys consistent, and returns an entry for each item that was
    -- pending, in order.
    pub release_pending_lem :
        (id : Option String) (now : ℕ) (held : List (InternalItem s.T)) (e : Engine s)
        → IsConsistent s held e
        → (e' : Engine s) × (release_pending s id now e
            ≡ some (released_entries s (release_id_of s id e).0 (pending s e), e'))
          × IsConsistent s held e'
          × (pending s e' ≡ [])
    unfolding release_pending extract
    release_pending_lem id now held e c =
        let (release_id, e1) = release_id_of s id e in
        let numbered = release_id_same id e in
        let (e2, taken, consistent, left) =
          extract_pending_lem (λ i. true) held e1 (SameState-IsConsistent s held numbered c) in
        let all : filter (λ i. true) (pending s e1) ≡ pending s e =
          filter-true (pending s e1) ∙ ap s.lane_store.pending numbered.lanes in
        let taken' : extract_pending s (λ i. true) e1 ≡ some (pending s e, e2) = rw all at taken in
        let e3 = record_entry_events EntryStatus.released (pending s e) e2 in
        let e4 = publish_released s release_id (pending s e) e3 in
        let same =
          SameState-trans (record_entry_events_same EntryStatus.released (pending s e) e2) (
            SameState-trans (publish_released_same release_id (pending s e) e3)
              (wake_drained_same e4)) in
        (
          wake_drained_if_all_queues_empty e4,
          ground (arith, volatile, taken'),
          SameState-IsConsistent s held same consistent,
          ap s.lane_store.pending same.lanes ∙ left ∙ filter-false (pending s e1),
        )

    -- In a queue without a durable store whose dedup keys are consistent, `deadLetter` and `drop`
    -- take out exactly the items that the selector matches, and leave the keys consistent.
    pub route_pending_lem :
        (kind : RouteKind) (reason : String) (selector : QueueEntrySelector s.T) (now : ℕ)
        (held : List (InternalItem s.T)) (e : Engine s)
        → IsConsistent s held e
        → (e' : Engine s) × (route_pending s kind reason selector now e
            ≡ some (
              map
                  (λ i. queue_entry_from_internal level_to_default_priority i none none none)
                  (filter (selected selector) (pending s e)),
              e',
            ))
          × IsConsistent s held e'
          × (pending s e' ≡ filter (λ i. not (selected selector i)) (pending s e))
    unfolding route_pending extract
    route_pending_lem kind reason selector now held e c =
        let (e2, taken, consistent, left) = extract_pending_lem (selected selector) held e c in
        let out = filter (selected selector) (pending s e) in
        let entries =
          map
            (λ (i : InternalItem s.T).
              queue_entry_from_internal level_to_default_priority i none none none)
            out in
        let e3 = record_entry_events (status_of kind) out e2 in
        let e4 = publish_routed s kind reason entries e3 in
        let same =
          SameState-trans (record_entry_events_same (status_of kind) out e2)
            (SameState-trans (publish_routed_same kind reason entries e3) (wake_drained_same e4)) in
        (
          wake_drained_if_all_queues_empty e4,
          ground (arith, volatile, taken),
          SameState-IsConsistent s held same consistent,
          ap s.lane_store.pending same.lanes ∙ left,
        )

    clear_eq :
        (key : s.T → String) (e : Engine s) (l : s.lane_store.State)
        → s.config.key ≡ some key
        → s.lane_store.drain e.lanes ≡ some (pending s e, l)
        → clear s e
          ≡ some (
            length (pending s e),
            wake_drained_if_all_queues_empty (
                record_dedupe_key_changes DedupeChange.released (keys_of (pending s e)) (
                  cleared s
                    (length (pending s e))
                    (release_active_keys s (pending s e) (record e { lanes = l })))),
          )
    unfolding clear
    clear_eq key e l keyed drained = ground (arith, volatile, keyed, drained)

    -- In a queue with a key function, without a durable store and with consistent dedup keys,
    -- `clear` answers with the number of items that were pending, and leaves none; items that workers
    -- hold stay live.
    pub clear_lem :
        (key : s.T → String)
        → s.config.key ≡ some key
        → (held : List (InternalItem s.T)) (e : Engine s) → IsConsistent s held e
        → (e' : Engine s) × (clear s e ≡ some (length (pending s e), e'))
          × IsConsistent s held e'
          × (pending s e' ≡ [])
          × (e'.completed_count ≡ 0)
    clear_lem key keyed held e c =
        let (l, drained, valid, left) = s.lane_store.drain_lem e.lanes c.valid in
        let e2 = release_active_keys s (pending s e) (record e { lanes = l }) in
        let (freed, lanes) = drained-IsConsistent held e l c valid left in
        let same = clear_same (length (pending s e)) (keys_of (pending s e)) e2 in
        (
          _,
          clear_eq key e l keyed drained,
          SameState-IsConsistent s {e = record e2 { completed_count = 0 }} held same
              (live-IsConsistent s {e = e2} held refl refl freed),
          ap s.lane_store.pending (same.lanes ∙ lanes) ∙ left,
          same.completed_count,
        )
