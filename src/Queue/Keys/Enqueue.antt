-- ===== src/Queue/Keys/Enqueue.antt =====
-- Enqueueing keeps the dedup keys consistent.
use effect_pm.Prelude.{
  ℕ, ◌+◌, ◌≡◌, refl, sym, ap, ◌∙◌, subst, Bool, false, Option, none, some, List, [], ◌∷◌, ◌++◌,
  String, str_eq_iff, tally, tally-append, ℤ, Bool-cases, Option-cases, arith, inl, inr,
}
use effect_pm.Queue.Types.{InternalItem, EntryStatus, DedupeChange}
use effect_pm.Queue.Engine.{
  Setup, Engine, record_entry_events, record_dedupe_key_changes, signal_worker_wake, publish_event,
}
use effect_pm.Queue.Frame.{
  SameState, SameState-trans, record_entry_events_same, record_dedupe_key_changes_same,
  signal_worker_wake_same, publish_event_same,
}
use effect_pm.Queue.Enqueue.{
  admit, collect, offer_items, enqueue_collected, enqueue_lanes, enqueue_internal, enqueued_event,
  at_or,
}
use effect_pm.Queue.Keys.{has_key, pending, Counted, IsConsistent}

module _ (s : Setup) (key : s.T → String) (keyed : s.config.key ≡ some key) where
  -- An item is admitted only if its key is free, and takes it.
  admit-Counted :
      (level : ℤ) (retries at : ℕ) (item : s.T) (held : List (InternalItem s.T)) (e : Engine s)
      → Counted s held e
      → Counted s ((admit s level retries at item e).0 ++ held) (admit s level retries at item e).2
  unfolding admit
  admit-Counted level retries at item held e h k =
      ground
        (arith, keyed, h k, s.key_set.has-add e.active_keys (key item) k, str_eq_iff (key item) k)

  admit-lanes :
      (level : ℤ) (retries at : ℕ) (item : s.T) (e : Engine s)
      → (admit s level retries at item e).2.lanes ≡ e.lanes
  unfolding admit
  admit-lanes level retries at item e = ground (arith, keyed)

  collect-lanes :
      (level : ℤ) (retries at : ℕ) (items : List s.T) (e : Engine s)
      → (collect s level retries at items e).2.lanes ≡ e.lanes
  unfolding collect
  collect-lanes level retries at [] e = refl
  collect-lanes level retries at (item ∷ items) e =
      collect-lanes level retries at items (admit s level retries at item e).2
      ∙ admit-lanes level retries at item e

  -- What the loop collects is counted as held.
  collect-Counted :
      (level : ℤ) (retries at : ℕ) (items : List s.T) (held : List (InternalItem s.T))
      (e : Engine s)
      → Counted s held e
      → Counted s
          ((collect s level retries at items e).0 ++ held)
          (collect s level retries at items e).2
  unfolding collect
  collect-Counted level retries at [] held e h k = h k
  collect-Counted level retries at (item ∷ items) held e h k =
      let (is, ks, e') = admit s level retries at item e in
      let (js, ls, e'') = collect s level retries at items e' in
      omega (
        arith,
        collect-Counted level retries at items (is ++ held) e'
            (admit-Counted level retries at item held e h) k,
        tally-append (has_key k) js (is ++ held),
        tally-append (has_key k) is held,
        tally-append (has_key k) (is ++ js) held,
        tally-append (has_key k) is js,
      )

  pub offer_items_lem :
      (is : List (InternalItem s.T)) (l l' : s.lane_store.State)
      → s.lane_store.IsValid l
      → offer_items s is l ≡ some l'
      → s.lane_store.IsValid l'
        × ((p : InternalItem s.T → Bool)
            → tally p (s.lane_store.pending l') ≡ tally p is + tally p (s.lane_store.pending l))
  unfolding offer_items
  offer_items_lem [] l l' v h =
      let same : l ≡ l' = ground arith in
      (subst s.lane_store.IsValid same v, λ p. rw same (omega arith))
  offer_items_lem (i ∷ is) l l' v h = elim (Option-cases (s.lane_store.offer l i i.level)) [
    | inl full ↦ ground arith
    | inr (m, offered) ↦
        let (valid, counts) = s.lane_store.offer_tally l m i i.level v offered in
        let (valid', counts') = offer_items_lem is m l' valid (ground arith) in
        (valid', λ p. omega (arith, counts p, counts' p))
  ]

  -- The records that follow an accepted offer change neither lanes nor keys.
  recorded_same :
      (level : ℤ) (is : List (InternalItem s.T)) (ks : List String) (e : Engine s)
      → SameState e (
          publish_event (enqueued_event s level is) (
            signal_worker_wake (
              record_dedupe_key_changes DedupeChange.added ks
                (record_entry_events EntryStatus.enqueued is e))))
  recorded_same level is ks e =
      SameState-trans (record_entry_events_same EntryStatus.enqueued is e) (
        SameState-trans (record_dedupe_key_changes_same DedupeChange.added ks _)
          (SameState-trans (signal_worker_wake_same _) (publish_event_same _ _)))

  -- An accepted batch is added to what is pending, and nothing else changes there.
  pub enqueue_collected_lem :
      (level : ℤ) (is : List (InternalItem s.T)) (ks : List String) (e e' : Engine s)
      → s.lane_store.IsValid e.lanes
      → enqueue_collected s level is ks e ≡ some e'
      → s.lane_store.IsValid e'.lanes
        × ((p : InternalItem s.T → Bool)
            → tally p (pending s e') ≡ tally p is + tally p (pending s e))
        × (e'.active_keys ≡ e.active_keys)
  unfolding enqueue_collected
  enqueue_collected_lem level [] ks e e' v q =
      let same : e ≡ e' = ground arith in
      (
        subst (λ (m : Engine s). s.lane_store.IsValid m.lanes) same v,
        λ p. rw same (omega arith),
        rw same,
      )
  enqueue_collected_lem level (i ∷ is) ks e e' v q =
      elim (Option-cases (offer_items s (i ∷ is) e.lanes)) [
        | inl full ↦ ground arith
        | inr (l, offered) ↦
            let (valid, counts) = offer_items_lem (i ∷ is) e.lanes l v offered in
            let same = recorded_same level (i ∷ is) ks (record e { lanes = l }) in
            let ends : SameState (record e { lanes = l }) e' =
              subst (SameState (record e { lanes = l })) (ground arith) same in
            (
              subst s.lane_store.IsValid (sym ends.lanes) valid,
              λ p. rw ends.lanes (counts p),
              ends.active_keys,
            )
      ]

  pub enqueue_lanes-IsConsistent :
      (items : List s.T) (level : ℤ) (retries at : ℕ) (held : List (InternalItem s.T))
      (e e' : Engine s)
      → IsConsistent s held e
      → enqueue_lanes s items level retries at e ≡ some e'
      → IsConsistent s held e'
  unfolding enqueue_lanes
  enqueue_lanes-IsConsistent items level retries at held e e' c q =
      let (is, ks, m) = collect s level retries at items e in
      let (valid, counts, keys) =
        enqueue_collected_lem level is ks m e'
          (subst s.lane_store.IsValid (sym (collect-lanes level retries at items e)) c.valid) q in
      record {
        valid = valid;
        counted = λ k. rw keys (
            omega (
              arith,
              counts (has_key k),
              collect-Counted level retries at items held e c.counted k,
              tally-append (has_key k) is held,
            ));
      }

  -- In a queue without a durable store, an enqueue that does not wait keeps one live item to an
  -- active key.
  pub enqueue_internal-IsConsistent :
      s.persist ≡ none
      → (items : List s.T) (level : ℤ) (retries : ℕ) (at : Option ℕ) (now : ℕ)
        (held : List (InternalItem s.T)) (e e' : Engine s)
      → IsConsistent s held e
      → enqueue_internal s items level retries at now e ≡ some e'
      → IsConsistent s held e'
  unfolding enqueue_internal
  enqueue_internal-IsConsistent volatile items level retries at now held e e' c q =
      elim (Bool-cases e.is_shutdown) [
        | inl down ↦ let same : e ≡ e' = ground arith in subst (IsConsistent s held) same c
        | inr up ↦
            enqueue_lanes-IsConsistent items level retries (at_or at now) held e e' c (ground arith)
      ]

  tally-admit :
      (level : ℤ) (retries at : ℕ) (item : s.T) (e : Engine s)
      → s.key_set.has e.active_keys (key item) ≡ false
      → tally (has_key (key item)) (admit s level retries at item e).0 ≡ 1
  unfolding admit
  tally-admit level retries at item e free = ground (arith, keyed, str_eq_iff (key item) (key item))

  tally-collect :
      (level : ℤ) (retries at : ℕ) (item : s.T) (e : Engine s)
      → s.key_set.has e.active_keys (key item) ≡ false
      → tally (has_key (key item)) (collect s level retries at (item ∷ []) e).0 ≡ 1
  unfolding collect
  tally-collect level retries at item e free = omega (
    arith,
    tally-append (has_key (key item)) (admit s level retries at item e).0 [],
    tally-admit level retries at item e free,
  )

  -- An item whose key is not active becomes pending, once.
  pub enqueue_internal_one :
      s.persist ≡ none
      → (item : s.T) (level : ℤ) (retries : ℕ) (at : Option ℕ) (now : ℕ) (e e' : Engine s)
      → s.lane_store.IsValid e.lanes
      → e.is_shutdown ≡ false
      → s.key_set.has e.active_keys (key item) ≡ false
      → enqueue_internal s (item ∷ []) level retries at now e ≡ some e'
      → tally (has_key (key item)) (pending s e') ≡ 1 + tally (has_key (key item)) (pending s e)
  unfolding enqueue_internal enqueue_lanes
  enqueue_internal_one volatile item level retries at now e e' v up free q =
      let (is, ks, m) = collect s level retries (at_or at now) (item ∷ []) e in
      let same : m.lanes ≡ e.lanes = collect-lanes level retries (at_or at now) (item ∷ []) e in
      let (valid, counts, keys) =
        enqueue_collected_lem level is ks m e' (subst s.lane_store.IsValid (sym same) v)
          (ground (arith, volatile)) in
      omega (
        arith,
        counts (has_key (key item)),
        ap (λ l. tally (has_key (key item)) (s.lane_store.pending l)) same,
        tally-collect level retries (at_or at now) item e free,
      )
