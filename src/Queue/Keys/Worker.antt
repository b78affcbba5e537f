-- ===== src/Queue/Keys/Worker.antt =====
-- A worker's handling of an item keeps the dedup keys consistent.
use effect_pm.Prelude.{
  ℕ, ◌+◌, ◌-◌, ◌≡◌, sym, ◌∙◌, subst, Bool, true, false, not, ◌&&◌, none, some, List, [], ◌∷◌,
  String, arith, Option-cases, Bool-cases, inl, inr,
}
use effect_pm.Queue.Types.{
  InternalItem, QueueEntry, QueueEvent, EntryStatus, Outcome, success, failure, Disposition, retry,
  dead_letter, drop, default, retries_spent, auto_re_enqueue,
}
use effect_pm.Queue.Engine.{Setup, Engine, publish_event, record_entry_event, release_active_key}
use effect_pm.Queue.Frame.{
  SameState, SameState-trans, publish_event_same, record_entry_event_same, record_queue_entry_same,
  wake_drained_same,
}
use effect_pm.Queue.Control.{
  RouteKind, to_dead_letter, to_drop, route_entry, status_of, route_event,
}
use effect_pm.Queue.Worker.{
  take_next, took, entry_at, outcome_status, outcome_event, cause_of, disposition_of, process_start,
  process_finish, process_settle, dispose, retry_internal, release_dedupe_key,
}
use effect_pm.Queue.Keys.{has_key, IsConsistent}
use effect_pm.Queue.Keys.Enqueue.{enqueue_internal-IsConsistent}
use effect_pm.Queue.Keys.Release.{
  IsFree, release_active_key_free, release_active_key-lanes, release_dedupe_key-lanes,
  release_dedupe_key-Counted,
}

module _ (s : Setup) where
  -- Consistency is about lanes and keys alone.
  pub live-IsConsistent :
      {e e' : Engine s} (held : List (InternalItem s.T))
      → e'.lanes ≡ e.lanes
      → e'.active_keys ≡ e.active_keys
      → IsConsistent s held e
      → IsConsistent s held e'
  live-IsConsistent held lanes keys c = record {
    valid = subst s.lane_store.IsValid (sym lanes) c.valid;
    counted = λ k. rw (lanes, keys) (c.counted k);
  }

  pub SameState-IsConsistent :
      {e e' : Engine s} (held : List (InternalItem s.T))
      → SameState e e'
      → IsConsistent s held e
      → IsConsistent s held e'
  SameState-IsConsistent held same = live-IsConsistent held same.lanes same.active_keys

  -- An item that a worker takes is live still.
  pub take_next-IsConsistent :
      (held : List (InternalItem s.T)) (i : InternalItem s.T) (e e' : Engine s)
      → IsConsistent s held e
      → take_next s e ≡ took i e'
      → IsConsistent s (i ∷ held) e'
  unfolding take_next
  take_next-IsConsistent held i e e' c q = elim (Option-cases (s.lane_store.poll e.lanes).0) [
    | inl idle ↦ ground (arith, idle)
    | inr (j, polled) ↦
        let taken : s.lane_store.poll e.lanes ≡ (some i, e'.lanes) = ground arith in
        let (valid, counts) = s.lane_store.poll_some e.lanes e'.lanes i c.valid taken in
        record { valid = valid; counted = λ k. ground (arith, counts (has_key k), c.counted k, q) }
  ]

  pub process_start-IsConsistent :
      (held : List (InternalItem s.T)) (i : InternalItem s.T) (now : ℕ) (e : Engine s)
      → IsConsistent s held e
      → IsConsistent s held (process_start s i now e)
  unfolding process_start
  process_start-IsConsistent held i now e c =
      let same =
        SameState-trans (record_entry_event_same EntryStatus.started i e)
          (publish_event_same (QueueEvent.started (entry_at s i (some now) none)) _) in
      live-IsConsistent held same.lanes same.active_keys c

  pub process_finish-lanes :
      (i : InternalItem s.T) (start end : ℕ) (outcome : Outcome s.C) (e : Engine s)
      → (process_finish s i start end outcome e).lanes ≡ e.lanes
  unfolding process_finish
  process_finish-lanes i start end outcome e =
      let e1 : Engine s = record e { completed_count = e.completed_count + 1 } in
      release_dedupe_key-lanes s i (record_entry_event (outcome_status s outcome) i e1)
      ∙ (record_entry_event_same (outcome_status s outcome) i e1).lanes

  -- A failed item with this disposition is enqueued again.
  unfoldable pub re_enqueues : Disposition → InternalItem s.T → Bool
  re_enqueues retry i = not (retries_spent s.config i.retries)
  re_enqueues default i = auto_re_enqueue s.config && not (retries_spent s.config i.retries)
  re_enqueues dead_letter i = false
  re_enqueues drop i = false

  -- An item whose run ended so is enqueued again.
  unfoldable pub ends_in_retry : InternalItem s.T → ℕ → ℕ → Outcome s.C → Bool
  ends_in_retry i start end success = false
  ends_in_retry i start end (failure cause) =
      re_enqueues (disposition_of s (entry_at s i (some start) (some end)) cause) i

  module _ (key : s.T → String) (keyed : s.config.key ≡ some key) where
    -- The end of an item's run frees its key, before anything is decided about the item.
    pub process_finish-IsConsistent :
        (held : List (InternalItem s.T)) (i : InternalItem s.T) (start end : ℕ)
        (outcome : Outcome s.C) (e : Engine s)
        → IsConsistent s (i ∷ held) e
        → IsConsistent s held (process_finish s i start end outcome e)
    unfolding process_finish
    process_finish-IsConsistent held i start end outcome e c =
        let e1 : Engine s = record e { completed_count = e.completed_count + 1 } in
        let e2 = record_entry_event (outcome_status s outcome) i e1 in
        let recorded = record_entry_event_same (outcome_status s outcome) i e1 in
        let e3 = release_dedupe_key s i e2 in
        let entry = entry_at s i (some start) (some end) in
        let exited = publish_event_same (QueueEvent.exit entry outcome (end - start)) e3 in
        let published =
          publish_event_same (outcome_event s entry outcome (end - start))
            (publish_event (QueueEvent.exit entry outcome (end - start)) e3) in
        let before : IsConsistent s (i ∷ held) e2 =
          live-IsConsistent (i ∷ held) recorded.lanes recorded.active_keys c in
        let freed : IsConsistent s held e3 = record {
          valid = subst s.lane_store.IsValid (sym (release_dedupe_key-lanes s i e2)) before.valid;
          counted = release_dedupe_key-Counted s key keyed i held e2 before.counted;
        } in
        let after = SameState-trans exited published in
        live-IsConsistent held after.lanes after.active_keys freed

    module _ (volatile : s.persist ≡ none) where
      -- A retry is consistent where the key of the item has stayed free, if it enqueues the item.
      pub retry_internal-IsConsistent :
          (held : List (InternalItem s.T)) (i : InternalItem s.T) (outcome : Outcome s.C) (now : ℕ)
          (e e' : Engine s)
          → (retries_spent s.config i.retries ≡ false → IsFree s i e)
          → IsConsistent s held e
          → retry_internal s i outcome now e ≡ some e'
          → IsConsistent s held e'
      unfolding retry_internal
      retry_internal-IsConsistent held i outcome now e e' free c q =
          elim (Bool-cases (retries_spent s.config i.retries)) [
            | inl spent ↦
                let event =
                  QueueEvent.retry_exhausted (entry_at s i none none) (cause_of s outcome) in
                let same =
                  SameState-trans (publish_event_same event e)
                    (record_entry_event_same EntryStatus.exhausted i (publish_event event e)) in
                SameState-IsConsistent held (subst (SameState e) (ground arith) same) c
            | inr more ↦
                let event =
                  QueueEvent.retry_scheduled (entry_at s i none none) (cause_of s outcome)
                    (i.retries + 2) in
                let e1 = publish_event event (record_entry_event EntryStatus.retried i e) in
                let same =
                  SameState-trans (record_entry_event_same EntryStatus.retried i e)
                    (publish_event_same event (record_entry_event EntryStatus.retried i e)) in
                let c1 = SameState-IsConsistent held same c in
                let free1 : IsFree s i e1 = λ j n. rw same.active_keys (free more j n) in
                enqueue_internal-IsConsistent s key keyed volatile (i.item ∷ []) i.level
                  (i.retries + 1) (some i.enqueued_at) now held (release_active_key i e1) e'
                  (record {
                    valid =
                        subst s.lane_store.IsValid (sym (release_active_key-lanes s i e1)) c1.valid;
                    counted = release_active_key_free s i held e1 free1 c1.counted;
                  })
                  (ground arith)
          ]

      route_entry_same :
          (kind : RouteKind) (reason : String) (entry : QueueEntry s.T) (e : Engine s)
          → SameState e (route_entry s kind reason entry e)
      unfolding route_entry
      route_entry_same kind reason entry e =
          SameState-trans (record_queue_entry_same (status_of kind) entry e) (
            SameState-trans (publish_event_same (route_event kind (entry ∷ []) reason) _)
              (wake_drained_same _))

      dispose-IsConsistent :
          (d : Disposition) (held : List (InternalItem s.T)) (i : InternalItem s.T)
          (entry : QueueEntry s.T) (outcome : Outcome s.C) (now : ℕ) (e e' : Engine s)
          → (re_enqueues d i ≡ true → IsFree s i e)
          → IsConsistent s held e
          → dispose s d i entry outcome now e ≡ some e'
          → IsConsistent s held e'
      unfolding dispose re_enqueues
      dispose-IsConsistent retry held i entry outcome now e e' free c q =
          retry_internal-IsConsistent held i outcome now e e' (λ more. free (ground arith)) c
            (ground (arith, volatile))
      dispose-IsConsistent dead_letter held i entry outcome now e e' free c q =
          let same = route_entry_same to_dead_letter "onFailure" entry e in
          SameState-IsConsistent held (subst (SameState e) (ground (arith, volatile)) same) c
      dispose-IsConsistent drop held i entry outcome now e e' free c q =
          let same = route_entry_same to_drop "onFailure" entry e in
          SameState-IsConsistent held (subst (SameState e) (ground (arith, volatile)) same) c
      dispose-IsConsistent default held i entry outcome now e e' free c q =
          elim (Bool-cases (auto_re_enqueue s.config)) [
            | inl again ↦
                retry_internal-IsConsistent held i outcome now e e' (λ more. free (ground arith)) c
                  (ground (arith, volatile))
            | inr once ↦
                let same : e ≡ e' = ground (arith, volatile) in subst (IsConsistent s held) same c
          ]

      -- What follows the exit events is consistent where the key has stayed free, if the item is
      -- enqueued again.
      pub process_settle-IsConsistent :
          (held : List (InternalItem s.T)) (i : InternalItem s.T) (start end : ℕ)
          (outcome : Outcome s.C) (now : ℕ) (e e' : Engine s)
          → (ends_in_retry i start end outcome ≡ true → IsFree s i e)
          → IsConsistent s held e
          → process_settle s i start end outcome now e ≡ some e'
          → IsConsistent s held e'
      unfolding process_settle ends_in_retry
      process_settle-IsConsistent held i start end success now e e' free c q =
          SameState-IsConsistent held
            (subst (SameState e) (ground (arith, volatile)) (wake_drained_same e)) c
      process_settle-IsConsistent held i start end (failure cause) now e e' free c q =
          let entry = entry_at s i (some start) (some end) in
          elim (Option-cases
            (dispose s (disposition_of s entry cause) i entry (failure cause) now e)) [
              | inl full ↦ ground arith
              | inr (m, disposed) ↦
                  SameState-IsConsistent held
                    (subst (SameState m) (ground arith) (wake_drained_same m))
                    (dispose-IsConsistent (disposition_of s entry cause) held i entry
                      (failure cause) now e m free c disposed)
            ]
