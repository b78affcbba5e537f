-- ===== src/Queue/Keys/Body.antt =====
-- The whole of `processItemBody`, and what another fiber can do in the middle of it.
use effect_pm.Prelude.{
  ℕ, ◌+◌, ◌≡◌, sym, ◌∙◌, ap, subst, true, false, none, some, List, [], ◌∷◌, String, str_eq_iff,
  tally, arith,
}
use effect_pm.Queue.Types.{InternalItem, Outcome, QueueEvent, EntryStatus, retries_spent}
use effect_pm.Queue.Engine.{Setup, Engine, publish_event, record_entry_event, release_active_key}
use effect_pm.Queue.Frame.{SameState-trans, publish_event_same, record_entry_event_same}
use effect_pm.Queue.Worker.{
  process_start, process_finish, process_settle, process_item_body, retry_internal, entry_at,
  cause_of,
}
use effect_pm.Queue.Keys.{has_key, pending, Counted, IsConsistent}
use effect_pm.Queue.Keys.Enqueue.{enqueue_internal_one}
use effect_pm.Queue.Keys.Release.{
  IsFree, release_active_key-lanes, release_active_key-is_shutdown, release_active_key_frees,
}
use effect_pm.Queue.Keys.Worker.{
  process_finish-lanes, process_start-IsConsistent, process_finish-IsConsistent,
  process_settle-IsConsistent,
}

module _ (s : Setup) (key : s.T → String) (keyed : s.config.key ≡ some key)
    (volatile : s.persist ≡ none) where
  -- No other live item has the key of an item that is live.
  live-IsFree :
      (i : InternalItem s.T) (held : List (InternalItem s.T)) (e e' : Engine s)
      → Counted s (i ∷ held) e
      → Counted s held e'
      → pending s e' ≡ pending s e
      → IsFree s i e'
  live-IsFree i held e e' before after same j n =
      ground (arith, before j, after j, str_eq_iff j j, ap (tally (has_key j)) same)

  -- The end of a run frees the item's key and then disposes of the item.
  pub end_of_run-IsConsistent :
      (held : List (InternalItem s.T)) (i : InternalItem s.T) (start end now : ℕ)
      (outcome : Outcome s.C) (e e' : Engine s)
      → IsConsistent s (i ∷ held) e
      → process_settle s i start end outcome now (process_finish s i start end outcome e) ≡ some e'
      → IsConsistent s held e'
  end_of_run-IsConsistent held i start end now outcome e e' c q =
      let n = process_finish s i start end outcome e in
      let finished = process_finish-IsConsistent s key keyed held i start end outcome e c in
      process_settle-IsConsistent s key keyed volatile held i start end outcome now n e'
        (λ again.
          live-IsFree i held e n c.counted finished.counted
            (ap s.lane_store.pending (process_finish-lanes s i start end outcome e)))
        finished q

  -- Run without interference, an item's processing keeps the dedup keys consistent: afterwards the
  -- item is live only if it was enqueued again.
  pub process_item_body-IsConsistent :
      (held : List (InternalItem s.T)) (i : InternalItem s.T) (start end : ℕ)
      (outcome : Outcome s.C) (e e' : Engine s)
      → IsConsistent s (i ∷ held) e
      → process_item_body s i start end outcome e ≡ some e'
      → IsConsistent s held e'
  unfolding process_item_body
  process_item_body-IsConsistent held i start end outcome e e' c q =
      end_of_run-IsConsistent held i start end end outcome (process_start s i start e) e'
        (process_start-IsConsistent s (i ∷ held) i start e c) q

  -- If another fiber enqueues an item with the same key after that key was released and before the
  -- failed item is retried, the retry releases the other item's key: two live items then share one.
  pub retry_internal_duplicates :
      (i : InternalItem s.T) (j : String) (outcome : Outcome s.C) (now : ℕ) (e e' : Engine s)
      → IsConsistent s [] e
      → i.key ≡ some j
      → key i.item ≡ j
      → s.key_set.has e.active_keys j ≡ true
      → e.is_shutdown ≡ false
      → retries_spent s.config i.retries ≡ false
      → retry_internal s i outcome now e ≡ some e'
      → tally (has_key j) (pending s e') ≡ 2
  unfolding retry_internal
  retry_internal_duplicates i j outcome now e e' c named keyed_i live up more q =
      let event =
        QueueEvent.retry_scheduled (entry_at s i none none) (cause_of s outcome) (i.retries + 2) in
      let e1 = publish_event event (record_entry_event EntryStatus.retried i e) in
      let same =
        SameState-trans (record_entry_event_same EntryStatus.retried i e)
          (publish_event_same event (record_entry_event EntryStatus.retried i e)) in
      let e2 = release_active_key i e1 in
      let lanes : e2.lanes ≡ e.lanes = release_active_key-lanes s i e1 ∙ same.lanes in
      let one =
        enqueue_internal_one s key keyed volatile i.item i.level (i.retries + 1)
          (some i.enqueued_at) now e2 e' (subst s.lane_store.IsValid (sym lanes) c.valid)
          (release_active_key-is_shutdown s i e1 ∙ same.is_shutdown ∙ up)
          (rw keyed_i (release_active_key_frees s i j e1 named)) (ground arith) in
      ground (
        arith,
        one,
        ap (λ l. tally (has_key (key i.item)) (s.lane_store.pending l)) lanes,
        c.counted (key i.item),
      )
