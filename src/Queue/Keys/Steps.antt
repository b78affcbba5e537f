-- ===== src/Queue/Keys/Steps.antt =====
-- Any interleaving of an in-memory queue's operations (src/internal/queueResource.ts), as a relation
-- on the engine's states, the items that workers hold and those that are ending.
use effect_pm.Prelude.{
  ℕ, ◌≤◌, ◌≡◌, refl, sym, ap, subst, ◌∙◌, true, false, Option, none, some, List, [], ◌∷◌, ◌++◌,
  String, tally, tally-append, ℤ, arith,
}
use effect_pm.Queue.Types.{
  InternalItem, QueueEntry, QueueEntrySelector, Outcome, EntryStatus, LifecycleTag,
}
use effect_pm.Queue.Engine.{Setup, Engine, record_entry_event}
use effect_pm.Queue.Frame.{record_entry_event_same, record_lifecycle_event_same}
use effect_pm.Queue.Enqueue.{enqueue_internal}
use effect_pm.Queue.Control.{RouteKind, release_pending, route_pending, clear}
use effect_pm.Queue.Worker.{
  took, take_next, process_start, process_finish, process_settle, skip_rate_limited_item,
}
use effect_pm.Queue.Shutdown.{pause, resume}
use effect_pm.Queue.Keys.{has_key, pending, IsConsistent}
use effect_pm.Queue.Keys.Enqueue.{enqueue_internal-IsConsistent}
use effect_pm.Queue.Keys.Release.{IsFree, release_dedupe_key-lanes, release_dedupe_key-Counted}
use effect_pm.Queue.Keys.Worker.{
  live-IsConsistent, SameState-IsConsistent, take_next-IsConsistent, process_start-IsConsistent,
  process_finish-IsConsistent, process_settle-IsConsistent, ends_in_retry,
}
use effect_pm.Queue.Keys.Control.{release_pending_lem, route_pending_lem, clear_lem}

abbrev or_left : {B : Type 0} → B → Option B → B
or_left b none = b
or_left b (some b') = b'

abbrev second_of : {A B : Type 0} → Option (A × B) → Option B
second_of none = none
second_of (some (a, b)) = some b

state_of :
    {A B : Type 0} (a a' : A) (b b' : B)
    → ◌≡◌ {A = Option (A × B)} (some (a, b)) (some (a', b'))
    → b ≡ b'
state_of a a' b b' h = ap (λ o. or_left b (second_of o)) h

module _ (s : Setup) where
  -- What one fiber does to the engine without being interrupted, what it adds to the items that
  -- workers hold or takes from them, and what it does to the items that are ending: their keys are
  -- released and their fibers still have to settle them. Starting, finishing and settling an item
  -- are three steps, since the source runs effects between them. An item that is settled by
  -- enqueueing it again is one whose key no other item has taken in between.
  pub data Reachable (first : Engine s)
      : List (InternalItem s.T) → List (InternalItem s.T) → Engine s → Type 0 where
    at_first : Reachable first [] [] first
    enqueued :
        (items : List s.T) (level : ℤ) (retries : ℕ) (at : Option ℕ) (now : ℕ)
        (held ending : List (InternalItem s.T)) (e e' : Engine s)
        → Reachable first held ending e
        → enqueue_internal s items level retries at now e ≡ some e'
        → Reachable first held ending e'
    taken :
        (i : InternalItem s.T) (held ending : List (InternalItem s.T)) (e e' : Engine s)
        → Reachable first held ending e
        → take_next s e ≡ took i e'
        → Reachable first (i ∷ held) ending e'
    started :
        (i : InternalItem s.T) (now : ℕ) (held ending : List (InternalItem s.T)) (e : Engine s)
        → Reachable first held ending e
        → Reachable first held ending (process_start s i now e)
    finished :
        (i : InternalItem s.T) (start end : ℕ) (outcome : Outcome s.C)
        (before after ending : List (InternalItem s.T)) (e : Engine s)
        → Reachable first (before ++ i ∷ after) ending e
        → Reachable first (before ++ after) (i ∷ ending) (process_finish s i start end outcome e)
    settled :
        (i : InternalItem s.T) (start end now : ℕ) (outcome : Outcome s.C)
        (held before after : List (InternalItem s.T)) (e e' : Engine s)
        → Reachable first held (before ++ i ∷ after) e
        → (ends_in_retry s i start end outcome ≡ true → IsFree s i e)
        → process_settle s i start end outcome now e ≡ some e'
        → Reachable first held (before ++ after) e'
    skipped :
        (i : InternalItem s.T) (before after ending : List (InternalItem s.T)) (e : Engine s)
        → Reachable first (before ++ i ∷ after) ending e
        → Reachable first (before ++ after) ending (skip_rate_limited_item s i e)
    released :
        (id : Option String) (now : ℕ) (held ending : List (InternalItem s.T)) (e e' : Engine s)
        (entries : List (QueueEntry s.T))
        → Reachable first held ending e
        → release_pending s id now e ≡ some (entries, e')
        → Reachable first held ending e'
    routed :
        (kind : RouteKind) (reason : String) (selector : QueueEntrySelector s.T) (now : ℕ)
        (held ending : List (InternalItem s.T)) (e e' : Engine s) (entries : List (QueueEntry s.T))
        → Reachable first held ending e
        → route_pending s kind reason selector now e ≡ some (entries, e')
        → Reachable first held ending e'
    cleared :
        (count : ℕ) (held ending : List (InternalItem s.T)) (e e' : Engine s)
        → Reachable first held ending e
        → clear s e ≡ some (count, e')
        → Reachable first held ending e'
    paused :
        (held ending : List (InternalItem s.T)) (e : Engine s)
        → Reachable first held ending e
        → Reachable first held ending (pause s e)
    resumed :
        (held ending : List (InternalItem s.T)) (e : Engine s)
        → Reachable first held ending e
        → Reachable first held ending (resume s e)

  to_front :
      (i : InternalItem s.T) (before after : List (InternalItem s.T)) (e : Engine s)
      → IsConsistent s (before ++ i ∷ after) e
      → IsConsistent s (i ∷ before ++ after) e
  to_front i before after e c = record {
    valid = c.valid;
    counted = λ k. omega (
      arith,
      c.counted k,
      tally-append (has_key k) before (i ∷ after),
      tally-append (has_key k) before after,
    );
  }

  module _ (key : s.T → String) (keyed : s.config.key ≡ some key)
      (volatile : s.persist ≡ none) where
    skip-IsConsistent :
        (i : InternalItem s.T) (held : List (InternalItem s.T)) (e : Engine s)
        → IsConsistent s (i ∷ held) e
        → IsConsistent s held (skip_rate_limited_item s i e)
    unfolding skip_rate_limited_item
    skip-IsConsistent i held e c =
        let same = record_entry_event_same EntryStatus.dropped i e in
        let c1 = SameState-IsConsistent s (i ∷ held) same c in
        let e1 = record_entry_event EntryStatus.dropped i e in
        record {
          valid = subst s.lane_store.IsValid (sym (release_dedupe_key-lanes s i e1)) c1.valid;
          counted = release_dedupe_key-Counted s key keyed i held e1 c1.counted;
        }

    -- In a queue with a key function and no durable store, started where the active keys are those
    -- of the pending items: however enqueues, takes, starts, finishes and settlements of runs,
    -- rate-limit skips, releases, routings, clears, pauses and resumes follow one another, each
    -- running to its end undisturbed and none waiting on a full lane, and provided that an item is enqueued again after a failed run
    -- only while no live item has taken its key since the run released it, every active dedup key
    -- belongs to exactly one item that is pending or held by a worker, and every other key to none.
    pub Reachable-IsConsistent :
        (first : Engine s) (held ending : List (InternalItem s.T)) (e : Engine s)
        → IsConsistent s [] first
        → Reachable first held ending e
        → IsConsistent s held e
    unfolding pause resume
    Reachable-IsConsistent first _ _ _ c at_first = c
    Reachable-IsConsistent first _ _ _ c
          (enqueued items level retries at now held ending e e' r q) =
        enqueue_internal-IsConsistent s key keyed volatile items level retries at now held e e'
          (Reachable-IsConsistent first held ending e c r) q
    Reachable-IsConsistent first _ _ _ c (taken i held ending e e' r q) =
        take_next-IsConsistent s held i e e' (Reachable-IsConsistent first held ending e c r) q
    Reachable-IsConsistent first _ _ _ c (started i now held ending e r) =
        process_start-IsConsistent s held i now e (Reachable-IsConsistent first held ending e c r)
    Reachable-IsConsistent first _ _ _ c (finished i start end outcome before after ending e r) =
        process_finish-IsConsistent s key keyed (before ++ after) i start end outcome e (
          to_front i before after e
            (Reachable-IsConsistent first (before ++ i ∷ after) ending e c r))
    Reachable-IsConsistent first _ _ _ c
          (settled i start end now outcome held before after e e' r free q) =
        process_settle-IsConsistent s key keyed volatile held i start end outcome now e e' free
          (Reachable-IsConsistent first held (before ++ i ∷ after) e c r) q
    Reachable-IsConsistent first _ _ _ c (skipped i before after ending e r) =
        skip-IsConsistent i (before ++ after) e (
          to_front i before after e
            (Reachable-IsConsistent first (before ++ i ∷ after) ending e c r))
    Reachable-IsConsistent first _ _ _ c (released id now held ending e e' entries r q) =
        let (e2, done, after, left) =
          release_pending_lem s volatile id now held e
            (Reachable-IsConsistent first held ending e c r) in
        subst (IsConsistent s held) (state_of _ _ _ _ (sym done ∙ q)) after
    Reachable-IsConsistent first _ _ _ c
          (routed kind reason selector now held ending e e' entries r q) =
        let (e2, done, after, left) =
          route_pending_lem s volatile kind reason selector now held e
            (Reachable-IsConsistent first held ending e c r) in
        subst (IsConsistent s held) (state_of _ _ _ _ (sym done ∙ q)) after
    Reachable-IsConsistent first _ _ _ c (cleared count held ending e e' r q) =
        let (e2, done, after, left, count_reset) =
          clear_lem s volatile key keyed held e (Reachable-IsConsistent first held ending e c r) in
        subst (IsConsistent s held) (state_of _ _ _ _ (sym done ∙ q)) after
    Reachable-IsConsistent first _ _ _ c (paused held ending e r) =
        SameState-IsConsistent s {e = record e { latch_open = false; paused = true }} held
          (record_lifecycle_event_same LifecycleTag.paused
            (record e { latch_open = false; paused = true }))
          (live-IsConsistent s held refl refl (Reachable-IsConsistent first held ending e c r))
    Reachable-IsConsistent first _ _ _ c (resumed held ending e r) =
        SameState-IsConsistent s {e = record e { latch_open = true; paused = false }} held
          (record_lifecycle_event_same LifecycleTag.resumed
            (record e { latch_open = true; paused = false }))
          (live-IsConsistent s held refl refl (Reachable-IsConsistent first held ending e c r))

    -- Hence no two pending items ever share a dedup key, under the same conditions.
    pub Reachable-distinct :
        (first : Engine s) (held ending : List (InternalItem s.T)) (e : Engine s) (k : String)
        → IsConsistent s [] first
        → Reachable first held ending e
        → tally (has_key k) (pending s e) ≤ 1
    Reachable-distinct first held ending e k c r =
        ground (arith, (Reachable-IsConsistent first held ending e c r).counted k)
