-- ===== src/Queue/Keys/Restore.antt =====
-- `releaseEncodedPending` of src/internal/queueResource.ts, in memory: what happens to the items
-- where one of them does not encode.
use effect_pm.Prelude.{
  ℕ, ◌+◌, ◌≤◌, ◌≡◌, sym, ap, subst, ◌∙◌, Bool, true, Option, none, some, List, [], ◌∷◌, String,
  str_eq_iff, tally, filter, filter-true, filter-false, if◌then◌else◌, Option-cases, inl, inr,
  arith,
}
use effect_pm.Queue.Types.{InternalItem, DedupeChange}
use effect_pm.Queue.Engine.{Setup, Engine, restore_active_key}
use effect_pm.Queue.Frame.{
  SameState, SameState-refl, SameState-trans, record_dedupe_key_changes_same,
  signal_worker_wake_same,
}
use effect_pm.Queue.Control.{
  keys_of, release_id_of, extract, extract_pending, encode_all, wake_if_any, restore_items,
  restore_pending, encoding_failed, release_encoded_pending,
}
use effect_pm.Queue.Keys.{has_key, pending, Counted, IsConsistent}
use effect_pm.Queue.Keys.Worker.{SameState-IsConsistent}
use effect_pm.Queue.Keys.Control.{extract_pending_lem, release_id_same}

module _ (s : Setup) where
  -- The keys of `is` are distinct and free.
  abbrev AreFree : List (InternalItem s.T) → Engine s → Type 0
  AreFree is e =
      (k : String) → tally (has_key k) is + (if s.key_set.has e.active_keys k then 1 else 0) ≤ 1

  restored_one :
      (i : InternalItem s.T) (is held : List (InternalItem s.T)) (l : s.lane_store.State)
      (e : Engine s)
      → AreFree (i ∷ is) e
      → Counted s held e
      → ((p : InternalItem s.T → Bool)
          → tally p (s.lane_store.pending l) ≡ (if p i then 1 else 0) + tally p (pending s e))
      → let e' = restore_active_key i (record e { lanes = l }) in
        Counted s held e' × AreFree is e' × (e'.lanes ≡ l)
  unfolding restore_active_key
  restored_one i is held l e free c counts = elim (Option-cases i.key) [
    | inl n ↦ (
      λ k. ground (arith, c k, counts (has_key k), free k),
      λ k. ground (arith, free k),
      ground arith,
    )
    | inr (j, n) ↦ (
      λ k. ground (
        arith,
        c k,
        counts (has_key k),
        free k,
        s.key_set.has-add e.active_keys j k,
        str_eq_iff j k,
      ),
      λ k. ground (arith, free k, s.key_set.has-add e.active_keys j k, str_eq_iff j k),
      ground arith,
    )
  ]

  restore_items_lem :
      (is held : List (InternalItem s.T)) (e e' : Engine s)
      → AreFree is e
      → IsConsistent s held e
      → restore_items s is e ≡ some e'
      → IsConsistent s held e'
        × ((p : InternalItem s.T → Bool)
            → tally p (pending s e') ≡ tally p is + tally p (pending s e))
  unfolding restore_items
  restore_items_lem [] held e e' free c q =
      let same : e ≡ e' = ground arith in
      (subst (IsConsistent s held) same c, λ p. rw same (omega arith))
  restore_items_lem (i ∷ is) held e e' free c q =
      elim (Option-cases (s.lane_store.offer e.lanes i i.level)) [
        | inl full ↦ ground arith
        | inr (l, offered) ↦
            let (valid, counts) = s.lane_store.offer_tally e.lanes l i i.level c.valid offered in
            let (counted, rest_free, lanes) = restored_one i is held l e free c.counted counts in
            let e1 = restore_active_key i (record e { lanes = l }) in
            let (after, tallies) =
              restore_items_lem is held e1 e' rest_free
                (record { valid = subst s.lane_store.IsValid (sym lanes) valid; counted = counted })
                (ground (arith, offered)) in
            (
              after,
              λ p.
                  omega
                    (arith, tallies p, counts p, ap (λ m. tally p (s.lane_store.pending m)) lanes),
            )
      ]

  wake_if_any_same :
      (is : List (InternalItem s.T)) (e : Engine s) → SameState e (wake_if_any s is e)
  wake_if_any_same [] e = SameState-refl e
  wake_if_any_same (i ∷ is) e = signal_worker_wake_same e

  restore_pending_lem :
      s.persist ≡ none
      → (is held : List (InternalItem s.T)) (now : ℕ) (e e' : Engine s) → AreFree is e
      → IsConsistent s held e
      → restore_pending s is now e ≡ some e'
      → IsConsistent s held e'
        × ((p : InternalItem s.T → Bool)
            → tally p (pending s e') ≡ tally p is + tally p (pending s e))
  unfolding restore_pending
  restore_pending_lem volatile is held now e e' free c q =
      elim (Option-cases (restore_items s is e)) [
        | inl full ↦ ground (arith, volatile, full)
        | inr (m, restored) ↦
            let (after, tallies) = restore_items_lem is held e m free c restored in
            let same = SameState-trans (wake_if_any_same is m) (
              record_dedupe_key_changes_same DedupeChange.added (keys_of is)
                (wake_if_any s is m)) in
            let ends : SameState m e' =
              subst (SameState m) (ground (arith, volatile, restored)) same in
            (
              SameState-IsConsistent s held ends after,
              λ p. ap (λ l. tally p (s.lane_store.pending l)) ends.lanes ∙ tallies p,
            )
      ]

  free_after :
      (held : List (InternalItem s.T)) (e e' : Engine s)
      → IsConsistent s held e
      → IsConsistent s held e'
      → pending s e' ≡ []
      → AreFree (pending s e) e'
  free_after held e e' c c' empty k =
      ground (arith, c.counted k, c'.counted k, ap (tally (has_key k)) empty)

  -- In a queue without a durable store whose dedup keys are consistent: where `releaseEncoded` fails
  -- since an item does not encode, it has put back everything that it took out. The queue holds the
  -- pending items that it held before, each as often, and its dedup keys are those of the live items.
  pub release_encoded_restores :
      {B : Type 0}
      → s.persist ≡ none
      → (encode : String → InternalItem s.T → Option B) (id : Option String) (now : ℕ)
        (held : List (InternalItem s.T)) (e e' : Engine s)
      → IsConsistent s held e
      → release_encoded_pending s encode id now e ≡ encoding_failed e'
      → IsConsistent s held e'
        × ((p : InternalItem s.T → Bool) → tally p (pending s e') ≡ tally p (pending s e))
  unfolding release_encoded_pending extract
  release_encoded_restores volatile encode id now held e e' c q =
      let e1 : Engine s = (release_id_of s id e).1 in
      let numbered = release_id_same s id e in
      let (e2, taken, consistent, left) =
        extract_pending_lem s (λ i. true) held e1 (SameState-IsConsistent s held numbered c) in
      let all : filter (λ i. true) (pending s e1) ≡ pending s e =
        filter-true (pending s e1) ∙ ap s.lane_store.pending numbered.lanes in
      let taken' : extract_pending s (λ i. true) e1 ≡ some (pending s e, e2) = rw all at taken in
      let empty : pending s e2 ≡ [] = left ∙ filter-false (pending s e1) in
      elim (Option-cases (encode_all s (encode (release_id_of s id e).0) (pending s e))) [
        | inr (out, fine) ↦ ground (arith, volatile, taken', fine)
        | inl bad ↦ elim (Option-cases (restore_pending s (pending s e) now e2)) [
          | inl full ↦ ground (arith, volatile, taken', bad, full)
          | inr (m, restored) ↦
              let same : m ≡ e' = ground (arith, volatile, taken', bad, restored) in
              let (after, tallies) =
                restore_pending_lem volatile (pending s e) held now e2 m
                  (free_after held e e2 c consistent empty) consistent restored in
              (
                subst (IsConsistent s held) same after,
                λ p.
                    ap (λ n. tally p (pending s n)) (sym same)
                    ∙ tallies p
                    ∙ omega (arith, ap (tally p) empty),
              )
        ]
      ]
