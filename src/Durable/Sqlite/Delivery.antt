-- ===== src/Durable/Sqlite/Delivery.antt =====
-- src/storage/sqlite/durableQueue.ts: what a client of the durable queue may rely on.
use effect_pm.Prelude.{
  ℕ, ◌≤◌, ◌≡◌, refl, true, false, none, some, List, [], ◌∷◌, ◌++◌, String, str_eq, str_eq_iff, ltb,
  any, find, tally, tally-append, All, All-append, All-map, Option-cases, Bool-cases, inl, inr,
  arith,
}
use effect_pm.Durable.Port.{DurableEntryInput, OfferResult, durable_priority_rank}
use effect_pm.Durable.Sqlite.{
  Row, has_id, is_live, update_where, new_row, escalate, insert_new, offer,
}
use effect_pm.Durable.Sqlite.Rows.{
  find-none, find-some, find_only, tally-All, tally-update_where, All-update,
}
use effect_pm.Durable.Sqlite.Invariant.{IsWellFormed}

module _ {P : Type 0} where
  -- The entry of a key is queued at the offered priority or better.
  abbrev pub IsQueued : String → String → ℕ → List (Row P) → Type 0
  IsQueued queue_id key rank rows =
      (tally (is_live queue_id key) rows ≡ 1)
      × All (λ r. is_live queue_id key r ≡ true → r.priority_rank ≤ rank) rows

  offered_new :
      (rows : List (Row P)) (now : ℕ) (entry : DurableEntryInput P) (key : String)
      → entry.dedup_key ≡ some key
      → find (is_live entry.queue_id key) rows ≡ none
      → any (has_id entry.id) rows ≡ false
      → IsQueued entry.queue_id key
          (durable_priority_rank entry.priority)
          (rows ++ new_row rows now entry ∷ [])
  offered_new rows now entry key keyed absent fresh =
      let r : Row P = new_row rows now entry in
      let none_live : tally (is_live entry.queue_id key) rows ≡ 0 =
        find-none (is_live entry.queue_id key) rows absent in
      (
        ground (
          arith,
          tally-append (is_live entry.queue_id key) rows (r ∷ []),
          str_eq_iff entry.queue_id entry.queue_id,
          str_eq_iff key key,
        ),
        All-append _ rows (r ∷ [])
            (All-map _ _ rows (λ x n t. ground arith)
              (tally-All (is_live entry.queue_id key) rows none_live))
            (λ t. omega arith, tt),
      )

  offered_again :
      (rows : List (Row P)) (now : ℕ) (entry : DurableEntryInput P) (key : String) (live : Row P)
      → IsWellFormed rows
      → find (is_live entry.queue_id key) rows ≡ some live
      → ltb (durable_priority_rank entry.priority) live.priority_rank ≡ false
      → IsQueued entry.queue_id key (durable_priority_rank entry.priority) rows
  offered_again rows now entry key live v found better =
      let one = v.live entry.queue_id key in
      (
        omega (arith, one, (find-some (is_live entry.queue_id key) rows live found).1),
        find_only (is_live entry.queue_id key) _ rows live found one (ground arith),
      )

  offered_higher :
      (rows : List (Row P)) (now : ℕ) (entry : DurableEntryInput P) (key : String) (live : Row P)
      → IsWellFormed rows
      → find (is_live entry.queue_id key) rows ≡ some live
      → IsQueued entry.queue_id key
          (durable_priority_rank entry.priority)
          (update_where (has_id live.id) (escalate entry.priority) rows)
  offered_higher rows now entry key live v found =
      let one = v.live entry.queue_id key in
      let at_id : str_eq live.id live.id ≡ true = ground (arith, str_eq_iff live.id live.id) in
      (
        omega (
          arith,
          one,
          (find-some (is_live entry.queue_id key) rows live found).1,
          tally-update_where (is_live entry.queue_id key) (has_id live.id) (escalate entry.priority)
              rows (λ r. refl),
        ),
        All-update (λ r. is_live entry.queue_id key r ≡ true → has_id live.id r ≡ true) _
            (has_id live.id) (escalate entry.priority) rows (λ r w q t. omega arith)
            (λ r w q t. let other = q t in ground arith)
            (find_only (is_live entry.queue_id key) _ rows live found one at_id),
      )

  -- Whichever of inserted, escalated and deduplicated an offer with a dedup key answers, its
  -- queue then has exactly one pending entry of that key, at the offered priority or a higher one.
  pub offer_once :
      (rows : List (Row P)) (now : ℕ) (entry : DurableEntryInput P) (key : String)
      (result : OfferResult)
      → IsWellFormed rows
      → entry.dedup_key ≡ some key
      → (offer rows now entry).0 ≡ some result
      → IsQueued entry.queue_id key (durable_priority_rank entry.priority) (offer rows now entry).1
  unfolding offer insert_new
  offer_once rows now entry key result v keyed ok =
      elim (Option-cases (find (is_live entry.queue_id key) rows)) [
        | inl absent ↦ elim (Bool-cases (any (has_id entry.id) rows)) [
          | inl taken ↦ ground arith
          | inr fresh ↦
              rw (offer, keyed, absent, fresh) (offered_new rows now entry key keyed absent fresh)
        ]
        | inr (live, found) ↦
            elim (Bool-cases (ltb (durable_priority_rank entry.priority) live.priority_rank)) [
              | inl e ↦ rw (offer, keyed, found, e) (offered_higher rows now entry key live v found)
              | inr e ↦
                  rw (offer, keyed, found, e) (offered_again rows now entry key live v found e)
            ]
      ]
