-- ===== src/Durable/Sqlite/Settle.antt =====
-- src/storage/sqlite/durableQueue.ts: failed attempts, drains and sizes.
use effect_pm.Prelude.{
  ℕ, ◌⊎◌, suc, ◌+◌, ◌≤◌, ◌<◌, ◌≡◌, refl, ap, subst, Bool, true, false, not, ◌&&◌, none, some, List,
  [], ◌∷◌, String, leb, filter, find, tally, tally-filter, tally-sort, tally-true, Bool-cases, inl,
  inr, arith, sort, length, map,
}
use effect_pm.Lanes.Levels.{high, normal, low}
use effect_pm.Durable.Port.{DurableEntry, DurableSizes, requeued, dead_lettered, Match}
use effect_pm.Durable.Sqlite.{
  Row, has_id, is_pending, of_queue, is_available, is_drained, row_le, row_to_entry, update_where,
  delete_where, unlock, fail, sizes, priority_is, is_locked, drain, dead,
}

module _ {A : Type 0} where
  length-map : {B : Type 0} (f : A → B) (xs : List A) → length (map f xs) ≡ length xs
  length-map f [] = refl
  length-map f (x ∷ xs) = ap suc (length-map f xs)

module _ {P : Type 0} where
  length-update_where :
      (p : Row P → Bool) (f : Row P → Row P) (rows : List (Row P))
      → length (update_where p f rows) ≡ length rows
  length-update_where p f [] = refl
  length-update_where p f (r ∷ rs) = ap suc (length-update_where p f rs)

  -- What an update of the rows with an id does to them, when `p` holds of an updated row exactly if
  -- `q` held before.
  updated_rows :
      (f : Row P → Row P) (p q : Row P → Bool) (id : String) (rows : List (Row P))
      → ((r : Row P) → (f r).id ≡ r.id)
      → ((r : Row P) → p (f r) ≡ q r)
      → tally (λ x. has_id id x && p x) (update_where (has_id id) f rows)
        ≡ tally (λ x. has_id id x && q x) rows
  updated_rows f p q id [] same turns = refl
  updated_rows f p q id (r ∷ rs) same turns =
      ground (arith, same r, turns r, updated_rows f p q id rs same turns)

  other_rows :
      (f : Row P → Row P) (Q : Row P → Bool) (id : String) (rows : List (Row P))
      → ((r : Row P) → (f r).id ≡ r.id)
      → tally (λ x. not (has_id id x) && Q x) (update_where (has_id id) f rows)
        ≡ tally (λ x. not (has_id id x) && Q x) rows
  other_rows f Q id [] same = refl
  other_rows f Q id (r ∷ rs) same = ground (arith, same r, other_rows f Q id rs same)

  abbrev bury : Row P → Row P
  bury q = record q { status = dead; locked_until_ms = none }

  -- Buried: neither pending nor under a lease.
  abbrev pub is_buried : Row P → Bool
  is_buried r = not (is_pending r.status) && not (is_locked r.locked_until_ms)

  -- A failed attempt at a stored entry: once its attempts have reached the limit, each row of its id
  -- is buried as dead, without a lease and as the same entry; before that, each pending row of its id
  -- is free to lease at any time, as the same entry. No row is lost, and the rows of other ids stay
  -- as they are.
  pub fail_outcome :
      (rows : List (Row P)) (id : String) (max_attempts : ℕ) (r : Row P)
      → find (has_id id) rows ≡ some r
      → (((max_attempts ≤ r.attempts)
            × ((fail rows id max_attempts).0 ≡ some dead_lettered)
            × ((same : DurableEntry P → Bool)
                → tally
                    (λ q. has_id id q && (is_buried q && same (row_to_entry q)))
                    (fail rows id max_attempts).1
                  ≡ tally (λ q. has_id id q && same (row_to_entry q)) rows))
          ⊎ ((r.attempts < max_attempts)
              × ((fail rows id max_attempts).0 ≡ some requeued)
              × ((queue_id : String) (later : ℕ) (same : DurableEntry P → Bool)
                  → tally
                      (λ q. has_id id q && (is_available queue_id later q && same (row_to_entry q)))
                      (fail rows id max_attempts).1
                    ≡ tally
                        (λ q. has_id id q && (of_queue queue_id q && same (row_to_entry q)))
                        rows)))
        × ((Q : Row P → Bool)
            → tally (λ q. not (has_id id q) && Q q) (fail rows id max_attempts).1
              ≡ tally (λ q. not (has_id id q) && Q q) rows)
        × (length (fail rows id max_attempts).1 ≡ length rows)
  unfolding fail row_to_entry
  fail_outcome rows id max_attempts r found = elim (Bool-cases (leb max_attempts r.attempts)) [
    | inl e ↦
        rw (fail, found, e)
          (
            inl (
              ground arith,
              refl,
              λ same.
                  updated_rows bury _ (λ q. same (row_to_entry q)) id rows (λ q. refl) (λ q. refl),
            ),
            λ Q. other_rows bury Q id rows (λ q. refl),
            length-update_where (has_id id) bury rows,
          )
    | inr e ↦
        rw (fail, found, e)
          (
            inr (
              ground arith,
              refl,
              λ queue_id later same.
                  updated_rows unlock _ (λ q. of_queue queue_id q && same (row_to_entry q)) id rows
                    (λ q. refl) (λ q. ground arith),
            ),
            λ Q. other_rows unlock Q id rows (λ q. refl),
            length-update_where (has_id id) unlock rows,
          )
  ]

  none_kept : (p : Row P → Bool) (rows : List (Row P)) → tally p (delete_where p rows) ≡ 0
  none_kept p [] = refl
  none_kept p (r ∷ rs) = ground (arith, none_kept p rs)

  drained_of_queue :
      (rows : List (Row P)) (queue_id : String) (now : ℕ) (match : Match)
      → tally (of_queue queue_id) (filter (is_drained queue_id now match) rows)
        ≡ length (filter (is_drained queue_id now match) rows)
  drained_of_queue [] queue_id now match = refl
  drained_of_queue (r ∷ rs) queue_id now match =
      ground (arith, drained_of_queue rs queue_id now match)

  drained_length :
      (rows : List (Row P)) (now : ℕ) (queue_id : String) (match : Match)
      (entries : List (DurableEntry P))
      → (drain rows now queue_id match).0 ≡ some entries
      → length entries ≡ length (filter (is_drained queue_id now match) rows)
  unfolding drain
  drained_length rows now queue_id match entries ok =
      let drained = filter (is_drained queue_id now match) rows in
      let same : map row_to_entry (sort row_le drained) ≡ entries = ground arith in
      omega (
        arith,
        ap length same,
        length-map row_to_entry (sort row_le drained),
        tally-true (sort row_le drained),
        tally-sort row_le (λ x. true) drained,
        tally-true drained,
      )

  -- The rows that a drain hands out and the pending rows that it leaves are the pending rows of
  -- the queue, each once, and it leaves no row that it could have handed out.
  pub drain_split :
      (rows : List (Row P)) (now : ℕ) (queue_id : String) (match : Match)
      (entries : List (DurableEntry P))
      → (drain rows now queue_id match).0 ≡ some entries
      → (length entries + tally (of_queue queue_id) (drain rows now queue_id match).1
          ≡ tally (of_queue queue_id) rows)
        × (tally (is_drained queue_id now match) (drain rows now queue_id match).1 ≡ 0)
  unfolding drain
  drain_split rows now queue_id match entries ok =
      let drained = filter (is_drained queue_id now match) rows in
      (
        omega (
          arith,
          drained_length rows now queue_id match entries ok,
          drained_of_queue rows queue_id now match,
          tally-filter (of_queue queue_id) (is_drained queue_id now match) rows,
        ),
        none_kept (is_drained queue_id now match) rows,
      )

  one_priority :
      (r : Row P)
      → ((priority_is high r ≡ true) × (priority_is normal r ≡ false) × (priority_is low r ≡ false))
        ⊎ (((priority_is high r ≡ false)
              × (priority_is normal r ≡ true)
              × (priority_is low r ≡ false))
            ⊎ ((priority_is high r ≡ false)
                × (priority_is normal r ≡ false)
                × (priority_is low r ≡ true)))
  one_priority r = ground arith

  by_priority :
      (rows : List (Row P)) (queue_id : String)
      → tally (λ r. of_queue queue_id r && priority_is high r) rows
          + tally (λ r. of_queue queue_id r && priority_is normal r) rows
          + tally (λ r. of_queue queue_id r && priority_is low r) rows
        ≡ tally (of_queue queue_id) rows
  by_priority [] queue_id = refl
  by_priority (r ∷ rs) queue_id = ground (arith, by_priority rs queue_id, one_priority r)

  -- The sizes of the three priorities add up to the pending rows of the queue.
  pub sizes_total :
      (rows : List (Row P)) (queue_id : String) (s : DurableSizes)
      → sizes rows queue_id ≡ some s
      → s.high + s.normal + s.low ≡ tally (of_queue queue_id) rows
  unfolding sizes
  sizes_total rows queue_id s ok =
      let same : record {
        high = tally (λ r. of_queue queue_id r && priority_is high r) rows;
        normal = tally (λ r. of_queue queue_id r && priority_is normal r) rows;
        low = tally (λ r. of_queue queue_id r && priority_is low r) rows;
      }
          ≡ s =
        ground arith in
      subst (λ z. z.high + z.normal + z.low ≡ tally (of_queue queue_id) rows) same
        (by_priority rows queue_id)
