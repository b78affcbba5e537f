-- ===== src/Storage/Memory/Delete.antt =====
-- `delete` of the in-memory adapter, by what it makes of each id.
use effect_pm.Prelude.{
  ℕ, ◌+◌, ◌≡◌, refl, Bool, not, ◌&&◌, Option, none, some, List, [], ◌∷◌, String, str_eq_iff, tally,
  if◌then◌else◌, arith, Bool-cases, inl, inr,
}
use effect_pm.Storage.Record.{RuntimeRecord, is_true}
use effect_pm.Storage.Query.{Query}
use effect_pm.Storage.Select.{Collation, select}
use effect_pm.Storage.Select.Windows.{tally-filter-le}
use effect_pm.Storage.Memory.{
  has_id, get, is_found, remove_row, delete_rows, delete, read, includes_readonly_true,
}
use effect_pm.Storage.Memory.Rows.{
  get_absent, IsKeyed, AreStored, get-remove_row, select-IsKeyed, All-select, keyed_stored,
}

module _ {J : Type 0} where
  -- Whether a delete removes a record that it has selected.
  abbrev pub is_deletable : Bool → RuntimeRecord J → Bool
  is_deletable include_readonly r = not (is_true r.readonly && not include_readonly)

  -- What a delete leaves under an id: `selected` is what it found there among the selected records.
  abbrev pub remaining_entry :
      Bool → Option (RuntimeRecord J) → Option (RuntimeRecord J) → Option (RuntimeRecord J)
  remaining_entry include_readonly none old = old
  remaining_entry include_readonly (some r) old =
      if is_deletable include_readonly r then none else old

  get-delete_rows :
      (inc : Bool) (selected : List (RuntimeRecord J)) (n : ℕ) (rows : List (RuntimeRecord J))
      (j : String)
      → IsKeyed selected
      → get j (delete_rows inc selected n rows).1
        ≡ remaining_entry inc (get j selected) (get j rows)
  unfolding delete_rows
  get-delete_rows inc [] n rows j k = refl
  get-delete_rows inc (r ∷ selected) n rows j k =
      elim (Bool-cases (is_true r.readonly && not inc)) [
        | inl e ↦
            rw (delete_rows, e)
              (ground (
                arith,
                get-delete_rows inc selected n rows j (λ i. omega (arith, k i)),
                get_absent j selected,
                k j,
                e,
              ))
        | inr e ↦
            rw (delete_rows, e)
              (ground (
                arith,
                get-delete_rows inc selected (if is_found (get r.id rows) then n + 1 else n)
                    (remove_row r.id rows) j (λ i. omega (arith, k i)),
                get_absent j selected,
                get-remove_row r.id j rows,
                k j,
                e,
              ))
      ]

  stored_after :
      (r : RuntimeRecord J) (selected rows : List (RuntimeRecord J))
      → tally (has_id r.id) selected ≡ 0
      → AreStored selected rows
      → AreStored selected (remove_row r.id rows)
  stored_after r [] rows apart h = tt
  stored_after r (s ∷ selected) rows apart h = (
    ground (arith, get-remove_row r.id s.id rows, str_eq_iff r.id s.id, str_eq_iff s.id r.id, h.0),
    stored_after r selected rows (ground arith) h.1,
  )

  count-delete_rows :
      (inc : Bool) (selected : List (RuntimeRecord J)) (n : ℕ) (rows : List (RuntimeRecord J))
      → IsKeyed selected
      → AreStored selected rows
      → (delete_rows inc selected n rows).0 ≡ n + tally (is_deletable inc) selected
  unfolding delete_rows
  count-delete_rows inc [] n rows k h = omega arith
  count-delete_rows inc (r ∷ selected) n rows k h =
      elim (Bool-cases (is_true r.readonly && not inc)) [
        | inl e ↦
            rw (delete_rows, e)
              (omega (arith, count-delete_rows inc selected n rows (λ i. omega (arith, k i)) h.1))
        | inr e ↦
            rw (delete_rows, e, h.0)
              (omega (
                arith,
                count-delete_rows inc selected (n + 1) (remove_row r.id rows)
                    (λ i. omega (arith, k i))
                    (stored_after r selected rows (ground (arith, k r.id, str_eq_iff r.id r.id))
                      h.1),
              ))
      ]

  delete_rows-IsKeyed :
      (inc : Bool) (selected : List (RuntimeRecord J)) (n : ℕ) (rows : List (RuntimeRecord J))
      → IsKeyed rows
      → IsKeyed (delete_rows inc selected n rows).1
  unfolding delete_rows
  delete_rows-IsKeyed inc [] n rows k = k
  delete_rows-IsKeyed inc (r ∷ selected) n rows k =
      elim (Bool-cases (is_true r.readonly && not inc)) [
        | inl e ↦ rw (delete_rows, e) (delete_rows-IsKeyed inc selected _ rows k)
        | inr e ↦
            rw (delete_rows, e)
              (delete_rows-IsKeyed inc selected _ (remove_row r.id rows) (λ j.
                omega (arith, k j, tally-filter-le (has_id j) (λ s. not (has_id r.id s)) rows)))
      ]

  module _ (collate : Collation) (q : Query) where
    -- A delete removes exactly the records that a read of its query answers, but for readonly ones
    -- unless the predicate compares `readonly` with true somewhere; it leaves what stands under
    -- every other id, and reports how many it has removed.
    pub delete_lem :
        (rows : List (RuntimeRecord J))
        → IsKeyed rows
        → ((j : String)
            → get j (delete collate q rows).1
              ≡ remaining_entry
                  (includes_readonly_true q.predicate)
                  (get j (read collate q rows))
                  (get j rows))
          × ((delete collate q rows).0.deleted
              ≡ tally (is_deletable (includes_readonly_true q.predicate)) (read collate q rows))
    unfolding delete read
    delete_lem rows k =
        let inc = includes_readonly_true q.predicate in
        let selected = select collate q rows in
        (
          λ j. get-delete_rows inc selected 0 rows j (select-IsKeyed collate q rows k),
          omega (
            arith,
            count-delete_rows inc selected 0 rows (select-IsKeyed collate q rows k)
                (All-select collate q _ rows (keyed_stored rows k)),
          ),
        )

    pub delete-IsKeyed :
        (rows : List (RuntimeRecord J)) → IsKeyed rows → IsKeyed (delete collate q rows).1
    unfolding delete
    delete-IsKeyed rows k =
        delete_rows-IsKeyed (includes_readonly_true q.predicate) (select collate q rows) 0 rows k
