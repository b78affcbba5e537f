-- ===== src/Storage/Memory/Update.antt =====
-- `update` of the in-memory adapter, by what it makes of each id.
use effect_pm.Prelude.{
  ◌+◌, ◌≡◌, refl, Bool, not, Option, none, some, List, [], ◌∷◌, String, length, tally,
  if◌then◌else◌, arith, Bool-cases, inl, inr,
}
use effect_pm.Storage.Record.{
  RuntimeRecord, RuntimeRecordPatch, apply_patch, id-apply_patch, is_true,
}
use effect_pm.Storage.Query.{Query}
use effect_pm.Storage.Select.{Collation, select}
use effect_pm.Storage.Memory.{get, set_row, update_rows, update, read, UpdateResult}
use effect_pm.Storage.Memory.Rows.{
  get_absent, IsKeyed, get-set_row, set_row-IsKeyed, select-IsKeyed,
}

module _ {J : Type 0} where
  -- What an update leaves under an id: `selected` is what it found there among the selected records.
  abbrev pub updated_entry :
      RuntimeRecordPatch J
      → Option (RuntimeRecord J)
      → Option (RuntimeRecord J)
      → Option (RuntimeRecord J)
  updated_entry patch none old = old
  updated_entry patch (some r) old = if is_true r.readonly then old else some (apply_patch r patch)

  -- Its own test, so that a tally of it stands in statements.
  abbrev pub is_writable : RuntimeRecord J → Bool
  is_writable r = not (is_true r.readonly)

  get-update_rows :
      (patch : RuntimeRecordPatch J) (selected : List (RuntimeRecord J)) (n : UpdateResult)
      (rows : List (RuntimeRecord J)) (j : String)
      → IsKeyed selected
      → get j (update_rows patch selected n rows).1
        ≡ updated_entry patch (get j selected) (get j rows)
  unfolding update_rows
  get-update_rows patch [] n rows j k = refl
  get-update_rows patch (r ∷ selected) n rows j k = elim (Bool-cases (is_true r.readonly)) [
    | inl e ↦
        rw (update_rows, e)
          (ground (
            arith,
            get-update_rows patch selected (record n { matched = n.matched + 1 }) rows j
                (λ i. omega (arith, k i)),
            get_absent j selected,
            k j,
            e,
          ))
    | inr e ↦
        rw (update_rows, e)
          (ground (
            arith,
            get-update_rows patch selected
                (record { matched = n.matched + 1; updated = n.updated + 1 })
                (set_row (apply_patch r patch) rows) j (λ i. omega (arith, k i)),
            get_absent j selected,
            get-set_row (apply_patch r patch) j rows,
            id-apply_patch r patch,
            k j,
            e,
          ))
  ]

  counts-update_rows :
      (patch : RuntimeRecordPatch J) (selected : List (RuntimeRecord J)) (n : UpdateResult)
      (rows : List (RuntimeRecord J))
      → ((update_rows patch selected n rows).0.matched ≡ n.matched + length selected)
        × ((update_rows patch selected n rows).0.updated ≡ n.updated + tally is_writable selected)
  unfolding update_rows
  counts-update_rows patch [] n rows = (omega arith, omega arith)
  counts-update_rows patch (r ∷ selected) n rows = elim (Bool-cases (is_true r.readonly)) [
    | inl e ↦
        rw (update_rows, e)
          (omega
            (arith, counts-update_rows patch selected (record n { matched = n.matched + 1 }) rows))
    | inr e ↦
        rw (update_rows, e)
          (omega (
            arith,
            counts-update_rows patch selected
                (record { matched = n.matched + 1; updated = n.updated + 1 })
                (set_row (apply_patch r patch) rows),
          ))
  ]

  update_rows-IsKeyed :
      (patch : RuntimeRecordPatch J) (selected : List (RuntimeRecord J)) (n : UpdateResult)
      (rows : List (RuntimeRecord J))
      → IsKeyed rows
      → IsKeyed (update_rows patch selected n rows).1
  unfolding update_rows
  update_rows-IsKeyed patch [] n rows k = k
  update_rows-IsKeyed patch (r ∷ selected) n rows k = elim (Bool-cases (is_true r.readonly)) [
    | inl e ↦ rw (update_rows, e) (update_rows-IsKeyed patch selected _ rows k)
    | inr e ↦
        rw (update_rows, e)
          (update_rows-IsKeyed patch selected _ _ (set_row-IsKeyed (apply_patch r patch) rows k))
  ]

  module _ (collate : Collation) (q : Query) (patch : RuntimeRecordPatch J) where
    -- An update patches exactly the records that a read of its query answers and that are not
    -- readonly, and leaves what stands under every other id; it reports how many the read answers,
    -- and how many of those are not readonly.
    pub update_lem :
        (rows : List (RuntimeRecord J))
        → IsKeyed rows
        → ((j : String)
            → get j (update collate q patch rows).1
              ≡ updated_entry patch (get j (read collate q rows)) (get j rows))
          × ((update collate q patch rows).0.matched ≡ length (read collate q rows))
          × ((update collate q patch rows).0.updated ≡ tally is_writable (read collate q rows))
    unfolding update read
    update_lem rows k =
        let selected = select collate q rows in
        let start : UpdateResult = record { matched = 0; updated = 0 } in
        let counts = counts-update_rows patch selected start rows in
        (
          λ j. get-update_rows patch selected start rows j (select-IsKeyed collate q rows k),
          omega (arith, counts),
          omega (arith, counts),
        )

    pub update-IsKeyed :
        (rows : List (RuntimeRecord J)) → IsKeyed rows → IsKeyed (update collate q patch rows).1
    unfolding update
    update-IsKeyed rows k =
        update_rows-IsKeyed patch (select collate q rows) (record { matched = 0; updated = 0 }) rows
          k
