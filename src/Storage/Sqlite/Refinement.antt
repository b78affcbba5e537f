-- ===== src/Storage/Sqlite/Refinement.antt =====
-- The writes of src/storage/sqlite/service.ts beside those of the in-memory adapter: the records under
-- the ids stay the same, whatever their order in the table.
use effect_pm.Prelude.{
  ℕ, ◌+◌, ◌≡◌, refl, sym, Bool, not, ◌&&◌, Option, none, some, List, [], ◌∷◌, ◌++◌, String, str_eq,
  All, tally, ap, ◌∙◌, arith, Bool-cases, Option-cases, inl, inr, if◌then◌else◌,
}
use effect_pm.Prelude.Pairs.{Pairs-filter, Pairs-append}
use effect_pm.Storage.Record.{RuntimeRecord, RuntimeRecordPatch, apply_patch, is_true}
use effect_pm.Storage.Memory.{
  UpdateResult, done, has_id, get, set_row, remove_row, update_rows, delete_rows, is_found,
}
use effect_pm.Storage.Memory.Rows.{get-set_row, get-remove_row}
use effect_pm.Storage.Memory.Delete.{is_deletable}
use effect_pm.Storage.Sqlite.Codec.{JsonText, SqlRow}
use effect_pm.Storage.Sqlite.Service.{
  row_has_id, delete_id, insert_or_replace, update_loop, delete_loop,
}
use effect_pm.Storage.Sqlite.Represents.{Encodes, Represents, id-row}

-- The same record, or none, under every id.
abbrev pub SameRecords : {J : Type 0} → List (RuntimeRecord J) → List (RuntimeRecord J) → Type 0
SameRecords rows rows' = (j : String) → get j rows ≡ get j rows'

module _ {J : Type 0} where
  pub get-append :
      (j : String) (r : RuntimeRecord J) (rows : List (RuntimeRecord J))
      → get j rows ≡ none
      → get j (rows ++ r ∷ []) ≡ (if str_eq r.id j then some r else none)
  get-append j r [] h = refl
  get-append j r (s ∷ rows) h = ground (arith, get-append j r rows)

  pub get-append_other :
      (j : String) (r s : RuntimeRecord J) (rows : List (RuntimeRecord J))
      → get j rows ≡ some s
      → get j (rows ++ r ∷ []) ≡ some s
  get-append_other j r s [] h = cc
  get-append_other j r s (t ∷ rows) h = ground (arith, get-append_other j r s rows)

module _ {J : Type 0} (json : JsonText J) where
  -- A table that holds these records, in some order.
  abbrev pub Holds : List (RuntimeRecord J) → List SqlRow → Type 0
  Holds rows table =
      (stored : List (RuntimeRecord J)) × Represents json stored table × SameRecords stored rows

  pub has_id-row :
      (id : String) (r : RuntimeRecord J) (row : SqlRow)
      → Encodes json r row
      → row_has_id id row ≡ has_id id r
  has_id-row id r row h = ap (λ i. str_eq i id) (id-row json r row h)

  pub Holds-delete :
      (id : String) (rows : List (RuntimeRecord J)) (table : List SqlRow)
      → Holds rows table
      → Holds (remove_row id rows) (delete_id id table)
  Holds-delete id rows table (stored, h, same) = (
    remove_row id stored,
    Pairs-filter (Encodes json) (λ r. not (has_id id r)) (λ row. not (row_has_id id row))
        (λ r row e. ap not (has_id-row id r row e)) stored table h,
    λ j. get-remove_row id j stored ∙ rw (same j) (sym (get-remove_row id j rows)),
  )

  get-replaced :
      (r : RuntimeRecord J) (j : String) (rows : List (RuntimeRecord J))
      → get j (remove_row r.id rows ++ r ∷ []) ≡ (if str_eq r.id j then some r else get j rows)
  get-replaced r j rows = elim (Option-cases (get j (remove_row r.id rows))) [
    | inl e ↦ ground (arith, e, get-append j r (remove_row r.id rows), get-remove_row r.id j rows)
    | inr (s, e) ↦
        ground (arith, e, get-append_other j r s (remove_row r.id rows), get-remove_row r.id j rows)
  ]

  pub Holds-replace :
      (r : RuntimeRecord J) (row : SqlRow) (rows : List (RuntimeRecord J)) (table : List SqlRow)
      → Encodes json r row
      → Holds rows table
      → Holds (set_row r rows) (insert_or_replace row table)
  Holds-replace r row rows table e (stored, h, same) = (
    remove_row r.id stored ++ r ∷ [],
    Pairs-append (Encodes json) (remove_row r.id stored) (r ∷ []) (delete_id row.id table)
        (row ∷ [])
        (Pairs-filter (Encodes json) (λ s. not (has_id r.id s)) (λ w. not (row_has_id row.id w))
          (λ s w e'. rw (id-row json r row e) (ap not (has_id-row r.id s w e'))) stored table h)
        (e, tt),
    λ j. get-replaced r j stored ∙ rw (same j) (sym (get-set_row r j rows)),
  )

  -- Every record that a patch makes of these encodes.
  abbrev pub PatchesEncode : RuntimeRecordPatch J → List (RuntimeRecord J) → Type 0
  PatchesEncode patch rows = All (λ r. (row : SqlRow) × Encodes json (apply_patch r patch) row) rows

  pub update_loop-Holds :
      (numeric : String → Option ℕ) (patch : RuntimeRecordPatch J)
      (selected : List (RuntimeRecord J)) (n : UpdateResult) (rows : List (RuntimeRecord J))
      (table : List SqlRow)
      → PatchesEncode patch selected
      → Holds rows table
      → ((update_loop json numeric patch selected n table).0
          ≡ done (update_rows patch selected n rows).0)
        × Holds
            (update_rows patch selected n rows).1
            (update_loop json numeric patch selected n table).1
  unfolding update_loop update_rows
  update_loop-Holds numeric patch [] n rows table enc h = (refl, h)
  update_loop-Holds numeric patch (r ∷ selected) n rows table enc h =
      elim (Bool-cases (is_true r.readonly)) [
        | inl e ↦
            rw (update_loop, update_rows, e)
              (update_loop-Holds numeric patch selected (record n { matched = n.matched + 1 }) rows
                table enc.1 h)
        | inr e ↦
            let (row, encoded) = enc.0 in
            rw (update_loop, update_rows, e, encoded)
              (update_loop-Holds numeric patch selected
                (record { matched = n.matched + 1; updated = n.updated + 1 })
                (set_row (apply_patch r patch) rows) (insert_or_replace row table) enc.1
                (Holds-replace (apply_patch r patch) row rows table encoded h))
      ]

  pub delete_loop-Holds :
      (numeric : String → Option ℕ) (inc : Bool) (selected : List (RuntimeRecord J)) (m n : ℕ)
      (rows : List (RuntimeRecord J)) (table : List SqlRow)
      → Holds rows table
      → ((delete_loop json numeric inc selected m table).0 ≡ m + tally (is_deletable inc) selected)
        × Holds
            (delete_rows inc selected n rows).1
            (delete_loop json numeric inc selected m table).1
  unfolding delete_loop delete_rows
  delete_loop-Holds numeric inc [] m n rows table h = (omega arith, h)
  delete_loop-Holds numeric inc (r ∷ selected) m n rows table h =
      elim (Bool-cases (is_true r.readonly && not inc)) [
        | inl e ↦
            let (count, held) = delete_loop-Holds numeric inc selected m n rows table h in
            rw (delete_loop, delete_rows, e) (omega (arith, count), held)
        | inr e ↦
            let (count, held) =
              delete_loop-Holds numeric inc selected (m + 1)
                (if is_found (get r.id rows) then n + 1 else n) (remove_row r.id rows)
                (delete_id r.id table) (Holds-delete r.id rows table h) in
            rw (delete_loop, delete_rows, e) (omega (arith, count), held)
      ]
