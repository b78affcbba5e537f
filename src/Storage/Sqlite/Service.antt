-- ===== src/Storage/Sqlite/Service.antt =====
-- `makeSqliteRuntimeStorageService` of src/storage/sqlite/service.ts on the list of rows of its table.
-- Errors of the driver are left out. A write that fails to encode leaves what was written before.
use effect_pm.Prelude.{
  ℕ, ◌+◌, Bool, true, false, not, ◌&&◌, Option, none, some, List, [], ◌∷◌, ◌++◌, String, str_eq,
  find, filter, ◌==◌, if◌then◌else◌,
}
use effect_pm.Storage.Record.{RuntimeRecord, RuntimeRecordPatch, apply_patch, is_true}
use effect_pm.Storage.Query.{Query}
use effect_pm.Storage.Memory.{
  UpdateResult, DeleteResult, Outcome, done, failed, duplicate_record, readonly_record,
  decode_failed, encode_failed, includes_readonly_true,
}
use effect_pm.Storage.Sqlite.Codec.{JsonText, SqlRow, encode_record, decode_row}
use effect_pm.Storage.Sqlite.Statement.{Scan, query_sql, run_query}

abbrev pub row_has_id : String → SqlRow → Bool
row_has_id id row = str_eq row.id id

abbrev pub row_of_id : String → List SqlRow → Option SqlRow
row_of_id id table = find (row_has_id id) table

-- `DELETE FROM ... WHERE id = ?`.
abbrev pub delete_id : String → List SqlRow → List SqlRow
delete_id id table = filter (λ row. not (row_has_id id row)) table

-- `INSERT OR REPLACE`: the row of the same id goes, and the new one comes last.
abbrev pub insert_or_replace : SqlRow → List SqlRow → List SqlRow
insert_or_replace row table = delete_id row.id table ++ row ∷ []

-- `Number(readonlyInt) === 1`.
abbrev pub is_one : Option ℕ → Bool
is_one none = false
is_one (some n) = n == 1

abbrev pub row_is_readonly : Option SqlRow → Bool
row_is_readonly none = false
row_is_readonly (some row) = is_one row.readonly_int

module _ {J : Type 0} (json : JsonText J) (numeric : String → Option ℕ) where
  -- `Effect.forEach(rows, rowToRuntimeRecord)`: it stops at the first row that does not decode.
  unfoldable pub decode_all : List SqlRow → Option (List (RuntimeRecord J))
  unfolding decode_row
  decode_all [] = some []
  decode_all (row ∷ rows) = elim (decode_row json row) [
    | none ↦ none
    | some r ↦ elim (decode_all rows) [ none ↦ none | some rs ↦ some (r ∷ rs) ]
  ]

  unfoldable pub create : RuntimeRecord J → List SqlRow → Outcome (Unit {0}) × List SqlRow
  unfolding encode_record
  create r table = elim (encode_record json r) [
    | none ↦ (failed encode_failed, table)
    | some row ↦ elim (row_of_id row.id table) [
      | some old ↦ (failed (duplicate_record r.id), table)
      | none ↦ (done tt, table ++ row ∷ [])
    ]
  ]

  unfoldable pub upsert : RuntimeRecord J → List SqlRow → Outcome (Unit {0}) × List SqlRow
  unfolding encode_record
  upsert r table =
      if row_is_readonly (row_of_id r.id table)
      then (failed (readonly_record r.id), table)
      else elim (encode_record json r) [
        | none ↦ (failed encode_failed, table)
        | some row ↦ (done tt, insert_or_replace row table)
      ]

  unfoldable pub update_loop :
      RuntimeRecordPatch J
      → List (RuntimeRecord J)
      → UpdateResult
      → List SqlRow
      → Outcome UpdateResult × List SqlRow
  unfolding encode_record
  update_loop patch [] n table = (done n, table)
  update_loop patch (r ∷ matching) n table = elim (is_true r.readonly) [
    | true ↦ update_loop patch matching (record n { matched = n.matched + 1 }) table
    | false ↦ elim (encode_record json (apply_patch r patch)) [
      | none ↦ (failed encode_failed, table)
      | some row ↦
          update_loop patch matching (record { matched = n.matched + 1; updated = n.updated + 1 })
            (insert_or_replace row table)
    ]
  ]

  unfoldable pub delete_loop : Bool → List (RuntimeRecord J) → ℕ → List SqlRow → ℕ × List SqlRow
  delete_loop include_readonly [] n table = (n, table)
  delete_loop include_readonly (r ∷ matching) n table =
      elim (is_true r.readonly && not include_readonly) [
        | true ↦ delete_loop include_readonly matching n table
        | false ↦ delete_loop include_readonly matching (n + 1) (delete_id r.id table)
      ]

  module _ (scan : Scan) where
    unfoldable pub load : Query → List SqlRow → Option (List (RuntimeRecord J))
    unfolding decode_all run_query query_sql
    load q table = decode_all (run_query numeric scan (query_sql q) table)

    unfoldable pub read : Query → List SqlRow → Outcome (List (RuntimeRecord J)) × List SqlRow
    unfolding load
    read q table = elim (load q table) [
      | none ↦ (failed decode_failed, table)
      | some rs ↦ (done rs, table)
    ]

    unfoldable pub update :
        Query → RuntimeRecordPatch J → List SqlRow → Outcome UpdateResult × List SqlRow
    unfolding load update_loop
    update q patch table = elim (load q table) [
      | none ↦ (failed decode_failed, table)
      | some matching ↦ update_loop patch matching (record { matched = 0; updated = 0 }) table
    ]

    unfoldable pub delete : Query → List SqlRow → Outcome DeleteResult × List SqlRow
    unfolding load delete_loop includes_readonly_true
    delete q table = elim (load q table) [
      | none ↦ (failed decode_failed, table)
      | some matching ↦
          let (n, table') = delete_loop (includes_readonly_true q.predicate) matching 0 table in
          (done (record { deleted = n }), table')
    ]
