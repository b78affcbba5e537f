-- ===== src/Storage/Sqlite/Agreement.antt =====
-- The service of src/storage/sqlite/service.ts does what the in-memory adapter of src/RuntimeStorage.ts
-- does, from the same records.
use effect_pm.Prelude.{
  ℕ, ◌≡◌, ◌⊎◌, refl, Bool, true, false, Option, none, some, List, [], ◌∷◌, ◌++◌, String, str_eq_iff,
  ap, ◌∙◌, arith, Bool-cases, Option-cases, inl, inr,
}
use effect_pm.Prelude.Pairs.{Pairs-append, Pairs-find}
use effect_pm.Storage.Record.{RuntimeRecord, is_true}
use effect_pm.Storage.Query.{Query}
use effect_pm.Storage.Memory
use effect_pm.Storage.Memory.{
  UpdateResult, Outcome, failed, duplicate_record, readonly_record, has_id, get, set_row, is_found,
  is_readonly,
}
use effect_pm.Storage.Memory.Rows.{get-set_row}
use effect_pm.Storage.Sqlite.Codec.{JsonText, SqlRow, readonly_int_of}
use effect_pm.Storage.Sqlite.Service
use effect_pm.Storage.Sqlite.Service.{
  row_has_id, row_of_id, is_one, row_is_readonly, insert_or_replace,
}
use effect_pm.Storage.Sqlite.Represents.{Encodes, Represents, id-row, readonly-row}
use effect_pm.Storage.Sqlite.Refinement.{
  Holds, has_id-row, get-append, get-append_other, Holds-replace,
}

is_one-readonly : (o : Option Bool) → is_one (readonly_int_of o) ≡ is_true o
is_one-readonly none = refl
is_one-readonly (some true) = refl
is_one-readonly (some false) = refl

get-appended :
    {J : Type 0} (r : RuntimeRecord J) (j : String) (rows : List (RuntimeRecord J))
    → get r.id rows ≡ none
    → get j (rows ++ r ∷ []) ≡ get j (set_row r rows)
get-appended r j rows free = elim (Option-cases (get j rows)) [
  | inl e ↦ get-append j r rows e ∙ ground (arith, get-set_row r j rows, e)
  | inr (s, e) ↦
      get-append_other j r s rows e
      ∙ ground (arith, get-set_row r j rows, e, free, str_eq_iff r.id j)
]

module _ {J : Type 0} (json : JsonText J) (numeric : String → Option ℕ) where
  -- What the table has under an id, beside the records.
  row_of_id-lem :
      (id : String) (rows : List (RuntimeRecord J)) (table : List SqlRow)
      → Represents json rows table
      → ((get id rows ≡ none) × (row_of_id id table ≡ none))
        ⊎ ((r : RuntimeRecord J) × (row : SqlRow) × Encodes json r row
            × (get id rows ≡ some r)
            × (row_of_id id table ≡ some row))
  row_of_id-lem id rows table h =
      Pairs-find (Encodes json) (has_id id) (row_has_id id) (λ r row e. has_id-row json id r row e)
        rows table h

  -- A create answers as in memory, and leaves a table of the records that it leaves there: with the new
  -- one, or unchanged where the id is taken.
  pub create-agrees :
      (r : RuntimeRecord J) (row : SqlRow) (rows : List (RuntimeRecord J)) (table : List SqlRow)
      → Encodes json r row
      → Represents json rows table
      → ((Service.create json numeric r table).0 ≡ (Memory.create r rows).0)
        × Holds json (Memory.create r rows).1 (Service.create json numeric r table).1
  unfolding Service.create Memory.create
  create-agrees r row rows table e h = elim (row_of_id-lem r.id rows table h) [
    | inl (free, free') ↦
        let unused : row_of_id row.id table ≡ none =
          ap (λ i. row_of_id i table) (id-row json r row e) ∙ free' in
        rw (Service.create, Memory.create, e, unused, free)
          (
            refl,
            (
              rows ++ r ∷ [],
              Pairs-append (Encodes json) rows (r ∷ []) table (row ∷ []) h (e, tt),
              λ j. get-appended r j rows free,
            ),
          )
    | inr (s, taken, _, found, found') ↦
        let used : row_of_id row.id table ≡ some taken =
          ap (λ i. row_of_id i table) (id-row json r row e) ∙ found' in
        rw (Service.create, Memory.create, e, used, found) (refl, (rows, h, λ j. refl))
  ]

  -- On a table of the records in memory, an upsert of a record that encodes answers as in memory and
  -- leaves a table of the records that it leaves there. Over a record that is readonly it fails, and
  -- leaves the table as it was.
  pub upsert-agrees :
      (r : RuntimeRecord J) (row : SqlRow) (rows : List (RuntimeRecord J)) (table : List SqlRow)
      → Encodes json r row
      → Represents json rows table
      → ((Service.upsert json numeric r table).0 ≡ (Memory.upsert r rows).0)
        × Holds json (Memory.upsert r rows).1 (Service.upsert json numeric r table).1
        × (is_readonly (get r.id rows) ≡ true
            → Service.upsert json numeric r table ≡ (failed (readonly_record r.id), table))
  unfolding Service.upsert Memory.upsert
  upsert-agrees r row rows table e h =
      let replaced = Holds-replace json r row rows table e (rows, h, λ j. refl) in
      elim (row_of_id-lem r.id rows table h) [
        | inl (free, free') ↦
            rw (Service.upsert, Memory.upsert, e, free, free') (refl, replaced, λ n. cc)
        | inr (s, old, held, found, found') ↦
            let flags : is_one old.readonly_int ≡ is_true s.readonly =
              ap is_one (readonly-row json s old held) ∙ is_one-readonly s.readonly in
            elim (Bool-cases (is_true s.readonly)) [
              | inl fixed ↦
                  rw (Service.upsert, Memory.upsert, found, found', flags, fixed)
                    (refl, (rows, h, λ j. refl), λ y. refl)
              | inr loose ↦
                  rw (Service.upsert, Memory.upsert, found, found', flags, loose, e)
                    (refl, replaced, λ y. cc)
            ]
      ]
