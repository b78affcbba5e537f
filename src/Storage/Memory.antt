-- ===== src/Storage/Memory.antt =====
-- `makeInMemoryRuntimeStorageService` of src/RuntimeStorage.ts. A `Map` from ids to records is the
-- list of its values in the order of insertion; an id that is set again keeps its place.
pub mod Rows
pub mod Update
pub mod Delete
pub mod Readonly
use effect_pm.Prelude.{
  ℕ, ◌+◌, Bool, true, false, not, ◌&&◌, ◌||◌, Option, none, some, List, [], ◌∷◌, ◌++◌, String,
  str_eq, find, filter, any, if◌then◌else◌,
}
use effect_pm.Storage.Record.{
  RuntimeRecord, RuntimeRecordPatch, apply_patch, is_true, Field, FieldValue, flag,
}
use effect_pm.Storage.Query.{
  Predicate, Predicates, equals, not_equals, is_in, is_null, is_not_null, after, before, between,
  and_of, or_of, nil, cons, Query, matches_predicate,
}
use effect_pm.Storage.Select.{Collation, select}

pub record UpdateResult : Type 0 where
  pub matched : ℕ
  pub updated : ℕ

pub record DeleteResult : Type 0 where
  pub deleted : ℕ

-- The errors of the storage contract; those of a driver are left out.
pub data StorageError : Type 0 where
  duplicate_record readonly_record : String → StorageError
  decode_failed encode_failed : StorageError

pub data Outcome (A : Type 0) : Type 0 where
  done : A → Outcome A
  failed : StorageError → Outcome A

-- `predicate.field === "readonly" && predicate.value === true`.
abbrev pub is_readonly_true : Field → FieldValue → Bool
is_readonly_true Field.readonly (flag b) = b
is_readonly_true _ v = false

unfoldable mutual
  pub names_readonly : Predicate → Bool
  names_readonly (equals f v) = is_readonly_true f v
  names_readonly (and_of ps) = any_names_readonly ps
  names_readonly (or_of ps) = any_names_readonly ps
  names_readonly _ = false

  pub any_names_readonly : Predicates → Bool
  any_names_readonly nil = false
  any_names_readonly (cons p ps) = names_readonly p || any_names_readonly ps

unfoldable pub includes_readonly_true : Option Predicate → Bool
unfolding names_readonly
includes_readonly_true none = false
includes_readonly_true (some p) = names_readonly p

module _ {J : Type 0} where
  abbrev pub has_id : String → RuntimeRecord J → Bool
  has_id id r = str_eq r.id id

  -- `records.get(id)`.
  abbrev pub get : String → List (RuntimeRecord J) → Option (RuntimeRecord J)
  get id rows = find (has_id id) rows

  -- `records.set(record.id, record)`.
  unfoldable pub set_row : RuntimeRecord J → List (RuntimeRecord J) → List (RuntimeRecord J)
  set_row r [] = r ∷ []
  set_row r (s ∷ rows) = if has_id r.id s then r ∷ rows else s ∷ set_row r rows

  -- `records.delete(id)`.
  abbrev pub remove_row : String → List (RuntimeRecord J) → List (RuntimeRecord J)
  remove_row id rows = filter (λ r. not (has_id id r)) rows

  abbrev pub is_readonly : Option (RuntimeRecord J) → Bool
  is_readonly none = false
  is_readonly (some r) = is_true r.readonly

  abbrev pub is_found : Option (RuntimeRecord J) → Bool
  is_found none = false
  is_found (some r) = true

  unfoldable pub create :
      RuntimeRecord J → List (RuntimeRecord J) → Outcome (Unit {0}) × List (RuntimeRecord J)
  unfolding set_row
  create r rows =
      if is_found (get r.id rows)
      then (failed (duplicate_record r.id), rows)
      else (done tt, set_row r rows)

  unfoldable pub upsert :
      RuntimeRecord J → List (RuntimeRecord J) → Outcome (Unit {0}) × List (RuntimeRecord J)
  unfolding set_row
  upsert r rows =
      if is_readonly (get r.id rows)
      then (failed (readonly_record r.id), rows)
      else (done tt, set_row r rows)

  -- The loop of `update` over the selected records.
  unfoldable pub update_rows :
      RuntimeRecordPatch J
      → List (RuntimeRecord J)
      → UpdateResult
      → List (RuntimeRecord J)
      → UpdateResult × List (RuntimeRecord J)
  unfolding set_row
  update_rows patch [] n rows = (n, rows)
  update_rows patch (r ∷ selected) n rows = elim (is_true r.readonly) [
    | true ↦ update_rows patch selected (record n { matched = n.matched + 1 }) rows
    | false ↦
        update_rows patch selected (record { matched = n.matched + 1; updated = n.updated + 1 })
          (set_row (apply_patch r patch) rows)
  ]

  -- The loop of `delete` over the selected records; `records.delete` says whether it found the id.
  unfoldable pub delete_rows :
      Bool → List (RuntimeRecord J) → ℕ → List (RuntimeRecord J) → ℕ × List (RuntimeRecord J)
  delete_rows include_readonly [] n rows = (n, rows)
  delete_rows include_readonly (r ∷ selected) n rows =
      elim (is_true r.readonly && not include_readonly) [
        | true ↦ delete_rows include_readonly selected n rows
        | false ↦
            delete_rows include_readonly selected (if is_found (get r.id rows) then n + 1 else n)
              (remove_row r.id rows)
      ]

  module _ (collate : Collation) where
    unfoldable pub read : Query → List (RuntimeRecord J) → List (RuntimeRecord J)
    unfolding select
    read q rows = select collate q rows

    unfoldable pub update :
        Query
        → RuntimeRecordPatch J
        → List (RuntimeRecord J)
        → UpdateResult × List (RuntimeRecord J)
    unfolding select update_rows
    update q patch rows =
        update_rows patch (select collate q rows) (record { matched = 0; updated = 0 }) rows

    unfoldable pub delete : Query → List (RuntimeRecord J) → DeleteResult × List (RuntimeRecord J)
    unfolding select delete_rows includes_readonly_true
    delete q rows =
        let (n, rows') =
          delete_rows (includes_readonly_true q.predicate) (select collate q rows) 0 rows in
        (record { deleted = n }, rows')

-- What an effect does to the storage that it is provided with, and how it exits.
abbrev pub Program : Type 0 → Type 0 → Type 0
Program J A = List (RuntimeRecord J) → Outcome A × List (RuntimeRecord J)

-- The effect runs on a copy, which replaces the records only if it succeeds.
unfoldable pub transaction : {J A : Type 0} → Program J A → Program J A
transaction effect rows =
    let (exit, tx) = effect rows in
    elim exit [ failed e ↦ (failed e, rows) | done a ↦ (done a, tx) ]
