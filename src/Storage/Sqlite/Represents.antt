-- ===== src/Storage/Sqlite/Represents.antt =====
-- Tables that hold the encodings of records, and what the statements of
-- src/storage/sqlite/service.ts select from them.
use Prim.Native.String.{compare as compare_text}
use effect_pm.Prelude.{ℕ, ◌≡◌, refl, false, Option, none, some, List, [], ◌∷◌, String, All, ap, ◌∙◌}
use effect_pm.Prelude.Pairs.{Pairs, Pairs-filter, Pairs-sort, Pairs-take, Pairs-drop}
use effect_pm.Storage.Record.{
  RuntimeRecord, TextField, Field, text_field, DateField, text_value, date_field_value,
}
use effect_pm.Storage.Query.{
  Query, OrderBy, OrderField, date_field, value_field, Predicate, matches_predicate,
}
use effect_pm.Storage.Select.{
  select, ordered, apply_window, compare_all, compare_by, goes_before, orders_of, skip, at_most,
  is_le,
}
use effect_pm.Storage.Sqlite.Codec.{JsonText, SqlRow, encode_record, readonly_int_of}
use effect_pm.Storage.Sqlite.Codec.RoundTrip.{encode_record-parts, decode-encode_record}
use effect_pm.Storage.Sqlite.Condition.{is_optional_text}
use effect_pm.Storage.Sqlite.Truth.{text_column, date_value}
use effect_pm.Storage.Sqlite.Filtering.{IsTyped, evaluate-matches, text_column-row, required_text}
use effect_pm.Storage.Sqlite.Statement.{
  query_sql, condition_of, compare_rows_by, compare_rows, row_before, satisfies, Scan, run_query,
}
use effect_pm.Storage.Sqlite.Service.{decode_all}

abbrev pub HasTypes : Option Predicate → Type 0
HasTypes none = Unit
HasTypes (some p) = IsTyped p

-- Orders by columns that are never NULL.
abbrev pub IsPlain : OrderField → Type 0
IsPlain (date_field f) = Unit
IsPlain (value_field (text_field f)) = is_optional_text f ≡ false
IsPlain (value_field Field.readonly) = ⊥

module _ {J : Type 0} (json : JsonText J) where
  abbrev pub Encodes : RuntimeRecord J → SqlRow → Type 0
  Encodes r row = encode_record json r ≡ some row

  abbrev pub Represents : List (RuntimeRecord J) → List SqlRow → Type 0
  Represents = Pairs Encodes

  pub id-row : (r : RuntimeRecord J) (row : SqlRow) → Encodes r row → row.id ≡ r.id
  id-row r row h =
      let (names, payload, attributes, _, _, _, e) = encode_record-parts json r row h in
      ap (λ w. w.id) e

  pub readonly-row :
      (r : RuntimeRecord J) (row : SqlRow)
      → Encodes r row
      → row.readonly_int ≡ readonly_int_of r.readonly
  readonly-row r row h =
      let (names, payload, attributes, _, _, _, e) = encode_record-parts json r row h in
      ap (λ w. w.readonly_int) e

  date-row :
      (r : RuntimeRecord J) (row : SqlRow) (f : DateField)
      → Encodes r row
      → date_value row f ≡ date_field_value r f
  unfolding date_value date_field_value
  date-row r row DateField.occurred_at h =
      let (names, payload, attributes, _, _, _, e) = encode_record-parts json r row h in
      ap (λ w. w.occurred_at_ms) e
  date-row r row DateField.created_at h =
      let (names, payload, attributes, _, _, _, e) = encode_record-parts json r row h in
      ap (λ w. w.created_at_ms) e

  text-row :
      (r : RuntimeRecord J) (row : SqlRow) (f : TextField)
      → Encodes r row
      → text_column row f ≡ text_value r f
  text-row r row f h =
      let (names, payload, attributes, _, _, _, e) = encode_record-parts json r row h in
      ap (λ w. text_column w f) e ∙ text_column-row (λ s. none) r names payload attributes f

  compare_rows_by_lem :
      (f : OrderField) (a b : RuntimeRecord J) (row row' : SqlRow)
      → IsPlain f
      → Encodes a row
      → Encodes b row'
      → compare_rows_by f row row' ≡ compare_by compare_text f a b
  unfolding compare_rows_by compare_by
  compare_rows_by_lem (date_field f) a b row row' plain ha hb =
      rw (date-row a row f ha, date-row b row' f hb)
  compare_rows_by_lem (value_field (text_field f)) a b row row' plain ha hb =
      let (s, e) = required_text a f plain in
      let (t, e') = required_text b f plain in rw (text-row a row f ha, text-row b row' f hb, e, e')
  compare_rows_by_lem (value_field Field.readonly) a b row row' plain ha hb = absurd plain

  compare_rows_lem :
      (os : List OrderBy) (a b : RuntimeRecord J) (row row' : SqlRow)
      → All (λ o. IsPlain o.field) os
      → Encodes a row
      → Encodes b row'
      → compare_rows os row row' ≡ compare_all compare_text os a b
  unfolding compare_rows compare_all
  compare_rows_lem [] a b row row' plain ha hb = refl
  compare_rows_lem (o ∷ os) a b row row' plain ha hb = cc (
    compare_rows_by_lem o.field a b row row' plain.0 ha hb,
    compare_rows_lem os a b row row' plain.1 ha hb,
  )

  Pairs-window :
      (limit offset : Option ℕ) (rows : List (RuntimeRecord J)) (table : List SqlRow)
      → Represents rows table
      → Represents (at_most limit (skip offset rows)) (at_most limit (skip offset table))
  Pairs-window none none rows table h = h
  Pairs-window none (some k) rows table h = Pairs-drop Encodes k rows table h
  Pairs-window (some n) none rows table h = Pairs-take Encodes n rows table h
  Pairs-window (some n) (some k) rows table h =
      Pairs-take Encodes n _ _ (Pairs-drop Encodes k rows table h)

  satisfies-row :
      (numeric : String → Option ℕ) (p : Option Predicate) (r : RuntimeRecord J) (row : SqlRow)
      → HasTypes p
      → Encodes r row
      → satisfies numeric (condition_of p) row ≡ matches_predicate p r
  unfolding satisfies matches_predicate
  satisfies-row numeric none r row typed h = refl
  satisfies-row numeric (some p) r row typed h = evaluate-matches json numeric r row p h typed

  pub decode_all-Represents :
      (numeric : String → Option ℕ) (rows : List (RuntimeRecord J)) (table : List SqlRow)
      → Represents rows table
      → decode_all json numeric table ≡ some rows
  unfolding decode_all
  decode_all-Represents numeric [] [] h = refl
  decode_all-Represents numeric [] (row ∷ table) h = absurd h
  decode_all-Represents numeric (r ∷ rows) [] h = absurd h
  decode_all-Represents numeric (r ∷ rows) (row ∷ table) h = rw (
    decode_all,
    decode-encode_record json r row h.0,
    decode_all-Represents numeric rows table h.1,
  )

  pub run_query-Represents :
      (numeric : String → Option ℕ) (scan : Scan) (q : Query)
      → HasTypes q.predicate
      → All (λ o. IsPlain o.field) (orders_of q.order_by)
      → (rows : List (RuntimeRecord J)) (table : List SqlRow)
      → Represents rows (scan.visit (query_sql q) table)
      → Represents (select compare_text q rows) (run_query numeric scan (query_sql q) table)
  unfolding select ordered apply_window run_query query_sql
  run_query-Represents numeric scan q typed plain rows table h = Pairs-window q.limit q.offset _ _ (
      Pairs-sort Encodes (goes_before compare_text (orders_of q.order_by))
        (row_before (orders_of q.order_by))
        (λ a b row row' ha hb.
          ap is_le (compare_rows_lem (orders_of q.order_by) a b row row' plain ha hb))
        _ _
        (Pairs-filter Encodes (matches_predicate q.predicate)
          (satisfies numeric (condition_of q.predicate))
          (λ r row e. satisfies-row numeric q.predicate r row typed e) rows
          (scan.visit (query_sql q) table) h))
