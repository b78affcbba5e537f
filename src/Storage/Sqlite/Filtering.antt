-- ===== src/Storage/Sqlite/Filtering.antt =====
-- The conditions that src/storage/sqlite/service.ts builds select the rows whose records match.
use effect_pm.Prelude.{
  ℕ, ◌≡◌, refl, Bool, true, false, not, ◌&&◌, ◌||◌, Option, none, some, List, [], ◌∷◌, String, ltb,
  any, ◌∙◌, ap, sym, Bool-cases, Option-cases, inl, inr, All,
}
use effect_pm.Storage.Record.{
  RuntimeRecord, TextField, Field, text_field, DateField, FieldValue, text, flag, field_value,
  text_value, as_text, as_flag,
}
use effect_pm.Storage.Query.{
  Predicate, Predicates, equals, not_equals, is_in, is_null, is_not_null, after, before, between,
  and_of, or_of, nil, cons, matches, is_present,
}
use effect_pm.Storage.Sqlite.Codec.{JsonText, SqlRow, row_of, encode_record, readonly_int_of}
use effect_pm.Storage.Sqlite.Codec.RoundTrip.{encode_record-parts}
use effect_pm.Storage.Sqlite.Condition.{
  SqlValue, text_value as text_param, is_nullable, is_optional_text, comparison_values,
  in_condition, predicate_sql, column_null, column_not_null,
}
use effect_pm.Storage.Sqlite.Truth.{
  text_column, column_value, as_text_value, as_number_value, evaluate, is_sql_true, coalesced,
  same_value, column_equals, is_null_value, sql_and, sql_or,
}
use effect_pm.Storage.Sqlite.Comparison.{
  FitsField, text_eq, text_ne, flag_eq, flag_ne, text_in, text_in_required, flag_in,
}

unfoldable mutual
  pub IsTyped : Predicate → Type 0
  IsTyped (equals f v) = FitsField f v
  IsTyped (not_equals f v) = FitsField f v
  IsTyped (is_in f vs) = All (FitsField f) vs
  IsTyped (and_of ps) = AreTyped ps
  IsTyped (or_of ps) = AreTyped ps
  IsTyped _ = Unit

  pub AreTyped : Predicates → Type 0
  AreTyped nil = Unit
  AreTyped (cons p ps) = IsTyped p × AreTyped ps

and-true : (b : Bool) → (b && true) ≡ b
and-true true = refl
and-true false = refl

or-false : (b : Bool) → (b || false) ≡ b
or-false true = refl
or-false false = refl

not-not : (b : Bool) → not (not b) ≡ b
not-not true = refl
not-not false = refl

is_sql_true-and : (a b : Option Bool) → is_sql_true (sql_and a b) ≡ (is_sql_true a && is_sql_true b)
is_sql_true-and none none = refl
is_sql_true-and none (some true) = refl
is_sql_true-and none (some false) = refl
is_sql_true-and (some true) b = refl
is_sql_true-and (some false) b = refl

is_sql_true-or : (a b : Option Bool) → is_sql_true (sql_or a b) ≡ (is_sql_true a || is_sql_true b)
is_sql_true-or none none = refl
is_sql_true-or none (some true) = refl
is_sql_true-or none (some false) = refl
is_sql_true-or (some true) b = refl
is_sql_true-or (some false) b = refl

module _ (numeric : String → Option ℕ) (row : SqlRow) where
  nullable_in :
      (f : Field) (ws : List SqlValue)
      → is_nullable f ≡ true
      → is_sql_true (evaluate numeric row (in_condition f ws))
        ≡ any (same_value (coalesced (column_value row f))) ws
  unfolding evaluate
  nullable_in f [] e = refl
  nullable_in f (w ∷ ws) e = rw e

  required_in :
      (f : Field) (ws : List SqlValue) (v : SqlValue)
      → is_nullable f ≡ false
      → column_value row f ≡ some v
      → is_sql_true (evaluate numeric row (in_condition f ws)) ≡ any (column_equals numeric v) ws
  unfolding evaluate
  required_in f [] v e h = refl
  required_in f (w ∷ ws) v e h = rw (e, evaluate, h)

pub required_text :
    {J : Type 0} (r : RuntimeRecord J) (f : TextField)
    → is_optional_text f ≡ false
    → (s : String) × (text_value r f ≡ some s)
unfolding text_value
required_text r TextField.id e = (r.id, refl)
required_text r TextField.type e = (r.type, refl)
required_text r TextField.run_id e = (r.run_id, refl)
required_text r TextField.process_type e = (r.process_type, refl)
required_text r TextField.process_id e = (r.process_id, refl)
required_text r TextField.subject_type e = cc
required_text r _ e = cc

module _ {J : Type 0} (numeric : String → Option ℕ) (r : RuntimeRecord J)
    (names payload attributes : Option String) where
  abbrev row : SqlRow
  row = row_of r names payload attributes

  pub text_column-row : (f : TextField) → text_column row f ≡ text_value r f
  unfolding text_column text_value
  text_column-row TextField.id = refl
  text_column-row _ = refl

  equals_lem :
      (f : Field) (v : FieldValue)
      → FitsField f v
      → is_sql_true (evaluate numeric row (predicate_sql (equals f v))) ≡ matches r (equals f v)
  unfolding predicate_sql evaluate matches
  equals_lem (text_field f) (text s) fits =
      rw (text_column-row f) (text_eq numeric (text_value r f) s)
  equals_lem (text_field f) (flag b) fits = elim (Option-cases (text_value r f)) [
    | inl e ↦ rw e
    | inr (t, e) ↦ rw e
  ]
  equals_lem Field.readonly (text s) fits = absurd fits
  equals_lem Field.readonly (flag true) fits = flag_eq numeric r.readonly (flag true) _ tt refl
  equals_lem Field.readonly (flag false) fits = flag_eq numeric r.readonly (flag false) _ tt refl

  not_equals_lem :
      (f : Field) (v : FieldValue)
      → FitsField f v
      → is_sql_true (evaluate numeric row (predicate_sql (not_equals f v)))
        ≡ matches r (not_equals f v)
  unfolding predicate_sql evaluate matches
  not_equals_lem (text_field f) (text s) fits = elim (Bool-cases (is_optional_text f)) [
    | inl e ↦ rw (predicate_sql, e) (rw (text_column-row f) (text_ne numeric (text_value r f) s))
    | inr e ↦ let (t, h) = required_text r f e in rw (predicate_sql, e) (rw (text_column-row f, h))
  ]
  not_equals_lem (text_field f) (flag b) fits = elim (Option-cases (text_value r f)) [
    | inl e ↦ rw e
    | inr (t, e) ↦ rw e
  ]
  not_equals_lem Field.readonly (text s) fits = absurd fits
  not_equals_lem Field.readonly (flag true) fits = flag_ne numeric r.readonly (flag true) _ tt refl
  not_equals_lem Field.readonly (flag false) fits =
      flag_ne numeric r.readonly (flag false) _ tt refl

  is_in_lem :
      (f : Field) (vs : List FieldValue)
      → All (FitsField f) vs
      → is_sql_true (evaluate numeric row (predicate_sql (is_in f vs))) ≡ matches r (is_in f vs)
  unfolding predicate_sql matches column_value
  is_in_lem (text_field f) vs fits = elim (Bool-cases (is_optional_text f)) [
    | inl e ↦
        nullable_in numeric row (text_field f) (comparison_values (text_field f) vs) e
        ∙ rw (text_column-row f) (text_in numeric (text_value r f) f vs)
    | inr e ↦
        let (t, h) = required_text r f e in
        let held : column_value row (text_field f) ≡ some (text_param t) =
          rw (text_column-row f, h) in
        required_in numeric row (text_field f) (comparison_values (text_field f) vs) (text_param t)
          e held
        ∙ rw h (text_in_required numeric t f vs)
  ]
  is_in_lem Field.readonly vs fits =
      nullable_in numeric row Field.readonly (comparison_values Field.readonly vs) refl
      ∙ flag_in numeric r.readonly vs fits

  is_null_lem :
      (f : Field) → is_sql_true (evaluate numeric row (column_null f)) ≡ matches r (is_null f)
  unfolding evaluate matches
  is_null_lem (text_field f) =
      rw (text_column-row f)
        (elim (text_value r f)
          as (λ o. is_null_value (as_text_value o) ≡ not (is_present (as_text o))) [
            | none ↦ refl
            | some t ↦ refl
          ])
  is_null_lem Field.readonly =
      elim r.readonly
        as (λ o.
          is_null_value (as_number_value (readonly_int_of o)) ≡ not (is_present (as_flag o))) [
            | none ↦ refl
            | some b ↦
                elim b
                  as (λ o. is_null_value (as_number_value (readonly_int_of (some o))) ≡ false) [
                    | true ↦ refl
                    | false ↦ refl
                  ]
          ]

  is_not_null_lem :
      (f : Field)
      → is_sql_true (evaluate numeric row (column_not_null f)) ≡ matches r (is_not_null f)
  unfolding evaluate matches
  is_not_null_lem f = ap not (is_null_lem f) ∙ not-not (is_present (field_value r f))

  abbrev Agrees : Predicate → Type 0
  Agrees p = is_sql_true (evaluate numeric row (predicate_sql p)) ≡ matches r p

  every_step :
      (p : Predicate) (ps : Predicates)
      → Agrees p
      → Agrees (and_of ps)
      → Agrees (and_of (cons p ps))
  unfolding predicate_sql evaluate matches
  every_step p nil h hs = h ∙ sym (and-true (matches r p))
  every_step p (cons p' ps) h hs =
      is_sql_true-and (evaluate numeric row (predicate_sql p)) _ ∙ cc (h, hs)

  some_step :
      (p : Predicate) (ps : Predicates) → Agrees p → Agrees (or_of ps) → Agrees (or_of (cons p ps))
  unfolding predicate_sql evaluate matches
  some_step p nil h hs = h ∙ sym (or-false (matches r p))
  some_step p (cons p' ps) h hs =
      is_sql_true-or (evaluate numeric row (predicate_sql p)) _ ∙ cc (h, hs)

  mutual
    unfolding predicate_sql evaluate matches IsTyped

    satisfies-row :
        (p : Predicate)
        → IsTyped p
        → is_sql_true (evaluate numeric row (predicate_sql p)) ≡ matches r p
    satisfies-row (equals f v) typed = equals_lem f v typed
    satisfies-row (not_equals f v) typed = not_equals_lem f v typed
    satisfies-row (is_in f vs) typed = is_in_lem f vs typed
    satisfies-row (is_null f) typed = is_null_lem f
    satisfies-row (is_not_null f) typed = is_not_null_lem f
    satisfies-row (after DateField.occurred_at t) typed = refl
    satisfies-row (after DateField.created_at t) typed = refl
    satisfies-row (before DateField.occurred_at t) typed = refl
    satisfies-row (before DateField.created_at t) typed = refl
    satisfies-row (between DateField.occurred_at s t) typed =
        is_sql_true-and (some (ltb s r.occurred_at)) (some (ltb r.occurred_at t))
    satisfies-row (between DateField.created_at s t) typed =
        is_sql_true-and (some (ltb s r.created_at)) (some (ltb r.created_at t))
    satisfies-row (and_of ps) typed = satisfies_every ps typed
    satisfies-row (or_of ps) typed = satisfies_some ps typed

    satisfies_every :
        (ps : Predicates)
        → AreTyped ps
        → is_sql_true (evaluate numeric row (predicate_sql (and_of ps))) ≡ matches r (and_of ps)
    satisfies_every nil typed = refl
    satisfies_every (cons p ps) typed =
        every_step p ps (satisfies-row p typed.0) (satisfies_every ps typed.1)

    satisfies_some :
        (ps : Predicates)
        → AreTyped ps
        → is_sql_true (evaluate numeric row (predicate_sql (or_of ps))) ≡ matches r (or_of ps)
    satisfies_some nil typed = refl
    satisfies_some (cons p ps) typed =
        some_step p ps (satisfies-row p typed.0) (satisfies_some ps typed.1)

module _ {J : Type 0} (json : JsonText J) (numeric : String → Option ℕ) where
  -- A row satisfies the condition of a predicate exactly when the record that it encodes matches the
  -- predicate in memory, as long as `readonly` is compared with Booleans only.
  pub evaluate-matches :
      (r : RuntimeRecord J) (row : SqlRow) (p : Predicate)
      → encode_record json r ≡ some row
      → IsTyped p
      → is_sql_true (evaluate numeric row (predicate_sql p)) ≡ matches r p
  evaluate-matches r row p h typed =
      let (names, payload, attributes, _, _, _, e) = encode_record-parts json r row h in
      rw e (satisfies-row numeric r names payload attributes p typed)
