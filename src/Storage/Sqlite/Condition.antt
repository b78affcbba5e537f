-- ===== src/Storage/Sqlite/Condition.antt =====
-- `predicateSql` of src/storage/sqlite/service.ts: the condition of a predicate, its text and its
-- parameters, and which rows satisfy it. A condition keeps the form of the text that it stands for.
pub mod Placeholders
use Prim.Native.String.{◌++◌ as text_append}
use effect_pm.Prelude.{
  ℕ, Bool, true, false, not, ◌&&◌, ◌||◌, Option, none, some, List, [], ◌∷◌, ◌++◌, String, str_eq,
  ltb, ◌==◌, map, any, if◌then◌else◌,
}
use effect_pm.Storage.Record.{
  TextField, Field, text_field, DateField, occurred_at, created_at, FieldValue, text, flag,
}
use effect_pm.Storage.Query.{
  Predicate, Predicates, equals, not_equals, is_in, is_null, is_not_null, after, before, between,
  and_of, or_of, nil, cons,
}
use effect_pm.Storage.Sqlite.Codec.{SqlRow}

-- A bound parameter.
pub data SqlValue : Type 0 where
  text_value : String → SqlValue
  number_value : ℕ → SqlValue

pub data Connective : Type 0 where
  and_also or_else : Connective

mutual
  pub data SqlCondition : Type 0 where
    -- `1 = 0` and `1 = 1`
    never always : SqlCondition
    -- `column = ?`, `column <> ?`, `(column IS NULL OR column <> ?)`
    column_eq column_ne null_or_ne : Field → SqlValue → SqlCondition
    -- `column IN (?, ...)`, `COALESCE(column, '') IN (?, ...)`
    column_in coalesce_in : Field → List SqlValue → SqlCondition
    -- `column IS NULL`, `column IS NOT NULL`
    column_null column_not_null : Field → SqlCondition
    -- `column > ?`, `column < ?`, `(column > ? AND column < ?)`
    date_after date_before : DateField → ℕ → SqlCondition
    date_between : DateField → ℕ → ℕ → SqlCondition
    -- `(a) AND (b) AND ...`, `(a) OR (b) OR ...`
    combined : Connective → SqlConditions → SqlCondition

  pub data SqlConditions : Type 0 where
    end : SqlConditions
    also : SqlCondition → SqlConditions → SqlConditions

-- `optionalStringFields`.
abbrev pub is_optional_text : TextField → Bool
is_optional_text TextField.id = false
is_optional_text TextField.type = false
is_optional_text TextField.run_id = false
is_optional_text TextField.process_type = false
is_optional_text TextField.process_id = false
is_optional_text TextField.subject_type = true
is_optional_text TextField.subject_id = true
is_optional_text TextField.key = true
is_optional_text TextField.index_a = true
is_optional_text TextField.index_b = true
is_optional_text TextField.index_c = true
is_optional_text TextField.index_d = true
is_optional_text TextField.index_e = true
is_optional_text TextField.index_f = true
is_optional_text TextField.index_g = true
is_optional_text TextField.index_h = true

-- `optionalStringFields.has(field) || field === "readonly"`.
abbrev pub is_nullable : Field → Bool
is_nullable (text_field f) = is_optional_text f
is_nullable Field.readonly = true

abbrev pub comparison_value : Field → FieldValue → Option SqlValue
comparison_value (text_field f) (text s) = some (text_value s)
comparison_value (text_field f) (flag b) = none
comparison_value Field.readonly (text s) = some (text_value s)
comparison_value Field.readonly (flag true) = some (number_value 1)
comparison_value Field.readonly (flag false) = some (number_value 0)

-- `values.map(comparisonValue).filter(value => value !== null)`.
abbrev pub comparison_values : Field → List FieldValue → List SqlValue
comparison_values f [] = []
comparison_values f (v ∷ vs) = elim (comparison_value f v) [
  | none ↦ comparison_values f vs
  | some w ↦ w ∷ comparison_values f vs
]

-- `combineSelections`.
abbrev pub combine : Connective → SqlCondition → SqlConditions → SqlCondition
combine c fallback end = fallback
combine c fallback (also d ds) = combined c (also d ds)

abbrev pub in_condition : Field → List SqlValue → SqlCondition
in_condition f [] = never
in_condition f (w ∷ ws) = if is_nullable f then coalesce_in f (w ∷ ws) else column_in f (w ∷ ws)

unfoldable mutual
  pub predicate_sql : Predicate → SqlCondition
  predicate_sql (equals f v) = elim (comparison_value f v) [ none ↦ never | some w ↦ column_eq f w ]
  predicate_sql (not_equals f v) = elim (comparison_value f v) [
    | none ↦ always
    | some w ↦ if is_nullable f then null_or_ne f w else column_ne f w
  ]
  predicate_sql (is_in f vs) = in_condition f (comparison_values f vs)
  predicate_sql (is_null f) = column_null f
  predicate_sql (is_not_null f) = column_not_null f
  predicate_sql (after f t) = date_after f t
  predicate_sql (before f t) = date_before f t
  predicate_sql (between f start until) = date_between f start until
  predicate_sql (and_of ps) = combine and_also never (predicates_sql ps)
  predicate_sql (or_of ps) = combine or_else never (predicates_sql ps)

  pub predicates_sql : Predicates → SqlConditions
  predicates_sql nil = end
  predicates_sql (cons p ps) = also (predicate_sql p) (predicates_sql ps)

-- `fieldColumn`.
abbrev pub field_column : Field → String
field_column (text_field TextField.id) = "id"
field_column (text_field TextField.type) = "type"
field_column (text_field TextField.run_id) = "run_id"
field_column (text_field TextField.process_type) = "process_type"
field_column (text_field TextField.process_id) = "process_id"
field_column (text_field TextField.subject_type) = "subject_type"
field_column (text_field TextField.subject_id) = "subject_id"
field_column (text_field TextField.key) = "key"
field_column (text_field TextField.index_a) = "index_a"
field_column (text_field TextField.index_b) = "index_b"
field_column (text_field TextField.index_c) = "index_c"
field_column (text_field TextField.index_d) = "index_d"
field_column (text_field TextField.index_e) = "index_e"
field_column (text_field TextField.index_f) = "index_f"
field_column (text_field TextField.index_g) = "index_g"
field_column (text_field TextField.index_h) = "index_h"
field_column Field.readonly = "readonly_int"

abbrev pub date_column : DateField → String
date_column DateField.occurred_at = "occurred_at_ms"
date_column DateField.created_at = "created_at_ms"

infixr 65 ◌+++◌
abbrev pub ◌+++◌ : String → String → String
s +++ t = text_append s t

-- `values.map(() => "?").join(", ")`.
abbrev pub question_marks : List SqlValue → String
question_marks [] = ""
question_marks (w ∷ []) = "?"
question_marks (w ∷ w' ∷ ws) = "?" +++ ", " +++ question_marks (w' ∷ ws)

abbrev pub connective_text : Connective → String
connective_text and_also = " AND "
connective_text or_else = " OR "

unfoldable mutual
  pub condition_text : SqlCondition → String
  condition_text never = "1 = 0"
  condition_text always = "1 = 1"
  condition_text (column_eq f w) = field_column f +++ " = ?"
  condition_text (column_ne f w) = field_column f +++ " <> ?"
  condition_text (null_or_ne f w) =
      "(" +++ field_column f +++ " IS NULL OR " +++ field_column f +++ " <> ?)"
  condition_text (column_in f ws) = field_column f +++ " IN (" +++ question_marks ws +++ ")"
  condition_text (coalesce_in f ws) =
      "COALESCE(" +++ field_column f +++ ", '') IN (" +++ question_marks ws +++ ")"
  condition_text (column_null f) = field_column f +++ " IS NULL"
  condition_text (column_not_null f) = field_column f +++ " IS NOT NULL"
  condition_text (date_after f t) = date_column f +++ " > ?"
  condition_text (date_before f t) = date_column f +++ " < ?"
  condition_text (date_between f start until) =
      "(" +++ date_column f +++ " > ? AND " +++ date_column f +++ " < ?)"
  condition_text (combined c cs) = conditions_text c cs

  pub conditions_text : Connective → SqlConditions → String
  conditions_text c end = ""
  conditions_text c (also d end) = "(" +++ condition_text d +++ ")"
  conditions_text c (also d (also d' ds)) =
      "(" +++ condition_text d +++ ")" +++ connective_text c +++ conditions_text c (also d' ds)

unfoldable mutual
  pub condition_params : SqlCondition → List SqlValue
  condition_params never = []
  condition_params always = []
  condition_params (column_eq f w) = w ∷ []
  condition_params (column_ne f w) = w ∷ []
  condition_params (null_or_ne f w) = w ∷ []
  condition_params (column_in f ws) = ws
  condition_params (coalesce_in f ws) = ws
  condition_params (column_null f) = []
  condition_params (column_not_null f) = []
  condition_params (date_after f t) = number_value t ∷ []
  condition_params (date_before f t) = number_value t ∷ []
  condition_params (date_between f start until) = number_value start ∷ number_value until ∷ []
  condition_params (combined c cs) = conditions_params cs

  pub conditions_params : SqlConditions → List SqlValue
  conditions_params end = []
  conditions_params (also d ds) = condition_params d ++ conditions_params ds
