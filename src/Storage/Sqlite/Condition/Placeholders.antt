-- ===== src/Storage/Sqlite/Condition/Placeholders.antt =====
-- The text of a condition of src/storage/sqlite/service.ts has one placeholder for each parameter.
use Prim.Native.Char.{code}
use Prim.Native.String.{String}
use text.Mathlib.TextLemmas
use effect_pm.Prelude.{
  ℕ, ◌+◌, ◌≡◌, refl, List, [], ◌∷◌, length, length-append, ◌==◌, if◌then◌else◌, arith, ap,
}
use effect_pm.Storage.Record.{TextField, Field, text_field, DateField}
use effect_pm.Storage.Sqlite.Condition.{
  SqlValue, Connective, and_also, or_else, SqlCondition, never, always, column_eq, column_ne,
  null_or_ne, column_in, coalesce_in, column_null, column_not_null, date_after, date_before,
  date_between, combined, SqlConditions, end, also, field_column, date_column, ◌+++◌,
  question_marks, connective_text, condition_text, conditions_text, condition_params,
  conditions_params,
}

-- How many question marks stand in a text.
abbrev pub marks : String → ℕ
marks String.[] = 0
marks (String.◌∷◌ c s) = (if code c == b'?' then 1 else 0) + marks s

pub marks-append : (s t : String) → marks (s +++ t) ≡ marks s + marks t
marks-append String.[] t = omega (arith, ap marks (TextLemmas.nil-append t))
marks-append (String.◌∷◌ c s) t =
    omega (arith, ap marks (TextLemmas.cons-append c s t), marks-append s t)

pub marks-field_column : (f : Field) → marks (field_column f) ≡ 0
marks-field_column (text_field TextField.id) = refl
marks-field_column (text_field _) = refl
marks-field_column Field.readonly = refl

pub marks-date_column : (f : DateField) → marks (date_column f) ≡ 0
marks-date_column DateField.occurred_at = refl
marks-date_column DateField.created_at = refl

marks-question_marks : (ws : List SqlValue) → marks (question_marks ws) ≡ length ws
marks-question_marks [] = refl
marks-question_marks (w ∷ []) = refl
marks-question_marks (w ∷ w' ∷ ws) = omega (
  arith,
  marks-append "?" (", " +++ question_marks (w' ∷ ws)),
  marks-append ", " (question_marks (w' ∷ ws)),
  marks-question_marks (w' ∷ ws),
)

marks-connective_text : (c : Connective) → marks (connective_text c) ≡ 0
marks-connective_text and_also = refl
marks-connective_text or_else = refl

mutual
  unfolding condition_text condition_params

  marks-condition_text : (c : SqlCondition) → marks (condition_text c) ≡ length (condition_params c)
  marks-condition_text never = refl
  marks-condition_text always = refl
  marks-condition_text (column_eq f w) = omega (arith, marks-append, marks-field_column f)
  marks-condition_text (column_ne f w) = omega (arith, marks-append, marks-field_column f)
  marks-condition_text (null_or_ne f w) = omega (arith, marks-append, marks-field_column f)
  marks-condition_text (column_in f ws) =
      omega (arith, marks-append, marks-field_column f, marks-question_marks ws)
  marks-condition_text (coalesce_in f ws) =
      omega (arith, marks-append, marks-field_column f, marks-question_marks ws)
  marks-condition_text (column_null f) = omega (arith, marks-append, marks-field_column f)
  marks-condition_text (column_not_null f) = omega (arith, marks-append, marks-field_column f)
  marks-condition_text (date_after f t) = omega (arith, marks-append, marks-date_column f)
  marks-condition_text (date_before f t) = omega (arith, marks-append, marks-date_column f)
  marks-condition_text (date_between f start until) =
      omega (arith, marks-append, marks-date_column f)
  marks-condition_text (combined c cs) = marks-conditions_text c cs

  marks-conditions_text :
      (c : Connective) (cs : SqlConditions)
      → marks (conditions_text c cs) ≡ length (conditions_params cs)
  marks-conditions_text c end = refl
  marks-conditions_text c (also d end) =
      omega (arith, marks-append, marks-condition_text d, length-append (condition_params d) [])
  marks-conditions_text c (also d (also d' ds)) = omega (
    arith,
    marks-append,
    marks-condition_text d,
    marks-connective_text c,
    marks-conditions_text c (also d' ds),
    length-append (condition_params d) (conditions_params (also d' ds)),
  )

-- The text of every condition has as many placeholders as parameters are bound.
pub placeholders_lem : (c : SqlCondition) → marks (condition_text c) ≡ length (condition_params c)
placeholders_lem c = marks-condition_text c
