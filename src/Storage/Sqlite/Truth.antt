-- ===== src/Storage/Sqlite/Truth.antt =====
-- Which rows satisfy a condition of src/storage/sqlite/service.ts, by SQLite's rules: a comparison with
-- NULL is unknown, and `AND` and `OR` are Kleene's. `numeric` is the number that a text stands for
-- where a column of integer affinity is compared with it.
use effect_pm.Prelude.{
  ℕ, Bool, true, false, not, Option, none, some, List, String, str_eq, ltb, ◌==◌, any,
}
use effect_pm.Storage.Record.{TextField, Field, text_field, DateField}
use effect_pm.Storage.Sqlite.Codec.{SqlRow}
use effect_pm.Storage.Sqlite.Condition.{
  SqlValue, text_value, number_value, Connective, and_also, or_else, SqlCondition, never, always,
  column_eq, column_ne, null_or_ne, column_in, coalesce_in, column_null, column_not_null,
  date_after, date_before, date_between, combined, SqlConditions, end, also,
}

unfoldable pub text_column : SqlRow → TextField → Option String
text_column row TextField.id = some row.id
text_column row TextField.type = some row.type
text_column row TextField.run_id = some row.run_id
text_column row TextField.process_type = some row.process_type
text_column row TextField.process_id = some row.process_id
text_column row TextField.subject_type = row.subject_type
text_column row TextField.subject_id = row.subject_id
text_column row TextField.key = row.key
text_column row TextField.index_a = row.index_a
text_column row TextField.index_b = row.index_b
text_column row TextField.index_c = row.index_c
text_column row TextField.index_d = row.index_d
text_column row TextField.index_e = row.index_e
text_column row TextField.index_f = row.index_f
text_column row TextField.index_g = row.index_g
text_column row TextField.index_h = row.index_h

abbrev pub as_text_value : Option String → Option SqlValue
as_text_value none = none
as_text_value (some s) = some (text_value s)

abbrev pub as_number_value : Option ℕ → Option SqlValue
as_number_value none = none
as_number_value (some n) = some (number_value n)

unfoldable pub column_value : SqlRow → Field → Option SqlValue
unfolding text_column
column_value row (text_field f) = as_text_value (text_column row f)
column_value row Field.readonly = as_number_value row.readonly_int

unfoldable pub date_value : SqlRow → DateField → ℕ
date_value row DateField.occurred_at = row.occurred_at_ms
date_value row DateField.created_at = row.created_at_ms

-- Equality without affinity: a number is no text.
abbrev pub same_value : SqlValue → SqlValue → Bool
same_value (text_value s) (text_value t) = str_eq s t
same_value (number_value m) (number_value n) = m == n
same_value (text_value s) (number_value n) = false
same_value (number_value n) (text_value s) = false

abbrev pub is_number : Option ℕ → ℕ → Bool
is_number none n = false
is_number (some m) n = m == n

-- `x IS TRUE`.
abbrev pub is_sql_true : Option Bool → Bool
is_sql_true none = false
is_sql_true (some b) = b

abbrev pub sql_not : Option Bool → Option Bool
sql_not none = none
sql_not (some b) = some (not b)

abbrev pub sql_and : Option Bool → Option Bool → Option Bool
sql_and (some true) b = b
sql_and (some false) b = some false
sql_and none (some false) = some false
sql_and none (some true) = none
sql_and none none = none

abbrev pub sql_or : Option Bool → Option Bool → Option Bool
sql_or (some false) b = b
sql_or (some true) b = some true
sql_or none (some true) = some true
sql_or none (some false) = none
sql_or none none = none

abbrev pub connect : Connective → Option Bool → Option Bool → Option Bool
connect and_also = sql_and
connect or_else = sql_or

abbrev pub coalesced : Option SqlValue → SqlValue
coalesced none = text_value ""
coalesced (some w) = w

abbrev pub is_null_value : Option SqlValue → Bool
is_null_value none = true
is_null_value (some v) = false

module _ (numeric : String → Option ℕ) where
  -- Equality of a column and a parameter, the parameter under the affinity of the column.
  abbrev pub column_equals : SqlValue → SqlValue → Bool
  column_equals (number_value n) (text_value s) = is_number (numeric s) n
  column_equals (number_value n) (number_value m) = n == m
  column_equals (text_value s) w = same_value (text_value s) w

  abbrev pub compare_column : Option SqlValue → SqlValue → Option Bool
  compare_column none w = none
  compare_column (some v) w = some (column_equals v w)

  abbrev pub value_in : Option SqlValue → List SqlValue → Option Bool
  value_in none ws = none
  value_in (some v) ws = some (any (column_equals v) ws)

  unfoldable mutual
    unfolding column_value date_value

    pub evaluate : SqlRow → SqlCondition → Option Bool
    evaluate row never = some false
    evaluate row always = some true
    evaluate row (column_eq f w) = compare_column (column_value row f) w
    evaluate row (column_ne f w) = sql_not (compare_column (column_value row f) w)
    evaluate row (null_or_ne f w) =
        sql_or (some (is_null_value (column_value row f)))
          (sql_not (compare_column (column_value row f) w))
    evaluate row (column_in f ws) = value_in (column_value row f) ws
    evaluate row (coalesce_in f ws) = some (any (same_value (coalesced (column_value row f))) ws)
    evaluate row (column_null f) = some (is_null_value (column_value row f))
    evaluate row (column_not_null f) = some (not (is_null_value (column_value row f)))
    evaluate row (date_after f t) = some (ltb t (date_value row f))
    evaluate row (date_before f t) = some (ltb (date_value row f) t)
    evaluate row (date_between f start until) =
        sql_and (some (ltb start (date_value row f))) (some (ltb (date_value row f) until))
    evaluate row (combined c cs) = evaluate_all row c cs

    pub evaluate_all : SqlRow → Connective → SqlConditions → Option Bool
    -- An empty text is no condition; `combine` makes none.
    evaluate_all row c end = none
    evaluate_all row c (also d end) = evaluate row d
    evaluate_all row c (also d (also d' ds)) =
        connect c (evaluate row d) (evaluate_all row c (also d' ds))
