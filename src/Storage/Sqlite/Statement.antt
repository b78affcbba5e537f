-- ===== src/Storage/Sqlite/Statement.antt =====
-- `querySql` of src/storage/sqlite/service.ts: the statement of a query, its text and parameters, and
-- the rows that it selects.
pub mod Bound
use Prim.Native.Nat.{compare, Ordering}
use Prim.Native.String.{compare as compare_text}
use effect_pm.Prelude.Reorder.{Reorders}
use effect_pm.Prelude.{
  ℕ, Bool, true, false, Option, none, some, List, [], ◌∷◌, ◌++◌, String, filter, sort,
}
use effect_pm.Storage.Record.{DateField}
use effect_pm.Storage.Query.{
  Query, OrderBy, OrderField, date_field, value_field, Direction, asc, desc, Predicate,
}
use effect_pm.Storage.Select.{directed, or_next, is_le, orders_of, skip, at_most}
use effect_pm.Storage.Sqlite.Codec.{SqlRow}
use effect_pm.Storage.Sqlite.Condition.{
  SqlValue, text_value, number_value, SqlCondition, predicate_sql, condition_text, condition_params,
  field_column, date_column, ◌+++◌,
}
use effect_pm.Storage.Sqlite.Truth.{column_value, date_value, evaluate, is_sql_true}

pub record SqlQuery : Type 0 where
  pub condition : Option SqlCondition
  pub order : List OrderBy
  pub limit : Option ℕ
  pub offset : Option ℕ

abbrev pub condition_of : Option Predicate → Option SqlCondition
condition_of none = none
condition_of (some p) = some (predicate_sql p)

unfoldable pub query_sql : Query → SqlQuery
unfolding predicate_sql
query_sql q = record {
  condition = condition_of q.predicate;
  order = orders_of q.order_by;
  limit = q.limit;
  offset = q.offset;
}

-- `orderFieldColumns`.
abbrev pub order_column : OrderField → String
order_column (date_field f) = date_column f
order_column (value_field f) = field_column f

abbrev pub direction_text : Direction → String
direction_text asc = " ASC"
direction_text desc = " DESC"

abbrev pub order_text : List OrderBy → String
order_text [] = ""
order_text (o ∷ []) = order_column o.field +++ direction_text o.direction
order_text (o ∷ o' ∷ os) =
    order_column o.field +++ direction_text o.direction +++ ", " +++ order_text (o' ∷ os)

abbrev pub where_text : Option SqlCondition → String
where_text none = ""
where_text (some c) = " WHERE " +++ condition_text c

abbrev pub where_params : Option SqlCondition → List SqlValue
where_params none = []
where_params (some c) = condition_params c

abbrev pub window_text : Option ℕ → Option ℕ → String
window_text none none = ""
window_text (some n) none = " LIMIT ?"
window_text none (some k) = " LIMIT -1 OFFSET ?"
window_text (some n) (some k) = " LIMIT ? OFFSET ?"

abbrev pub window_params : Option ℕ → Option ℕ → List SqlValue
window_params none none = []
window_params (some n) none = number_value n ∷ []
window_params none (some k) = number_value k ∷ []
window_params (some n) (some k) = number_value n ∷ number_value k ∷ []

unfoldable pub query_text : SqlQuery → String
unfolding condition_text
query_text q =
    "SELECT * FROM effect_pm_runtime_records"
    +++ where_text q.condition
    +++ " ORDER BY "
    +++ order_text q.order
    +++ window_text q.limit q.offset

unfoldable pub query_params : SqlQuery → List SqlValue
unfolding condition_params
query_params q = where_params q.condition ++ window_params q.limit q.offset

-- SQLite orders NULL before numbers, numbers before texts, and texts by their code points.
abbrev pub compare_values : Option SqlValue → Option SqlValue → Ordering
compare_values none none = Ordering.eq
compare_values none (some w) = Ordering.lt
compare_values (some v) none = Ordering.gt
compare_values (some (number_value m)) (some (number_value n)) = compare m n
compare_values (some (number_value m)) (some (text_value t)) = Ordering.lt
compare_values (some (text_value s)) (some (number_value n)) = Ordering.gt
compare_values (some (text_value s)) (some (text_value t)) = compare_text s t

unfoldable pub compare_rows_by : OrderField → SqlRow → SqlRow → Ordering
unfolding date_value column_value
compare_rows_by (date_field f) a b = compare (date_value a f) (date_value b f)
compare_rows_by (value_field f) a b = compare_values (column_value a f) (column_value b f)

unfoldable pub compare_rows : List OrderBy → SqlRow → SqlRow → Ordering
unfolding compare_rows_by
compare_rows [] a b = Ordering.eq
compare_rows (o ∷ os) a b =
    or_next (directed o.direction (compare_rows_by o.field a b)) (compare_rows os a b)

abbrev pub row_before : List OrderBy → SqlRow → SqlRow → Bool
row_before os a b = is_le (compare_rows os a b)

unfoldable pub satisfies : (String → Option ℕ) → Option SqlCondition → SqlRow → Bool
unfolding evaluate
satisfies numeric none row = true
satisfies numeric (some c) row = is_sql_true (evaluate numeric row c)

-- In which order SQLite comes upon the rows of the table, as its plan for the statement has it. Rows
-- that tie in `ORDER BY` keep this order.
pub record Scan : Type 0 where
  pub visit : SqlQuery → List SqlRow → List SqlRow
  pub reorders : (q : SqlQuery) (table : List SqlRow) → Reorders table (visit q table)

unfoldable pub run_query : (String → Option ℕ) → Scan → SqlQuery → List SqlRow → List SqlRow
unfolding satisfies compare_rows
run_query numeric scan q table = at_most q.limit (
    skip q.offset
      (sort (row_before q.order) (filter (satisfies numeric q.condition) (scan.visit q table))))
