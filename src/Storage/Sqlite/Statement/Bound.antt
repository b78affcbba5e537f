-- ===== src/Storage/Sqlite/Statement/Bound.antt =====
-- The placeholders of the statements of src/storage/sqlite/service.ts.
use effect_pm.Prelude.{
  ℕ, ◌≡◌, refl, Option, none, some, List, [], ◌∷◌, length, length-append, arith,
}
use effect_pm.Storage.Query.{
  Query, OrderBy, OrderField, date_field, value_field, Direction, asc, desc,
}
use effect_pm.Storage.Sqlite.Condition.{SqlCondition}
use effect_pm.Storage.Sqlite.Condition.Placeholders.{
  marks, marks-append, marks-field_column, marks-date_column, placeholders_lem,
}
use effect_pm.Storage.Sqlite.Statement.{
  query_sql, order_column, direction_text, order_text, where_text, where_params, window_text,
  window_params, query_text, query_params,
}

marks-order_column : (f : OrderField) → marks (order_column f) ≡ 0
marks-order_column (date_field f) = marks-date_column f
marks-order_column (value_field f) = marks-field_column f

marks-direction_text : (d : Direction) → marks (direction_text d) ≡ 0
marks-direction_text asc = refl
marks-direction_text desc = refl

marks-order_text : (os : List OrderBy) → marks (order_text os) ≡ 0
marks-order_text [] = refl
marks-order_text (o ∷ []) =
    omega (arith, marks-append, marks-order_column o.field, marks-direction_text o.direction)
marks-order_text (o ∷ o' ∷ os) = omega (
  arith,
  marks-append,
  marks-order_column o.field,
  marks-direction_text o.direction,
  marks-order_text (o' ∷ os),
)

marks-where_text : (c : Option SqlCondition) → marks (where_text c) ≡ length (where_params c)
marks-where_text none = refl
marks-where_text (some c) = omega (arith, marks-append, placeholders_lem c)

marks-window_text :
    (limit offset : Option ℕ)
    → marks (window_text limit offset) ≡ length (window_params limit offset)
marks-window_text none none = refl
marks-window_text (some n) none = refl
marks-window_text none (some k) = refl
marks-window_text (some n) (some k) = refl

-- The text of the statement of any query has as many question marks as it has parameters.
pub marks-query_text :
    (q : Query) → marks (query_text (query_sql q)) ≡ length (query_params (query_sql q))
unfolding query_text query_params query_sql
marks-query_text q = omega (
  arith,
  marks-append,
  marks-where_text (query_sql q).condition,
  marks-order_text (query_sql q).order,
  marks-window_text q.limit q.offset,
  length-append (where_params (query_sql q).condition) (window_params q.limit q.offset),
)
