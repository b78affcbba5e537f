-- ===== src/Storage/Select.antt =====
-- `selectRuntimeRecords` of src/RuntimeStorage.ts: the filter, the order and the window of a query.
-- `collate` is `String.prototype.localeCompare`, of which only the sign is used.
pub mod Windows
pub mod Laws
use Prim.Native.Nat.{compare, Ordering}
use effect_pm.Prelude.{
  ℕ, ◌≡◌, refl, Bool, true, false, Option, none, some, List, [], ◌∷◌, String, filter, take, drop,
  sort,
}
use effect_pm.Storage.Record.{
  RuntimeRecord, DateField, Field, FieldValue, text, flag, field_value, date_field_value,
}
use effect_pm.Storage.Query.{
  Query, OrderBy, OrderField, date_field, value_field, Direction, asc, desc, matches_predicate,
}

abbrev pub Collation : Type 0
Collation = String → String → Ordering

-- `String(value ?? "")`.
abbrev pub shown : Option FieldValue → String
shown none = ""
shown (some (text s)) = s
shown (some (flag true)) = "true"
shown (some (flag false)) = "false"

abbrev pub flip : Ordering → Ordering
flip Ordering.lt = Ordering.gt
flip Ordering.eq = Ordering.eq
flip Ordering.gt = Ordering.lt

-- `comparison * direction`.
abbrev pub directed : Direction → Ordering → Ordering
directed asc o = o
directed desc o = flip o

abbrev pub is_le : Ordering → Bool
is_le Ordering.gt = false
is_le _ = true

-- The first comparison that is not 0 decides.
abbrev pub or_next : Ordering → Ordering → Ordering
or_next Ordering.lt next = Ordering.lt
or_next Ordering.eq next = next
or_next Ordering.gt next = Ordering.gt

abbrev pub default_order : List OrderBy
default_order = record { field = date_field DateField.occurred_at; direction = desc } ∷ []

abbrev pub orders_of : Option (List OrderBy) → List OrderBy
orders_of none = default_order
orders_of (some orders) = orders

abbrev pub skip : {A : Type 0} → Option ℕ → List A → List A
skip none xs = xs
skip (some n) xs = drop n xs

abbrev pub at_most : {A : Type 0} → Option ℕ → List A → List A
at_most none xs = xs
at_most (some n) xs = take n xs

module _ {J : Type 0} where
  unfoldable pub apply_window : Query → List (RuntimeRecord J) → List (RuntimeRecord J)
  apply_window q rows = at_most q.limit (skip q.offset rows)

  module _ (collate : Collation) where
    unfoldable pub compare_by : OrderField → RuntimeRecord J → RuntimeRecord J → Ordering
    unfolding date_field_value field_value
    compare_by (date_field f) a b = compare (date_field_value a f) (date_field_value b f)
    compare_by (value_field f) a b = collate (shown (field_value a f)) (shown (field_value b f))

    unfoldable pub compare_all : List OrderBy → RuntimeRecord J → RuntimeRecord J → Ordering
    unfolding compare_by
    compare_all [] a b = Ordering.eq
    compare_all (o ∷ os) a b =
        or_next (directed o.direction (compare_by o.field a b)) (compare_all os a b)

    abbrev pub goes_before : List OrderBy → RuntimeRecord J → RuntimeRecord J → Bool
    goes_before os a b = is_le (compare_all os a b)

    unfoldable pub ordered : Query → List (RuntimeRecord J) → List (RuntimeRecord J)
    unfolding compare_all
    ordered q rows = sort (goes_before (orders_of q.order_by)) rows

    unfoldable pub select : Query → List (RuntimeRecord J) → List (RuntimeRecord J)
    unfolding ordered apply_window matches_predicate
    select q rows = apply_window q (ordered q (filter (matches_predicate q.predicate) rows))
