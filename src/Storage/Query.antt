-- ===== src/Storage/Query.antt =====
-- src/Query.ts: predicates and queries of runtime records, and what src/RuntimeStorage.ts makes of
-- them. A comparison value of the wrong type for its field is possible, and matches as the code says.
use effect_pm.Prelude.{
  ℕ, Bool, true, false, not, ◌&&◌, ◌||◌, Option, none, some, List, str_eq, ltb, any,
}
use effect_pm.Storage.Record.{
  RuntimeRecord, FieldValue, text, flag, Field, DateField, field_value, date_field_value,
}

mutual
  pub data Predicate : Type 0 where
    equals not_equals : Field → FieldValue → Predicate
    is_in : Field → List FieldValue → Predicate
    is_null is_not_null : Field → Predicate
    after before : DateField → ℕ → Predicate
    between : DateField → ℕ → ℕ → Predicate
    and_of or_of : Predicates → Predicate

  pub data Predicates : Type 0 where
    nil : Predicates
    cons : Predicate → Predicates → Predicates

pub data Direction : Type 0 where
  asc desc : Direction

pub data OrderField : Type 0 where
  date_field : DateField → OrderField
  value_field : Field → OrderField

pub record OrderBy : Type 0 where
  pub field : OrderField
  pub direction : Direction

pub record Query : Type 0 where
  pub predicate : Option Predicate
  pub order_by : Option (List OrderBy)
  pub limit : Option ℕ
  pub offset : Option ℕ

abbrev pub bool_eq : Bool → Bool → Bool
bool_eq true b = b
bool_eq false b = not b

-- `===` on field values.
abbrev pub value_eq : FieldValue → FieldValue → Bool
value_eq (text s) (text t) = str_eq s t
value_eq (flag a) (flag b) = bool_eq a b
value_eq (text s) (flag b) = false
value_eq (flag a) (text t) = false

abbrev pub is_value : Option FieldValue → FieldValue → Bool
is_value none v = false
is_value (some w) v = value_eq w v

-- `value ?? ""`.
abbrev pub or_empty : Option FieldValue → FieldValue
or_empty none = text ""
or_empty (some v) = v

abbrev pub is_present : Option FieldValue → Bool
is_present none = false
is_present (some v) = true

module _ {J : Type 0} where
  unfoldable mutual
    unfolding field_value date_field_value

    pub matches : RuntimeRecord J → Predicate → Bool
    matches r (equals f v) = is_value (field_value r f) v
    matches r (not_equals f v) = not (is_value (field_value r f) v)
    matches r (is_in f vs) = any (λ v. value_eq (or_empty (field_value r f)) v) vs
    matches r (is_null f) = not (is_present (field_value r f))
    matches r (is_not_null f) = is_present (field_value r f)
    matches r (after f t) = ltb t (date_field_value r f)
    matches r (before f t) = ltb (date_field_value r f) t
    matches r (between f start end) =
        ltb start (date_field_value r f) && ltb (date_field_value r f) end
    -- An empty conjunction matches nothing.
    matches r (and_of nil) = false
    matches r (and_of (cons p ps)) = matches r p && matches_every r ps
    matches r (or_of ps) = matches_some r ps

    pub matches_every : RuntimeRecord J → Predicates → Bool
    matches_every r nil = true
    matches_every r (cons p ps) = matches r p && matches_every r ps

    pub matches_some : RuntimeRecord J → Predicates → Bool
    matches_some r nil = false
    matches_some r (cons p ps) = matches r p || matches_some r ps

  unfoldable pub matches_predicate : Option Predicate → RuntimeRecord J → Bool
  unfolding matches
  matches_predicate none r = true
  matches_predicate (some p) r = matches r p
