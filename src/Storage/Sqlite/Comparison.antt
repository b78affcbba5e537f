-- ===== src/Storage/Sqlite/Comparison.antt =====
-- A column of src/storage/sqlite/service.ts compared with a parameter, against the field compared with
-- the value.
use effect_pm.Prelude.{
  ℕ, ◌≡◌, refl, Bool, true, false, not, ◌||◌, Option, none, some, List, [], ◌∷◌, String, str_eq,
  any, ap, arith, All,
}
use effect_pm.Storage.Record.{
  TextField, Field, text_field, FieldValue, text, flag, as_text, as_flag,
}
use effect_pm.Storage.Query.{value_eq, is_value, or_empty}
use effect_pm.Storage.Sqlite.Codec.{readonly_int_of}
use effect_pm.Storage.Sqlite.Condition.{
  SqlValue, text_value as text_param, comparison_value, comparison_values,
}
use effect_pm.Storage.Sqlite.Truth.{
  as_text_value, as_number_value, is_sql_true, compare_column, coalesced, same_value, column_equals,
  sql_not, is_null_value, sql_or,
}

-- The flag `readonly` is compared with Booleans only.
abbrev pub FitsField : Field → FieldValue → Type 0
FitsField (text_field f) v = Unit
FitsField Field.readonly (flag b) = Unit
FitsField Field.readonly (text s) = ⊥

-- A text column, which holds `o`.
module _ (numeric : String → Option ℕ) where
  pub text_eq :
      (o : Option String) (s : String)
      → is_sql_true (compare_column numeric (as_text_value o) (text_param s))
        ≡ is_value (as_text o) (text s)
  text_eq none s = refl
  text_eq (some t) s = refl

  pub text_ne :
      (o : Option String) (s : String)
      → is_sql_true (
          sql_or
            (some (is_null_value (as_text_value o)))
            (sql_not (compare_column numeric (as_text_value o) (text_param s))))
        ≡ not (is_value (as_text o) (text s))
  text_ne none s = refl
  text_ne (some t) s = refl

  pub flag_eq :
      (o : Option Bool) (v : FieldValue) (w : SqlValue)
      → FitsField Field.readonly v
      → comparison_value Field.readonly v ≡ some w
      → is_sql_true (compare_column numeric (as_number_value (readonly_int_of o)) w)
        ≡ is_value (as_flag o) v
  flag_eq o (text s) w fits h = absurd fits
  flag_eq none (flag b) w fits h = refl
  flag_eq (some true) (flag true) w fits h = ground (arith, h)
  flag_eq (some true) (flag false) w fits h = ground (arith, h)
  flag_eq (some false) (flag true) w fits h = ground (arith, h)
  flag_eq (some false) (flag false) w fits h = ground (arith, h)

  pub flag_ne :
      (o : Option Bool) (v : FieldValue) (w : SqlValue)
      → FitsField Field.readonly v
      → comparison_value Field.readonly v ≡ some w
      → is_sql_true (
          sql_or
            (some (is_null_value (as_number_value (readonly_int_of o))))
            (sql_not (compare_column numeric (as_number_value (readonly_int_of o)) w)))
        ≡ not (is_value (as_flag o) v)
  flag_ne o (text s) w fits h = absurd fits
  flag_ne none (flag b) w fits h = refl
  flag_ne (some true) (flag true) w fits h = ground (arith, h)
  flag_ne (some true) (flag false) w fits h = ground (arith, h)
  flag_ne (some false) (flag true) w fits h = ground (arith, h)
  flag_ne (some false) (flag false) w fits h = ground (arith, h)

  pub text_in :
      (o : Option String) (f : TextField) (vs : List FieldValue)
      → any (same_value (coalesced (as_text_value o))) (comparison_values (text_field f) vs)
        ≡ any (λ v. value_eq (or_empty (as_text o)) v) vs
  text_in o f [] = refl
  text_in none f (text s ∷ vs) = ap (λ b. str_eq "" s || b) (text_in none f vs)
  text_in (some t) f (text s ∷ vs) = ap (λ b. str_eq t s || b) (text_in (some t) f vs)
  text_in none f (flag b ∷ vs) = text_in none f vs
  text_in (some t) f (flag b ∷ vs) = text_in (some t) f vs

  pub text_in_required :
      (t : String) (f : TextField) (vs : List FieldValue)
      → any (column_equals numeric (text_param t)) (comparison_values (text_field f) vs)
        ≡ any (λ v. value_eq (text t) v) vs
  text_in_required t f [] = refl
  text_in_required t f (text s ∷ vs) = ap (λ b. str_eq t s || b) (text_in_required t f vs)
  text_in_required t f (flag b ∷ vs) = text_in_required t f vs

  pub flag_in :
      (o : Option Bool) (vs : List FieldValue)
      → All (FitsField Field.readonly) vs
      → any
          (same_value (coalesced (as_number_value (readonly_int_of o))))
          (comparison_values Field.readonly vs)
        ≡ any (λ v. value_eq (or_empty (as_flag o)) v) vs
  flag_in o [] fits = refl
  flag_in o (text s ∷ vs) fits = absurd fits.0
  flag_in none (flag true ∷ vs) fits = flag_in none vs fits.1
  flag_in none (flag false ∷ vs) fits = flag_in none vs fits.1
  flag_in (some true) (flag true ∷ vs) fits = refl
  flag_in (some true) (flag false ∷ vs) fits = flag_in (some true) vs fits.1
  flag_in (some false) (flag true ∷ vs) fits = flag_in (some false) vs fits.1
  flag_in (some false) (flag false ∷ vs) fits = refl
