-- ===== src/Storage/Helpers.antt =====
-- src/internal/store/helpers.ts: the queries that the stores of process history make, and the window
-- that they apply to rows in memory.
pub mod PushDown
use effect_pm.Prelude.{
  ℕ, Bool, true, false, not, ◌&&◌, Option, none, some, List, [], ◌∷◌, ◌++◌, filter, take, ltb, leb,
  if◌then◌else◌,
}
use effect_pm.Storage.Record.{DateField, TextField, text_field}
use effect_pm.Storage.Query.{
  Predicate, Predicates, nil, cons, and_of, after, before, Query, OrderBy, date_field, value_field,
  desc,
}

-- `QueryOpts`: instants in milliseconds.
pub record QueryOpts : Type 0 where
  pub limit : Option ℕ
  pub before : Option ℕ
  pub after : Option ℕ

abbrev pub present : List (Option Predicate) → List Predicate
present [] = []
present (none ∷ ps) = present ps
present (some p ∷ ps) = p ∷ present ps

abbrev pub as_predicates : List Predicate → Predicates
as_predicates [] = nil
as_predicates (p ∷ ps) = cons p (as_predicates ps)

-- None, the only one, or a conjunction.
abbrev pub conjunction : List Predicate → Option Predicate
conjunction [] = none
conjunction (p ∷ []) = some p
conjunction (p ∷ q ∷ ps) = some (and_of (as_predicates (p ∷ q ∷ ps)))

unfoldable pub combine_predicates : List (Option Predicate) → Option Predicate
combine_predicates ps = conjunction (present ps)

abbrev pub before_part : Option ℕ → List Predicate
before_part none = []
before_part (some t) = before DateField.occurred_at t ∷ []

abbrev pub after_part : Option ℕ → List Predicate
after_part none = []
after_part (some t) = after DateField.occurred_at t ∷ []

unfoldable pub time_window_predicate : Option QueryOpts → Option Predicate
time_window_predicate none = none
time_window_predicate (some opts) = conjunction (before_part opts.before ++ after_part opts.after)

abbrev pub limit_of : Option QueryOpts → Option ℕ
limit_of none = none
limit_of (some opts) = opts.limit

-- The latest first; records of one instant by their ids, descending.
abbrev pub history_order : List OrderBy
history_order =
    record { field = date_field DateField.occurred_at; direction = desc }
    ∷ record { field = value_field (text_field TextField.id); direction = desc }
    ∷ []

unfoldable pub runtime_record_query : List (Option Predicate) → Option QueryOpts → Query
unfolding combine_predicates time_window_predicate
runtime_record_query ps opts = record {
  predicate = combine_predicates (ps ++ time_window_predicate opts ∷ []);
  order_by = some history_order;
  limit = limit_of opts;
  offset = none;
}

-- `windowOpts`: the time window without the limit.
unfoldable pub window_opts : Option QueryOpts → Option QueryOpts
window_opts none = none
window_opts (some opts) = some (record opts { limit = none })

abbrev pub not_reached : Option ℕ → ℕ → Bool
not_reached none t = true
not_reached (some limit) t = not (leb limit t)

abbrev pub is_past : Option ℕ → ℕ → Bool
is_past none t = true
is_past (some limit) t = not (leb t limit)

-- `timestamp >= opts.before` and `timestamp <= opts.after` are left out.
abbrev pub in_window : Option QueryOpts → ℕ → Bool
in_window none t = true
in_window (some opts) t = not_reached opts.before t && is_past opts.after t

abbrev pub at_most_of : {A : Type 0} → Option ℕ → List A → List A
at_most_of none xs = xs
at_most_of (some n) xs = take n xs

unfoldable pub apply_query_opts : {A : Type 0} → (A → ℕ) → Option QueryOpts → List A → List A
apply_query_opts timestamp opts rows =
    at_most_of (limit_of opts) (filter (λ r. in_window opts (timestamp r)) rows)
