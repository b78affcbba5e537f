-- ===== src/Storage/Helpers/PushDown.antt =====
-- What src/internal/store/helpers.ts pushes into storage selects what it would select in memory.
use effect_pm.Prelude.{
  ℕ, ◌≡◌, refl, sym, ap, ◌∙◌, Bool, true, false, ◌&&◌, Option, none, some, List, [], ◌∷◌, ◌++◌, all,
  filter, sort, arith, filter-sort,
}
use effect_pm.Storage.Record.{RuntimeRecord, date_field_value}
use effect_pm.Storage.Query.{Predicate, matches, matches_every, matches_predicate}
use effect_pm.Storage.Select.{Collation, select, ordered, apply_window, goes_before, at_most}
use effect_pm.Storage.Select.Laws.{IsComparison, goes_before-IsOrder}
use effect_pm.Storage.Memory.{read}
use effect_pm.Storage.Helpers.{
  QueryOpts, present, as_predicates, conjunction, combine_predicates, before_part, after_part,
  time_window_predicate, limit_of, history_order, runtime_record_query, in_window, not_reached,
  is_past, apply_query_opts, at_most_of,
}

module _ {J : Type 0} (r : RuntimeRecord J) where
  every-as_predicates :
      (ps : List Predicate) → matches_every r (as_predicates ps) ≡ all (matches r) ps
  unfolding matches
  every-as_predicates [] = refl
  every-as_predicates (p ∷ ps) = ap (λ b. matches r p && b) (every-as_predicates ps)

  and-true : (b : Bool) → b ≡ (b && true)
  and-true true = refl
  and-true false = refl

  matches-conjunction :
      (ps : List Predicate) → matches_predicate (conjunction ps) r ≡ all (matches r) ps
  unfolding matches_predicate matches
  matches-conjunction [] = refl
  matches-conjunction (p ∷ []) = and-true (matches r p)
  matches-conjunction (p ∷ q ∷ ps) = ap (λ b. matches r p && b) (every-as_predicates (q ∷ ps))

  window_parts :
      (b a : Option ℕ)
      → matches_predicate (conjunction (before_part b ++ after_part a)) r
        ≡ (not_reached b r.occurred_at && is_past a r.occurred_at)
  unfolding matches_predicate matches date_field_value
  window_parts none none = refl
  window_parts none (some a) = ground arith
  window_parts (some b) none = ground arith
  window_parts (some b) (some a) = ground arith

  matches-time_window_predicate :
      (opts : Option QueryOpts)
      → matches_predicate (time_window_predicate opts) r ≡ in_window opts r.occurred_at
  unfolding time_window_predicate matches_predicate matches
  matches-time_window_predicate none = refl
  matches-time_window_predicate (some opts) = window_parts opts.before opts.after

  all-present :
      (ps : List (Option Predicate)) (p : Option Predicate)
      → all (matches r) (present (ps ++ p ∷ []))
        ≡ (all (matches r) (present ps) && matches_predicate p r)
  unfolding matches_predicate
  all-present [] none = refl
  all-present [] (some p) = sym (and-true (matches r p))
  all-present (none ∷ ps) p = all-present ps p
  all-present (some q ∷ ps) p = ground (arith, all-present ps p)

  -- The predicate of a history query matches the records that match every predicate given and whose
  -- instant lies strictly inside the window.
  pub matches-runtime_record_query :
      (ps : List (Option Predicate)) (opts : Option QueryOpts)
      → matches_predicate (runtime_record_query ps opts).predicate r
        ≡ (all (matches r) (present ps) && in_window opts r.occurred_at)
  unfolding runtime_record_query combine_predicates
  matches-runtime_record_query ps opts =
      matches-conjunction (present (ps ++ time_window_predicate opts ∷ []))
      ∙ all-present ps (time_window_predicate opts)
      ∙ ap (λ b. all (matches r) (present ps) && b) (matches-time_window_predicate opts)

  window_apart :
      (ps : List (Option Predicate)) (opts : Option QueryOpts)
      → matches_predicate (runtime_record_query ps opts).predicate r ≡ (
          matches_predicate (runtime_record_query ps none).predicate r
          && in_window opts r.occurred_at)
  window_apart ps opts =
      matches-runtime_record_query ps opts
      ∙ ap (λ b. b && in_window opts r.occurred_at)
          (and-true (all (matches r) (present ps)) ∙ sym (matches-runtime_record_query ps none))

filter-filter :
    {A : Type 0} (p q s : A → Bool) (xs : List A)
    → ((x : A) → s x ≡ (p x && q x))
    → filter s xs ≡ filter q (filter p xs)
filter-filter p q s [] h = refl
filter-filter p q s (x ∷ xs) h = ground (arith, h x, filter-filter p q s xs h)

window_first :
    {A : Type 0} (opts : Option QueryOpts) (xs : List A)
    → at_most (limit_of opts) xs ≡ at_most_of (limit_of opts) xs
window_first none xs = refl
window_first (some opts) xs = elim opts.limit as (λ l. at_most l xs ≡ at_most_of l xs) [
  | none ↦ refl
  | some n ↦ refl
]

module _ {J : Type 0} (collate : Collation) (lawful : IsComparison collate) where
  -- A history query with options answers what `applyQueryOpts` makes of the answer without options:
  -- the time window and the limit may be applied in storage or afterwards.
  pub read-runtime_record_query :
      (ps : List (Option Predicate)) (opts : Option QueryOpts) (rows : List (RuntimeRecord J))
      → read collate (runtime_record_query ps opts) rows
        ≡ apply_query_opts
            (λ r. r.occurred_at)
            opts
            (read collate (runtime_record_query ps none) rows)
  unfolding read select ordered apply_window runtime_record_query apply_query_opts
  read-runtime_record_query ps opts rows =
      let le = goes_before {J = J} collate history_order in
      let inside = λ (r : RuntimeRecord J). in_window opts r.occurred_at in
      let plain = matches_predicate {J = J} (runtime_record_query ps none).predicate in
      let split : filter (matches_predicate (runtime_record_query ps opts).predicate) rows
          ≡ filter inside (filter plain rows) =
        filter-filter plain inside (matches_predicate (runtime_record_query ps opts).predicate) rows
          (λ r. window_apart r ps opts) in
      window_first opts _
      ∙ ap (λ xs. at_most_of (limit_of opts) (sort le xs)) split
      ∙ ap (at_most_of (limit_of opts)) (
          sym (
            filter-sort le (goes_before-IsOrder collate lawful history_order) inside
              (filter plain rows)))
