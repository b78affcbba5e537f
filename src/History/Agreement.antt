-- ===== src/History/Agreement.antt =====
-- src/HistoryStore.ts and src/storage/sqlite/historyStore.ts from the start: what a read answers after
-- the same appends.
use effect_pm.Prelude.{
  ℕ, ◌≡◌, refl, sym, ap, ◌∙◌, Bool, ◌&&◌, Option, none, some, List, [], ◌∷◌, String, filter, map,
  take, sort, Bool-cases, inl, inr,
}
use effect_pm.History.{
  HistoryReadOptions, Stamped, Streams, not_before, not_after, stream, last_of, last_some,
}
use effect_pm.History
use effect_pm.History.Sqlite
use effect_pm.History.Sqlite.{
  HistoryRow, EntryText, newest_first, oldest_first, in_stream, reversed, selected,
}
use effect_pm.History.Windows.{take-reversed, reversed_twice, reversed-map, last_of-map, filter-map}
use effect_pm.History.Rows.{IsAscending, sort-newest_first, sort-oldest_first, IsAscending-filter}
use effect_pm.History.Mirror.{
  Appended, IsOrdered, memory_after, table_after, Mirrors, stamped, after-Mirrors,
}

filter-and :
    {A : Type 0} (p q s : A → Bool) (xs : List A)
    → filter (λ x. p x && q x && s x) xs ≡ filter s (filter q (filter p xs))
filter-and p q s [] = refl
filter-and p q s (x ∷ xs) = elim (Bool-cases (p x)) [
  | inl e ↦ rw e (elim (Bool-cases (q x)) [
    | inl d ↦ rw d (elim (Bool-cases (s x)) [
      | inl c ↦ rw c (ap (λ ys. x ∷ ys) (filter-and p q s xs))
      | inr c ↦ rw c (filter-and p q s xs)
    ])
    | inr d ↦ rw d (filter-and p q s xs)
  ])
  | inr e ↦ rw e (filter-and p q s xs)
]

map-map :
    {A B C : Type 0} (f : A → B) (g : B → C) (xs : List A)
    → map g (map f xs) ≡ map (λ x. g (f x)) xs
map-map f g [] = refl
map-map f g (x ∷ xs) = ap (λ ys. g (f x) ∷ ys) (map-map f g xs)

module _ {E : Type 0} (text : EntryText E) where
  abbrev decoded : List HistoryRow → List E
  decoded rows = map (λ r. text.decode r.json) rows

  -- Both ways to answer, on rows that ascend.
  last_rows :
      (n : ℕ) (rows : List HistoryRow)
      → IsAscending rows
      → reversed (decoded (take n (sort newest_first rows)))
        ≡ map (λ e. e.entry) (last_of n (map (stamped text) rows))
  last_rows n rows asc =
      ap (λ rs. reversed (decoded (take n rs))) (sort-newest_first rows asc)
      ∙ ap (λ rs. reversed (decoded rs)) (take-reversed n rows)
      ∙ reversed-map (λ r. text.decode r.json) (reversed (last_of n rows))
      ∙ ap decoded (reversed_twice (last_of n rows))
      ∙ sym (map-map (stamped text) (λ e. e.entry) (last_of n rows))
      ∙ ap (map (λ e. e.entry)) (sym (last_of-map (stamped text) n rows))

  all_rows :
      (rows : List HistoryRow)
      → IsAscending rows
      → decoded (sort oldest_first rows) ≡ map (λ e. e.entry) (map (stamped text) rows)
  all_rows rows asc =
      ap decoded (sort-oldest_first rows asc) ∙ sym (map-map (stamped text) (λ e. e.entry) rows)

  module _ (id : String) (limit since until : Option ℕ) (last : ℕ) (table : List HistoryRow)
      (store : Streams E) (m : Mirrors text last table store) where
    abbrev opts : HistoryReadOptions
    opts = record { limit = limit; since = since; until = until }

    window-mirrored :
        filter (λ e. not_after until e.ts) (filter (λ e. not_before since e.ts) (stream id store))
        ≡ map (stamped text) (selected id opts table)
    window-mirrored =
        let from : Stamped E → Bool = λ e. not_before since e.ts in
        let upto : Stamped E → Bool = λ e. not_after until e.ts in
        let rows = filter (in_stream id) table in
        ap (λ es. filter upto (filter from es)) (sym (m.2 id))
        ∙ ap (filter upto) (filter-map (stamped text) from rows)
        ∙ filter-map (stamped text) upto (filter (λ r. not_before since r.ts) rows)
        ∙ ap (map (stamped text)) (
            sym (
              filter-and (in_stream id) (λ r. not_before since r.ts) (λ r. not_after until r.ts)
                table))

    selected-IsAscending : IsAscending (selected id opts table)
    selected-IsAscending = IsAscending-filter _ table m.0

  read-Mirrors :
      (id : String) (limit since until : Option ℕ) (last : ℕ) (table : List HistoryRow)
      (store : Streams E)
      → Mirrors text last table store
      → Sqlite.read text id (record { limit = limit; since = since; until = until }) table
        ≡ History.read id (record { limit = limit; since = since; until = until }) store
  unfolding Sqlite.read History.read
  read-Mirrors id none s u last table store m =
      all_rows _ (selected-IsAscending id none s u last table store m)
      ∙ ap (map (λ e. e.entry)) (sym (window-mirrored id none s u last table store m))
  read-Mirrors id (some n) s u last table store m =
      last_rows n _ (selected-IsAscending id (some n) s u last table store m)
      ∙ ap (λ es. map (λ e. e.entry) (last_of n es))
          (sym (window-mirrored id (some n) s u last table store m))

  -- From the empty table and the empty map, and with the same bound on both sides, every read answers
  -- the same on SQLite as in memory after any appends to any streams, as long as the clock has not
  -- gone back between them.
  pub read-after :
      (capacity start : ℕ) (appends : List (Appended E))
      → IsOrdered start appends
      → (id : String) (opts : HistoryReadOptions)
      → Sqlite.read text id opts (table_after text capacity appends [])
        ≡ History.read id opts (memory_after capacity appends [])
  read-after capacity start appends ordered id opts =
      let m = after-Mirrors text capacity start appends [] [] ordered (tt, tt, λ j. refl) in
      read-Mirrors id opts.limit opts.since opts.until m.0 (table_after text capacity appends [])
        (memory_after capacity appends []) m.1
