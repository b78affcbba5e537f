-- ===== src/History/Mirror.antt =====
-- src/HistoryStore.ts and src/storage/sqlite/historyStore.ts after the same appends: the rows of each
-- stream of the table, in their order, are the entries of that stream in memory.
use effect_pm.Prelude.{
  subst, append-nil, ℕ, ◌≤◌, ◌<◌, ◌≡◌, refl, sym, ap, ◌∙◌, some, List, [], ◌∷◌, ◌++◌, String,
  str_eq, str_eq_iff, filter, filter-append, All, All-append, All-filter, map, map-append, arith,
  Bool-cases, inl, inr,
}
use effect_pm.Prelude.Dict.{or_value, get-set, get-set_other}
use effect_pm.History.{
  HistoryReadOptions, Stamped, Streams, not_before, not_after, stream, last_of, last_some,
}
use effect_pm.History
use effect_pm.History.Sqlite
use effect_pm.History.Sqlite.{
  HistoryRow, EntryText, newest_first, oldest_first, in_stream, retain, next_rowid, reversed,
  selected,
}
use effect_pm.History.Windows.{last_of-map}
use effect_pm.History.Rows.{
  IsAscending, All-weaken, IsAscending-filter, IsAscending-append, next_rowid-above,
}
use effect_pm.History.Retention.{retain-same, retain-other}

-- A call of `append`, with the reading of the clock.
pub record Appended (E : Type 0) : Type 0 where
  pub stream_id : String
  pub instant : ℕ
  pub entry : E

module _ {E : Type 0} where
  -- The clock does not go back.
  abbrev pub IsOrdered : ℕ → List (Appended E) → Type 0
  IsOrdered last [] = Unit
  IsOrdered last (a ∷ rest) = (last ≤ a.instant) × IsOrdered a.instant rest

  abbrev pub memory_after : ℕ → List (Appended E) → Streams E → Streams E
  memory_after capacity [] store = store
  memory_after capacity (a ∷ rest) store =
      memory_after capacity rest (History.append capacity a.stream_id a.instant a.entry store)

All-both :
    (P Q : HistoryRow → Type 0) (rows : List HistoryRow)
    → All P rows
    → All Q rows
    → All (λ r. P r × Q r) rows
All-both P Q [] h k = tt
All-both P Q (r ∷ rows) h k = ((h.0, k.0), All-both P Q rows h.1 k.1)

module _ {E : Type 0} (text : EntryText E) where
  abbrev pub table_after : ℕ → List (Appended E) → List HistoryRow → List HistoryRow
  table_after capacity [] table = table
  table_after capacity (a ∷ rest) table =
      table_after capacity rest
        (Sqlite.append text (some capacity) a.stream_id a.instant a.entry table)

  abbrev pub stamped : HistoryRow → Stamped E
  stamped r = record { ts = r.ts; entry = text.decode r.json }

  abbrev pub Mirrors : ℕ → List HistoryRow → Streams E → Type 0
  Mirrors last table store =
      IsAscending table
      × All (λ r. r.ts ≤ last) table
      × ((j : String) → map stamped (filter (in_stream j) table) ≡ stream j store)

  -- One append on both sides, with the row it inserts.
  module _ (capacity last : ℕ) (a : Appended E) (late : last ≤ a.instant) (table : List HistoryRow)
      (store : Streams E) (m : Mirrors last table store) where
    abbrev row : HistoryRow
    row = record {
      rowid = next_rowid table;
      stream_id = a.stream_id;
      ts = a.instant;
      json = text.encode a.entry;
    }

    inserted-IsAscending : IsAscending (table ++ row ∷ [])
    inserted-IsAscending = IsAscending-append table row m.0 (
        All-both (λ r. r.ts ≤ a.instant) (λ r. r.rowid < next_rowid table) table
          (All-weaken (λ r h. ground arith) table m.1) (next_rowid-above table))

    rows-inserted :
        map stamped (filter (in_stream a.stream_id) (table ++ row ∷ []))
        ≡ stream a.stream_id store ++ record { ts = a.instant; entry = a.entry } ∷ []
    rows-inserted =
        let id = a.stream_id in
        let own : filter (in_stream id) (row ∷ []) ≡ row ∷ [] =
          rw ((str_eq_iff id id).1 refl) refl in
        ap (map stamped) (
          filter-append (in_stream id) table (row ∷ [])
          ∙ ap (λ rows. filter (in_stream id) table ++ rows) own)
        ∙ map-append stamped (filter (in_stream id) table) (row ∷ [])
        ∙ ap (λ es. es ++ stamped row ∷ []) (m.2 id)
        ∙ ap (λ e. stream id store ++ record { ts = a.instant; entry = e } ∷ [])
            (text.decode-encode a.entry)

    abbrev kept : List (Stamped E)
    kept =
        last_of capacity
          (stream a.stream_id store ++ record { ts = a.instant; entry = a.entry } ∷ [])

    same_stream :
        map stamped
          (filter (in_stream a.stream_id) (retain a.stream_id (some capacity) (table ++ row ∷ [])))
        ≡ stream a.stream_id (History.append capacity a.stream_id a.instant a.entry store)
    unfolding History.append
    same_stream =
        let rows = filter (in_stream a.stream_id) (table ++ row ∷ []) in
        ap (map stamped) (retain-same a.stream_id capacity (table ++ row ∷ []) inserted-IsAscending)
        ∙ sym (last_of-map stamped capacity rows)
        ∙ ap (last_of capacity) rows-inserted
        ∙ ap (or_value []) (sym (get-set a.stream_id kept store))

    not_own : (j : String) → ¬ (j ≡ a.stream_id) → filter (in_stream j) (row ∷ []) ≡ []
    not_own j ne = elim (Bool-cases (in_stream j row)) [
      | inl e ↦ absurd (ne (sym ((str_eq_iff a.stream_id j).0 e)))
      | inr e ↦ rw e refl
    ]

    other_stream :
        (j : String)
        → ¬ (j ≡ a.stream_id)
        → map stamped
            (filter (in_stream j) (retain a.stream_id (some capacity) (table ++ row ∷ [])))
          ≡ stream j (History.append capacity a.stream_id a.instant a.entry store)
    unfolding History.append
    other_stream j ne =
        let id = a.stream_id in
        let left : filter (in_stream j) (table ++ row ∷ []) ≡ filter (in_stream j) table =
          filter-append (in_stream j) table (row ∷ [])
          ∙ ap (λ rows. filter (in_stream j) table ++ rows) (not_own j ne)
          ∙ append-nil (filter (in_stream j) table) in
        ap (map stamped)
          (retain-other id capacity (table ++ row ∷ []) inserted-IsAscending j ne ∙ left)
        ∙ m.2 j
        ∙ ap (or_value []) (sym (get-set_other j id kept store ne))

    append-Mirrors :
        Mirrors a.instant
          (Sqlite.append text (some capacity) a.stream_id a.instant a.entry table)
          (History.append capacity a.stream_id a.instant a.entry store)
    unfolding Sqlite.append
    append-Mirrors = (
      IsAscending-filter _ (table ++ row ∷ []) inserted-IsAscending,
      All-filter (λ r. r.ts ≤ a.instant) _ (table ++ row ∷ [])
          (All-append (λ r. r.ts ≤ a.instant) table (row ∷ [])
            (All-weaken (λ r h. ground arith) table m.1) (ground arith, tt)),
      λ j. elim (Bool-cases (str_eq j a.stream_id)) [
        | inl e ↦
            subst
              (λ i.
                map stamped
                  (filter (in_stream i) (retain a.stream_id (some capacity) (table ++ row ∷ [])))
                ≡ stream i (History.append capacity a.stream_id a.instant a.entry store))
              (sym ((str_eq_iff j a.stream_id).0 e)) same_stream
        | inr e ↦ other_stream j (λ q. ground (arith, e, (str_eq_iff j a.stream_id).1 q))
      ],
    )

  pub after-Mirrors :
      (capacity last : ℕ) (appends : List (Appended E)) (table : List HistoryRow)
      (store : Streams E)
      → IsOrdered last appends
      → Mirrors last table store
      → (to : ℕ) × Mirrors to
          (table_after capacity appends table)
          (memory_after capacity appends store)
  after-Mirrors capacity last [] table store o m = (last, m)
  after-Mirrors capacity last (a ∷ rest) table store o m =
      after-Mirrors capacity a.instant rest
        (Sqlite.append text (some capacity) a.stream_id a.instant a.entry table)
        (History.append capacity a.stream_id a.instant a.entry store) o.1
        (append-Mirrors capacity last a o.0 table store m)
