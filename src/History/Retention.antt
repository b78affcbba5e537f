-- ===== src/History/Retention.antt =====
-- The statement of src/storage/sqlite/historyStore.ts that keeps the newest rows of a stream, on a
-- table whose rows ascend.
use effect_pm.Prelude.{
  any-append, ℕ, ◌≡◌, refl, ap, ◌∙◌, Bool, true, false, not, ◌&&◌, some, List, [], ◌∷◌, String,
  str_eq_iff, subst, sym, leb, ◌==◌, length, filter, All, take, arith, Bool-cases, inl, inr,
}
use effect_pm.History.{last_of}
use effect_pm.History.Sqlite.{HistoryRow, has_rowid, in_stream, newest, retain, reversed}
use effect_pm.History.Windows.{take-reversed, last_of-cons, All-last_of}
use effect_pm.History.Rows.{
  Precedes, IsAscending, All-weaken, sort-newest_first, IsAscending-filter,
}

-- The test by rowid picks the rows that are there.
has_rowid-reversed :
    (r : HistoryRow) (rows : List HistoryRow) → has_rowid r (reversed rows) ≡ has_rowid r rows
has_rowid-reversed r [] = refl
has_rowid-reversed r (x ∷ rows) = ground (
  arith,
  any-append (λ s. s.rowid == r.rowid) (reversed rows) (x ∷ []),
  has_rowid-reversed r rows,
)

has_rowid-later :
    (r : HistoryRow) (rows : List HistoryRow) → All (Precedes r) rows → has_rowid r rows ≡ false
has_rowid-later r [] h = refl
has_rowid-later r (x ∷ rows) h = ground (arith, has_rowid-later r rows h.1)

own_rowids : (rows : List HistoryRow) → All (λ r. has_rowid r rows ≡ true) rows
own_rowids [] = tt
own_rowids (x ∷ rows) = (ground arith, All-weaken (λ r h. ground arith) rows (own_rowids rows))

filter_kept :
    (p : HistoryRow → Bool) (rows : List HistoryRow)
    → All (λ r. p r ≡ true) rows
    → filter p rows ≡ rows
filter_kept p [] h = refl
filter_kept p (r ∷ rows) h = rw h.0 (ap (λ zs. r ∷ zs) (filter_kept p rows h.1))

filter-has_rowid :
    (n : ℕ) (rows : List HistoryRow)
    → IsAscending rows
    → filter (λ r. has_rowid r (last_of n rows)) rows ≡ last_of n rows
filter-has_rowid n [] h = ground arith
filter-has_rowid n (r ∷ rows) h = elim (Bool-cases (leb n (length rows))) [
  | inl e ↦
      let later = has_rowid-later r (last_of n rows) (All-last_of (Precedes r) n rows h.0) in
      let same : last_of n (r ∷ rows) ≡ last_of n rows = last_of-cons n r rows ∙ rw e refl in
      subst (λ keep. filter (λ s. has_rowid s keep) (r ∷ rows) ≡ keep) (sym same)
        (rw later (filter-has_rowid n rows h.1))
  | inr e ↦
      let same : last_of n (r ∷ rows) ≡ r ∷ rows = last_of-cons n r rows ∙ rw e refl in
      subst (λ keep. filter (λ s. has_rowid s keep) (r ∷ rows) ≡ keep) (sym same)
        (filter_kept (λ s. has_rowid s (r ∷ rows)) (r ∷ rows) (own_rowids (r ∷ rows)))
]

filter_cong :
    (p q : HistoryRow → Bool) (rows : List HistoryRow)
    → ((r : HistoryRow) → p r ≡ q r)
    → filter p rows ≡ filter q rows
filter_cong p q [] h = refl
filter_cong p q (r ∷ rows) h = rw (h r) (elim (Bool-cases (q r)) [
  | inl e ↦ rw e (ap (λ zs. r ∷ zs) (filter_cong p q rows h))
  | inr e ↦ rw e (filter_cong p q rows h)
])

in_stream-other :
    (id j : String) (r : HistoryRow) → ¬ (j ≡ id) → in_stream id r ≡ true → in_stream j r ≡ false
in_stream-other id j r ne e = elim (Bool-cases (in_stream j r)) [
  | inl k ↦ absurd (ne (sym ((str_eq_iff r.stream_id j).0 k) ∙ (str_eq_iff r.stream_id id).0 e))
  | inr k ↦ k
]

-- Retention of one stream, seen from each.
module _ (id : String) (keep : List HistoryRow) where
  abbrev stays : HistoryRow → Bool
  stays row = not (in_stream id row && not (has_rowid row keep))

  filter-stays :
      (rows : List HistoryRow)
      → filter (in_stream id) (filter stays rows)
        ≡ filter (λ r. has_rowid r keep) (filter (in_stream id) rows)
  filter-stays [] = refl
  filter-stays (r ∷ rows) = elim (Bool-cases (in_stream id r)) [
    | inl e ↦ elim (Bool-cases (has_rowid r keep)) [
      | inl k ↦ rw (e, k) (rw e (ap (λ zs. r ∷ zs) (filter-stays rows)))
      | inr k ↦ rw (e, k) (filter-stays rows)
    ]
    | inr e ↦ rw e (rw e (filter-stays rows))
  ]

  filter-other :
      (j : String) (rows : List HistoryRow)
      → ¬ (j ≡ id)
      → filter (in_stream j) (filter stays rows) ≡ filter (in_stream j) rows
  filter-other j [] ne = refl
  filter-other j (r ∷ rows) ne = elim (Bool-cases (in_stream id r)) [
    | inl e ↦
        let other = in_stream-other id j r ne e in
        elim (Bool-cases (stays r)) [
          | inl k ↦ rw (k, other) (filter-other j rows ne)
          | inr k ↦ rw (k, other) (filter-other j rows ne)
        ]
    | inr e ↦ elim (Bool-cases (in_stream j r)) [
      | inl k ↦ rw (e, k) (ap (λ zs. r ∷ zs) (filter-other j rows ne))
      | inr k ↦ rw (e, k) (filter-other j rows ne)
    ]
  ]

-- What retention leaves of its own stream, and of another.
module _ (id : String) (capacity : ℕ) (table : List HistoryRow) (asc : IsAscending table) where
  newest_lem : newest id capacity table ≡ reversed (last_of capacity (filter (in_stream id) table))
  newest_lem =
      ap (take capacity) (
        sort-newest_first (filter (in_stream id) table)
          (IsAscending-filter (in_stream id) table asc))
      ∙ take-reversed capacity (filter (in_stream id) table)

  pub retain-same :
      filter (in_stream id) (retain id (some capacity) table)
      ≡ last_of capacity (filter (in_stream id) table)
  retain-same =
      let rows = filter (in_stream id) table in
      filter-stays id (newest id capacity table) table
      ∙ ap (λ keep. filter (λ r. has_rowid r keep) rows) newest_lem
      ∙ filter_cong (λ r. has_rowid r (reversed (last_of capacity rows)))
          (λ r. has_rowid r (last_of capacity rows)) rows
          (λ r. has_rowid-reversed r (last_of capacity rows))
      ∙ filter-has_rowid capacity rows (IsAscending-filter (in_stream id) table asc)

  pub retain-other :
      (j : String)
      → ¬ (j ≡ id)
      → filter (in_stream j) (retain id (some capacity) table) ≡ filter (in_stream j) table
  retain-other j ne = filter-other id (newest id capacity table) j table ne
