-- ===== src/History/Rows.antt =====
-- The newest rows of a stream of src/storage/sqlite/historyStore.ts are its last ones, as long as the
-- clock does not go back.
use effect_pm.Prelude.{
  ◌≤◌, ◌<◌, ◌≡◌, refl, ap, ◌∙◌, Bool, true, false, List, [], ◌∷◌, ◌++◌, All-append, All-filter,
  filter, All, sort, sort_sorted, IsSorted, insert_sorted, arith, Bool-cases, inl, inr,
}
use effect_pm.History.Sqlite.{HistoryRow, newest_first, oldest_first, next_rowid, reversed}
use effect_pm.History.Windows.{All-reversed}

-- Earlier rows have smaller rowids, and instants that are not later.
abbrev pub Precedes : HistoryRow → HistoryRow → Type 0
Precedes r s = (r.ts ≤ s.ts) × (r.rowid < s.rowid)

abbrev pub IsAscending : List HistoryRow → Type 0
IsAscending [] = Unit
IsAscending (r ∷ rows) = All (Precedes r) rows × IsAscending rows

pub All-weaken :
    {P Q : HistoryRow → Type 0}
    → ((r : HistoryRow) → P r → Q r)
    → (rows : List HistoryRow) → All P rows
    → All Q rows
All-weaken w [] h = tt
All-weaken w (r ∷ rows) h = (w r h.0, All-weaken w rows h.1)

insert_last :
    (le : HistoryRow → HistoryRow → Bool) (x : HistoryRow) (xs : List HistoryRow)
    → All (λ z. le x z ≡ false) xs
    → insert_sorted le x xs ≡ xs ++ x ∷ []
insert_last le x [] h = refl
insert_last le x (y ∷ ys) h = rw h.0 (ap (λ zs. y ∷ zs) (insert_last le x ys h.1))

Precedes-newest_first : (r s : HistoryRow) → Precedes r s → newest_first r s ≡ false
Precedes-newest_first r s h = ground arith

Precedes-oldest_first : (r s : HistoryRow) → Precedes r s → oldest_first r s ≡ true
Precedes-oldest_first r s h = ground arith

pub sort-newest_first :
    (rows : List HistoryRow) → IsAscending rows → sort newest_first rows ≡ reversed rows
sort-newest_first [] h = refl
sort-newest_first (r ∷ rows) h =
    ap (insert_sorted newest_first r) (sort-newest_first rows h.1)
    ∙ insert_last newest_first r (reversed rows) (
        All-reversed (λ z. newest_first r z ≡ false) rows
          (All-weaken (Precedes-newest_first r) rows h.0))

IsAscending-IsSorted : (rows : List HistoryRow) → IsAscending rows → IsSorted oldest_first rows
IsAscending-IsSorted [] h = tt
IsAscending-IsSorted (r ∷ rows) h =
    (All-weaken (Precedes-oldest_first r) rows h.0, IsAscending-IsSorted rows h.1)

pub sort-oldest_first : (rows : List HistoryRow) → IsAscending rows → sort oldest_first rows ≡ rows
sort-oldest_first rows h = sort_sorted oldest_first rows (IsAscending-IsSorted rows h)

pub IsAscending-filter :
    (p : HistoryRow → Bool) (rows : List HistoryRow)
    → IsAscending rows
    → IsAscending (filter p rows)
IsAscending-filter p [] h = tt
IsAscending-filter p (r ∷ rows) h = elim (Bool-cases (p r)) [
  | inl e ↦ rw e (All-filter (Precedes r) p rows h.0, IsAscending-filter p rows h.1)
  | inr e ↦ rw e (IsAscending-filter p rows h.1)
]

pub IsAscending-append :
    (rows : List HistoryRow) (x : HistoryRow)
    → IsAscending rows
    → All (λ r. Precedes r x) rows
    → IsAscending (rows ++ x ∷ [])
IsAscending-append [] x h a = (tt, tt)
IsAscending-append (r ∷ rows) x h a =
    (All-append (Precedes r) rows (x ∷ []) h.0 (a.0, tt), IsAscending-append rows x h.1 a.1)

-- A new row comes after the rows of the table.
pub next_rowid-above : (rows : List HistoryRow) → All (λ r. r.rowid < next_rowid rows) rows
next_rowid-above [] = tt
next_rowid-above (r ∷ rows) =
    (ground arith, All-weaken (λ s h. ground arith) rows (next_rowid-above rows))
