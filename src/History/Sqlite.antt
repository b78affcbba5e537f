-- ===== src/History/Sqlite.antt =====
-- src/storage/sqlite/historyStore.ts: the same streams in one table. A row has its rowid, which SQLite
-- gives out as one more than the largest. Errors of the driver are left out.
use effect_pm.Prelude.{
  ℕ, ◌+◌, ◌≡◌, Bool, not, ◌&&◌, ◌||◌, Option, none, some, List, [], ◌∷◌, ◌++◌, String, str_eq, ltb,
  leb, ◌==◌, max, filter, any, map, take, sort,
}
use effect_pm.History.{HistoryReadOptions, not_before, not_after}

pub record HistoryRow : Type 0 where
  pub rowid : ℕ
  pub stream_id : String
  pub ts : ℕ
  pub json : String

-- `Schema.UnknownFromJsonString`, which the source takes to be total on the entries it has encoded.
pub record EntryText (E : Type 0) : Type 0 where
  pub encode : E → String
  pub decode : String → E
  pub decode-encode : (e : E) → decode (encode e) ≡ e

abbrev pub next_rowid : List HistoryRow → ℕ
next_rowid [] = 1
next_rowid (r ∷ rows) = max (r.rowid + 1) (next_rowid rows)

-- `ORDER BY ts DESC, rowid DESC` and `ORDER BY ts ASC, rowid ASC`.
abbrev pub newest_first : HistoryRow → HistoryRow → Bool
newest_first a b = ltb b.ts a.ts || (a.ts == b.ts && leb b.rowid a.rowid)

abbrev pub oldest_first : HistoryRow → HistoryRow → Bool
oldest_first a b = ltb a.ts b.ts || (a.ts == b.ts && leb a.rowid b.rowid)

abbrev pub in_stream : String → HistoryRow → Bool
in_stream id row = str_eq row.stream_id id

abbrev pub has_rowid : HistoryRow → List HistoryRow → Bool
has_rowid row rows = any (λ r. r.rowid == row.rowid) rows

-- The `capacity` newest rows of the stream.
abbrev pub newest : String → ℕ → List HistoryRow → List HistoryRow
newest id capacity table = take capacity (sort newest_first (filter (in_stream id) table))

-- `DELETE ... WHERE stream_id = ? AND rowid NOT IN (SELECT rowid ... LIMIT ?)`.
abbrev pub retain : String → Option ℕ → List HistoryRow → List HistoryRow
retain id none table = table
retain id (some capacity) table =
    filter (λ row. not (in_stream id row && not (has_rowid row (newest id capacity table)))) table

abbrev pub reversed : {A : Type 0} → List A → List A
reversed [] = []
reversed (x ∷ xs) = reversed xs ++ x ∷ []

abbrev pub selected : String → HistoryReadOptions → List HistoryRow → List HistoryRow
selected id opts table =
    filter (λ r. in_stream id r && not_before opts.since r.ts && not_after opts.until r.ts) table

module _ {E : Type 0} (text : EntryText E) where
  unfoldable pub append : Option ℕ → String → ℕ → E → List HistoryRow → List HistoryRow
  append capacity id now entry table = retain id capacity (
      table
      ++ record { rowid = next_rowid table; stream_id = id; ts = now; json = text.encode entry }
        ∷ [])

  unfoldable pub read : String → HistoryReadOptions → List HistoryRow → List E
  read id opts table = elim opts.limit [
    | none ↦ map (λ r. text.decode r.json) (sort oldest_first (selected id opts table))
    | some n ↦
        reversed
          (map (λ r. text.decode r.json) (take n (sort newest_first (selected id opts table))))
  ]
