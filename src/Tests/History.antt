-- ===== src/Tests/History.antt =====
-- Concrete runs of src/HistoryStore.ts and src/storage/sqlite/historyStore.ts.
use effect_pm.Prelude.{ℕ, ◌≡◌, refl, none, some, List, [], ◌∷◌, String, arith}
use effect_pm.History.{HistoryReadOptions}
use effect_pm.History
use effect_pm.History.Sqlite.{EntryText}
use effect_pm.History.Sqlite
use effect_pm.History.Mirror.{Appended, memory_after, table_after}
use effect_pm.History.Agreement.{read-after}

abbrev plain : EntryText String
plain = record { encode = λ e. e; decode = λ s. s; decode-encode = λ e. refl }

abbrev appended : String → ℕ → String → Appended String
appended id at e = record { stream_id = id; instant = at; entry = e }

abbrev some_appends : List (Appended String)
some_appends =
    appended "cpu" 10 "a"
    ∷ appended "log" 10 "x"
    ∷ appended "cpu" 20 "b"
    ∷ appended "cpu" 30 "c"
    ∷ []

abbrev newest_two : HistoryReadOptions
newest_two = record { limit = some 2; since = some 15; until = none }

read-table :
    Sqlite.read plain "cpu" newest_two (table_after plain 2 some_appends []) ≡ "b" ∷ "c" ∷ []
unfolding Sqlite.read Sqlite.append
read-table = refl

read-after_example :
    Sqlite.read plain "cpu" newest_two (table_after plain 2 some_appends [])
    ≡ History.read "cpu" newest_two (memory_after 2 some_appends [])
read-after_example =
    read-after plain 2 0 some_appends (omega arith, (omega arith, (omega arith, (omega arith, tt))))
      "cpu" newest_two
