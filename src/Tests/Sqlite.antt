-- ===== src/Tests/Sqlite.antt =====
-- The SQLite adapter of runtime storage at the same three records.
use effect_pm.Prelude.{true, ℕ, ◌≡◌, refl, Option, none, some, List, [], ◌∷◌, String, arith, length}
use effect_pm.Storage.Record.{RuntimeRecord}
use effect_pm.Storage.Query.{matches}
use effect_pm.Storage.Memory
use effect_pm.Storage.Memory.{failed, readonly_record, is_readonly, get}
use effect_pm.Prelude.Reorder.{Reorders, nothing, same_order, swap}
use effect_pm.Storage.Sqlite.Statement.{Scan}
use effect_pm.Storage.Sqlite.Codec.{JsonText, SqlRow, row_of, encode_record, decode_row}
use effect_pm.Storage.Sqlite.Codec.RoundTrip.{decode-encode_record}
use effect_pm.Storage.Sqlite.Condition.{predicate_sql}
use effect_pm.Storage.Sqlite.Condition.Placeholders.{marks}
use effect_pm.Storage.Sqlite.Truth.{evaluate, is_sql_true}
use effect_pm.Storage.Sqlite.Filtering.{IsTyped, evaluate-matches}
use effect_pm.Storage.Sqlite.Statement.{query_sql, query_text, query_params}
use effect_pm.Storage.Sqlite.Statement.Bound.{marks-query_text}
use effect_pm.Storage.Sqlite.Service
use effect_pm.Storage.Sqlite.Represents.{Represents}
use effect_pm.Storage.Sqlite.Refinement.{Holds}
use effect_pm.Storage.Sqlite.Agreement.{upsert-agrees}
use effect_pm.Tests.Storage.{fixed, loose, late, rows, jobs_writable, of_jobs}

-- JSON values that are their own text, and lists of one name.
abbrev encode_one : List String → Option String
encode_one (n ∷ []) = some n
encode_one _ = none

decode_one-encode :
    (names : List String) (t : String) → encode_one names ≡ some t → some (t ∷ []) ≡ some names
decode_one-encode [] t h = ground arith
decode_one-encode (n ∷ []) t h = ground arith
decode_one-encode (n ∷ m ∷ names) t h = ground arith

decode_self : (j t : String) → some j ≡ some t → some t ≡ some j
decode_self j t h = ground arith

abbrev own_text : JsonText String
own_text = record {
  encode = λ j. some j;
  decode = λ t. some t;
  encode_names = encode_one;
  decode_names = λ t. some (t ∷ []);
  decode-encode = decode_self;
  decode_names-encode = decode_one-encode;
}

abbrev no_number : String → Option ℕ
no_number s = none

abbrev row_for : RuntimeRecord String → SqlRow
row_for r = row_of r none r.payload none

abbrev table : List SqlRow
table = row_for fixed ∷ row_for loose ∷ row_for late ∷ []

table-Represents : Represents own_text rows table
unfolding encode_record
table-Represents = (refl, (refl, (refl, tt)))

decode-encode_record_example : decode_row own_text (row_for loose) ≡ some loose
unfolding encode_record
decode-encode_record_example = decode-encode_record own_text loose (row_for loose) refl

-- A plan that comes upon the second row first.
abbrev second_first : List SqlRow → List SqlRow
second_first (a ∷ b ∷ rest) = b ∷ a ∷ rest
second_first rows = rows

second_first-Reorders : (t : List SqlRow) → Reorders t (second_first t)
second_first-Reorders [] = nothing
second_first-Reorders (a ∷ []) = same_order (a ∷ [])
second_first-Reorders (a ∷ b ∷ rest) = swap a b rest

abbrev scan : Scan
scan = record { visit = λ q t. second_first t; reorders = λ q t. second_first-Reorders t }

abbrev AnyRecord : RuntimeRecord String → Type 0
AnyRecord r = Unit

upsert-agrees_example :
    ((Service.upsert own_text no_number fixed table).0 ≡ (Memory.upsert fixed rows).0)
    × Holds own_text (Memory.upsert fixed rows).1 (Service.upsert own_text no_number fixed table).1
    × (is_readonly (get fixed.id rows) ≡ true
        → Service.upsert own_text no_number fixed table
          ≡ (failed (readonly_record fixed.id), table))
unfolding encode_record
upsert-agrees_example =
    upsert-agrees own_text no_number fixed (row_for fixed) rows table refl table-Represents

marks-query_text_example :
    marks (query_text (query_sql of_jobs)) ≡ length (query_params (query_sql of_jobs))
marks-query_text_example = marks-query_text of_jobs

-- The statement as it goes to the driver.
text_of_jobs :
    query_text (query_sql of_jobs)
    ≡ "SELECT * FROM effect_pm_runtime_records WHERE (process_id = ?) AND ((readonly_int IS NULL OR readonly_int <> ?)) ORDER BY occurred_at_ms DESC"
unfolding query_text query_sql
text_of_jobs = refl

evaluate-matches_example :
    is_sql_true (evaluate no_number (row_for late) (predicate_sql jobs_writable))
    ≡ matches late jobs_writable
unfolding encode_record IsTyped
evaluate-matches_example =
    evaluate-matches own_text no_number late (row_for late) jobs_writable refl (tt, (tt, tt))
