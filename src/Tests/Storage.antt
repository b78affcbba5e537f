-- ===== src/Tests/Storage.antt =====
-- Runtime storage at three records, of which one is readonly.
use Prim.Native.Nat.{compare}
use Prim.Native.String.{len}
use effect_pm.Prelude.{
  ℕ, ◌≡◌, ◌≤◌, refl, Bool, true, false, Option, none, some, List, [], ◌∷◌, String, length, tally,
  IsSorted, ◌&&◌,
}
use effect_pm.Storage.Record.{
  RuntimeRecord, RuntimeRecordPatch, keep, unset, set, apply_patch, Field, text_field, TextField,
  DateField, text, flag,
}
use effect_pm.Storage.Query.{
  Query, Predicate, nil, cons, equals, not_equals, after, and_of, matches_predicate, date_field,
  asc,
}
use effect_pm.Storage.Select.{Collation, select, goes_before, orders_of}
use effect_pm.Storage.Select.Laws.{IsComparison, compare_turned, compare_trans, select_lem}
use effect_pm.Storage.Select.Windows.{windowed}
use effect_pm.Storage.Memory
use effect_pm.Storage.Helpers.{QueryOpts, runtime_record_query, apply_query_opts}
use effect_pm.Storage.Helpers.PushDown.{read-runtime_record_query}
use effect_pm.Storage.Memory.{get, has_id}
use effect_pm.Storage.Memory.Rows.{IsKeyed}
use effect_pm.Storage.Memory.Update.{update_lem}
use effect_pm.Storage.Memory.Delete.{delete_lem}
use effect_pm.Storage.Memory.Readonly.{
  Steps, here, next, created, updated, deleted, SparesReadonly, Reachable-IsKeyed, Steps-readonly,
}

abbrev pub by_length : Collation
by_length s t = compare (len s) (len t)

by_length-IsComparison : IsComparison by_length
by_length-IsComparison = record {
  turned = λ s t. compare_turned (len s) (len t);
  trans = λ s t u. compare_trans (len s) (len t) (len u);
}

abbrev pub record_of : String → ℕ → Option Bool → RuntimeRecord String
record_of id at readonly = record {
  id = id;
  type = "queue.entry.enqueued";
  occurred_at = at;
  created_at = at;
  run_id = "run-1";
  process_type = "queue-resource";
  process_id = "jobs";
  subject_type = none;
  subject_id = some "e1";
  key = none;
  index_a = none;
  index_b = none;
  index_c = none;
  index_d = none;
  index_e = none;
  index_f = none;
  index_g = none;
  index_h = none;
  index_names = none;
  payload = some "{}";
  attributes = none;
  readonly = readonly;
}

abbrev pub fixed : RuntimeRecord String
fixed = record_of "a" 10 (some true)

abbrev pub loose : RuntimeRecord String
loose = record_of "b" 20 none

abbrev pub late : RuntimeRecord String
late = record_of "c" 30 (some false)

abbrev pub rows : List (RuntimeRecord String)
rows = fixed ∷ loose ∷ late ∷ []

-- Everything of one process, the latest first.
abbrev pub jobs_writable : Predicate
jobs_writable = and_of (
    cons (equals (text_field TextField.process_id) (text "jobs"))
      (cons (not_equals Field.readonly (flag false)) nil))

abbrev pub of_jobs : Query
of_jobs = record { predicate = some jobs_writable; order_by = none; limit = none; offset = none }

abbrev pub second_of_all : Query
second_of_all = record {
  predicate = some (after DateField.occurred_at 5);
  order_by = some (record { field = date_field DateField.created_at; direction = asc } ∷ []);
  limit = some 1;
  offset = some 1;
}

abbrev pub with_key : RuntimeRecordPatch String
with_key = record {
  type = none;
  occurred_at = none;
  run_id = none;
  process_type = none;
  process_id = none;
  subject_type = keep;
  subject_id = unset;
  key = set "k";
  index_a = keep;
  index_b = keep;
  index_c = keep;
  index_d = keep;
  index_e = keep;
  index_f = keep;
  index_g = keep;
  index_h = keep;
  index_names = keep;
  payload = keep;
  attributes = keep;
}

all_created : Steps by_length SparesReadonly [] rows
unfolding Memory.create
all_created = next (next (next here (created fixed)) (created loose)) (created late)

pub rows-IsKeyed : IsKeyed rows
rows-IsKeyed = Reachable-IsKeyed by_length SparesReadonly rows all_created

read-of_jobs : Memory.read by_length of_jobs rows ≡ loose ∷ fixed ∷ []
unfolding Memory.read
read-of_jobs = refl

read-second_of_all : Memory.read by_length second_of_all rows ≡ loose ∷ []
unfolding Memory.read
read-second_of_all = refl

select_lem_example :
    IsSorted
      (goes_before by_length (orders_of second_of_all.order_by))
      (select by_length second_of_all rows)
    × (length (select by_length second_of_all rows)
        ≡ windowed (some 1) (some 1) (tally (matches_predicate second_of_all.predicate) rows))
    × ((p : RuntimeRecord String → Bool)
        → tally p (select by_length second_of_all rows)
          ≤ tally (λ r. matches_predicate second_of_all.predicate r && p r) rows)
select_lem_example = select_lem by_length by_length-IsComparison second_of_all rows

update_lem_example :
    get "b" (Memory.update by_length of_jobs with_key rows).1 ≡ some (apply_patch loose with_key)
unfolding Memory.read
update_lem_example = (update_lem by_length of_jobs with_key rows rows-IsKeyed).0 "b"

delete_lem_example : get "a" (Memory.delete by_length of_jobs rows).1 ≡ some fixed
unfolding Memory.read Memory.includes_readonly_true
delete_lem_example = (delete_lem by_length of_jobs rows rows-IsKeyed).0 "a"

-- An update and a delete of everything of the process.
abbrev emptied : List (RuntimeRecord String)
emptied = (Memory.delete by_length of_jobs (Memory.update by_length of_jobs with_key rows).1).1

emptying : Steps by_length SparesReadonly rows emptied
unfolding Memory.includes_readonly_true
emptying = next (next here (updated of_jobs with_key)) (deleted of_jobs refl)

Steps-readonly_example : get "a" emptied ≡ some fixed
Steps-readonly_example = Steps-readonly by_length fixed refl rows emptied rows-IsKeyed refl emptying

-- The last record of the process before an instant.
abbrev before_30 : Option QueryOpts
before_30 = some (record { limit = some 1; before = some 30; after = none })

read-runtime_record_query_example :
    Memory.read by_length (runtime_record_query (some jobs_writable ∷ none ∷ []) before_30) rows
    ≡ apply_query_opts
        (λ r. r.occurred_at)
        before_30
        (Memory.read by_length (runtime_record_query (some jobs_writable ∷ none ∷ []) none) rows)
read-runtime_record_query_example =
    read-runtime_record_query by_length by_length-IsComparison (some jobs_writable ∷ none ∷ [])
      before_30 rows

read-before_30 :
    Memory.read by_length (runtime_record_query (some jobs_writable ∷ none ∷ []) before_30) rows
    ≡ loose ∷ []
unfolding Memory.read runtime_record_query
read-before_30 = refl
