-- ===== src/Tests/Durable.antt =====
-- The durable queue at a table of two jobs.
use effect_pm.Prelude.{
  ℕ, ◌≡◌, ◌≤◌, ◌<◌, ◌⊎◌, refl, Bool, false, not, length, ◌&&◌, none, some, List, [], ◌∷◌, String,
  tally, str_eq, arith, ◌+◌,
}
use effect_pm.Lanes.Levels.{high, normal, low}
use effect_pm.Durable.Port.{
  DurableEntryInput, DurableEntry, DurableSizes, escalated, dead_lettered, requeued,
  durable_priority_rank,
}
use effect_pm.Durable.Sqlite.{
  Row, pending, has_id, of_queue, is_available, row_to_entry, offer, take, fail, recover,
  update_where,
}
use effect_pm.Durable.Sqlite.Invariant.{
  IsWellFormed, Reachable, installed, offered, Reachable-IsWellFormed,
}
use effect_pm.Durable.Sqlite.Delivery.{IsQueued, offer_once}
use effect_pm.Durable.Sqlite.Lease.{IsNext, leased_until, take_least, recover-take}
use effect_pm.Durable.Sqlite.Exclusive.{at_first, failed, take_exclusive}
use effect_pm.Durable.Sqlite.Exclusive
use effect_pm.Durable.Sqlite.Settle.{is_buried, fail_outcome}

abbrev job_a : DurableEntryInput String
job_a = record {
  id = "a";
  queue_id = "q";
  dedup_key = some "k";
  priority = low;
  payload = "A";
  schema_version = none;
}

abbrev job_b : DurableEntryInput String
job_b = record {
  id = "b";
  queue_id = "q";
  dedup_key = none;
  priority = normal;
  payload = "B";
  schema_version = some 2;
}

abbrev row_a : Row String
row_a = record {
  id = "a";
  queue_id = "q";
  dedup_key = some "k";
  priority = low;
  priority_rank = 2;
  seq = 1;
  attempts = 0;
  locked_until_ms = none;
  status = pending;
  schema_version = 0;
  payload = "A";
  enqueued_at_ms = 10;
}

abbrev row_b : Row String
row_b = record {
  id = "b";
  queue_id = "q";
  dedup_key = none;
  priority = normal;
  priority_rank = 1;
  seq = 2;
  attempts = 0;
  locked_until_ms = none;
  status = pending;
  schema_version = 2;
  payload = "B";
  enqueued_at_ms = 11;
}

abbrev table : List (Row String)
table = row_a ∷ row_b ∷ []

offers_fill : (offer (offer [] 10 job_a).1 11 job_b).1 ≡ table
unfolding offer durable_priority_rank
offers_fill = refl

table_reachable : Reachable table
unfolding offer durable_priority_rank
table_reachable = offered (row_a ∷ []) 11 job_b (offered [] 10 job_a installed)

table-IsWellFormed : IsWellFormed table
table-IsWellFormed = Reachable-IsWellFormed table table_reachable

Reachable-IsWellFormed_example : IsWellFormed table
Reachable-IsWellFormed_example = Reachable-IsWellFormed table table_reachable

-- The same job offered again at a higher priority.
abbrev job_c : DurableEntryInput String
job_c = record {
  id = "c";
  queue_id = "q";
  dedup_key = some "k";
  priority = high;
  payload = "A";
  schema_version = none;
}

offer_once_example : IsQueued "q" "k" 0 (offer table 12 job_c).1
unfolding offer durable_priority_rank
offer_once_example = offer_once table 12 job_c "k" escalated table-IsWellFormed refl refl

-- The job with the lower rank goes first, although it came second.
abbrev entry_b : DurableEntry String
entry_b = record {
  id = "b";
  queue_id = "q";
  dedup_key = none;
  priority = normal;
  sequence = 2;
  attempts = 1;
  payload = "B";
  schema_version = 2;
  enqueued_at_millis = 11;
}

take_least_example :
    (r : Row String) × IsNext table "q" 12 r
    × (entry_b ≡ row_to_entry (record r { attempts = r.attempts + 1 }))
    × ((take table 12 "q" 100).1
        ≡ update_where (has_id r.id) (leased_until 112 (r.attempts + 1)) table)
unfolding take
take_least_example = take_least table 12 "q" 100 entry_b refl

abbrev entry_a : DurableEntry String
entry_a = record {
  id = "a";
  queue_id = "q";
  dedup_key = some "k";
  priority = low;
  sequence = 1;
  attempts = 1;
  payload = "A";
  schema_version = 0;
  enqueued_at_millis = 10;
}

-- While "b" is leased, job "c" raises the row of "a" and a failed attempt at "a" is recorded.
abbrev meanwhile : List (Row String)
meanwhile = (fail (offer (take table 12 "q" 100).1 20 job_c).1 "a" 3).1

take_exclusive_example : str_eq "a" "b" ≡ false
unfolding take offer fail durable_priority_rank
take_exclusive_example =
    take_exclusive table meanwhile 12 50 "q" "q" 100 100 entry_b
      (record entry_a { priority = high }) refl
      (failed (offer (take table 12 "q" 100).1 20 job_c).1 "a" 3 refl
        (Exclusive.offered (take table 12 "q" 100).1 20 job_c refl at_first))
      (omega arith) refl

recover-take_example : tally (is_available "q" 13) (recover (take table 12 "q" 100).1 "q").1 ≡ 2
recover-take_example = recover-take table 12 13 "q" 100

fail_outcome_example :
    (((1 ≤ 0)
        × ((fail table "a" 1).0 ≡ some dead_lettered)
        × ((same : DurableEntry String → Bool)
            → tally
                (λ q. has_id "a" q && (is_buried q && same (row_to_entry q)))
                (fail table "a" 1).1
              ≡ tally (λ q. has_id "a" q && same (row_to_entry q)) table))
      ⊎ ((0 < 1)
          × ((fail table "a" 1).0 ≡ some requeued)
          × ((queue_id : String) (later : ℕ) (same : DurableEntry String → Bool)
              → tally
                  (λ q. has_id "a" q && (is_available queue_id later q && same (row_to_entry q)))
                  (fail table "a" 1).1
                ≡ tally
                    (λ q. has_id "a" q && (of_queue queue_id q && same (row_to_entry q)))
                    table)))
    × ((Q : Row String → Bool)
        → tally (λ q. not (has_id "a" q) && Q q) (fail table "a" 1).1
          ≡ tally (λ q. not (has_id "a" q) && Q q) table)
    × (length (fail table "a" 1).1 ≡ 2)
fail_outcome_example = fail_outcome table "a" 1 row_a refl

abbrev table_sizes : DurableSizes
table_sizes = record { high = 0; normal = 1; low = 1 }
