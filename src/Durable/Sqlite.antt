-- ===== src/Durable/Sqlite.antt =====
-- src/storage/sqlite/durableQueue.ts: the durable queue over one table. A statement is a function of
-- the rows; a transaction that fails leaves them as they were.
pub mod Rows
pub mod Invariant
pub mod Delivery
pub mod Lease
pub mod Exclusive
pub mod Settle
pub mod Contract
use effect_pm.Prelude.{
  ℕ, ◌+◌, ◌-◌, Bool, true, false, not, ◌&&◌, ◌||◌, Option, none, some, List, [], ◌∷◌, ◌++◌, String,
  str_eq, ltb, leb, ◌==◌, max, if◌then◌else◌, filter, any, find, map, tally, sort,
}
use effect_pm.Lanes.Levels.{Priority, high, normal, low}
use effect_pm.Durable.Port.{
  DurableEntryInput, DurableEntry, OfferResult, inserted, escalated, deduplicated, FailResult,
  requeued, dead_lettered, DurableSizes, Match, any_entry, by_id, by_key, durable_priority_rank,
}

pub data Status : Type 0 where
  pending dead : Status

abbrev pub is_pending : Status → Bool
is_pending pending = true
is_pending dead = false

-- A row of `durable_queue`. The payload stands for its column `payload_json`.
pub record Row (P : Type 0) : Type 0 where
  pub id : String
  pub queue_id : String
  pub dedup_key : Option String
  pub priority : Priority
  pub priority_rank : ℕ
  pub seq : ℕ
  pub attempts : ℕ
  pub locked_until_ms : Option ℕ
  pub status : Status
  pub schema_version : ℕ
  pub payload : P
  pub enqueued_at_ms : ℕ

-- `column = value`, which no `NULL` satisfies.
abbrev pub column_is : Option String → String → Bool
column_is none k = false
column_is (some j) k = str_eq j k

-- `locked_until_ms IS NULL OR locked_until_ms < now`.
abbrev pub unlocked : Option ℕ → ℕ → Bool
unlocked none now = true
unlocked (some until) now = ltb until now

abbrev pub is_locked : Option ℕ → Bool
is_locked none = false
is_locked (some until) = true

abbrev pub or_zero : Option ℕ → ℕ
or_zero none = 0
or_zero (some n) = n

abbrev pub head? : {A : Type 0} → List A → Option A
head? [] = none
head? (x ∷ xs) = some x

module _ {P : Type 0} where
  abbrev pub has_id : String → Row P → Bool
  has_id id r = str_eq r.id id

  -- `queue_id = … AND dedup_key = … AND status = 'pending'`.
  abbrev pub is_live : String → String → Row P → Bool
  is_live queue_id key r =
      str_eq r.queue_id queue_id && column_is r.dedup_key key && is_pending r.status

  abbrev pub of_queue : String → Row P → Bool
  of_queue queue_id r = str_eq r.queue_id queue_id && is_pending r.status

  abbrev pub is_available : String → ℕ → Row P → Bool
  is_available queue_id now r = of_queue queue_id r && unlocked r.locked_until_ms now

  -- `ORDER BY priority_rank ASC, seq ASC`.
  abbrev pub row_le : Row P → Row P → Bool
  row_le r q =
      ltb r.priority_rank q.priority_rank || (r.priority_rank == q.priority_rank) && leb r.seq q.seq

  -- `UPDATE … SET … WHERE p`.
  abbrev pub update_where : (Row P → Bool) → (Row P → Row P) → List (Row P) → List (Row P)
  update_where p f [] = []
  update_where p f (r ∷ rs) = (if p r then f r else r) ∷ update_where p f rs

  abbrev pub delete_where : (Row P → Bool) → List (Row P) → List (Row P)
  delete_where p = filter (λ r. not (p r))

  -- `SELECT IFNULL(MAX(seq), 0)`.
  abbrev pub max_seq : List (Row P) → ℕ
  max_seq [] = 0
  max_seq (r ∷ rs) = max r.seq (max_seq rs)

  unfoldable pub row_to_entry : Row P → DurableEntry P
  row_to_entry r = record {
    id = r.id;
    queue_id = r.queue_id;
    dedup_key = r.dedup_key;
    priority = r.priority;
    sequence = r.seq;
    attempts = r.attempts;
    payload = r.payload;
    schema_version = r.schema_version;
    enqueued_at_millis = r.enqueued_at_ms;
  }

  abbrev pub new_row : List (Row P) → ℕ → DurableEntryInput P → Row P
  new_row rows now entry = record {
    id = entry.id;
    queue_id = entry.queue_id;
    dedup_key = entry.dedup_key;
    priority = entry.priority;
    priority_rank = durable_priority_rank entry.priority;
    seq = max_seq rows + 1;
    attempts = 0;
    locked_until_ms = none;
    status = pending;
    schema_version = or_zero entry.schema_version;
    payload = entry.payload;
    enqueued_at_ms = now;
  }

  -- `INSERT`, which fails on a taken primary key.
  unfoldable pub insert_new :
      List (Row P) → ℕ → DurableEntryInput P → Option OfferResult × List (Row P)
  insert_new rows now entry =
      if any (has_id entry.id) rows
      then (none, rows)
      else (some inserted, rows ++ new_row rows now entry ∷ [])

  abbrev pub find_live : List (Row P) → String → Option String → Option (Row P)
  find_live rows queue_id none = none
  find_live rows queue_id (some key) = find (is_live queue_id key) rows

  abbrev pub escalate : Priority → Row P → Row P
  escalate priority r = record r {
    priority = priority;
    priority_rank = durable_priority_rank priority;
  }

  unfoldable pub offer : List (Row P) → ℕ → DurableEntryInput P → Option OfferResult × List (Row P)
  unfolding insert_new
  offer rows now entry = elim (find_live rows entry.queue_id entry.dedup_key) [
    | none ↦ insert_new rows now entry
    | some live ↦
        if ltb (durable_priority_rank entry.priority) live.priority_rank
        then (some escalated, update_where (has_id live.id) (escalate entry.priority) rows)
        else (some deduplicated, rows)
  ]

  unfoldable pub take :
      List (Row P) → ℕ → String → ℕ → Option (Option (DurableEntry P)) × List (Row P)
  unfolding row_to_entry
  take rows now queue_id lease_millis =
      elim (head? (sort row_le (filter (is_available queue_id now) rows))) [
        | none ↦ (some none, rows)
        | some r ↦ (
          some (some (row_to_entry (record r { attempts = r.attempts + 1 }))),
          update_where (has_id r.id)
              (λ q. record q {
                locked_until_ms = some (now + lease_millis);
                attempts = r.attempts + 1;
              })
              rows,
        )
      ]

  unfoldable pub complete : List (Row P) → String → Option (Unit {0}) × List (Row P)
  complete rows id = (some tt, delete_where (has_id id) rows)

  abbrev pub unlock : Row P → Row P
  unlock r = record r { locked_until_ms = none }

  unfoldable pub fail : List (Row P) → String → ℕ → Option FailResult × List (Row P)
  fail rows id max_attempts = elim (find (has_id id) rows) [
    | none ↦ (some requeued, rows)
    | some r ↦
        if leb max_attempts r.attempts
        then (
          some dead_lettered,
          update_where (has_id id) (λ q. record q { status = dead; locked_until_ms = none }) rows,
        )
        else (some requeued, update_where (has_id id) unlock rows)
  ]

  abbrev pub priority_is : Priority → Row P → Bool
  priority_is high r = elim r.priority [ high ↦ true | _ ↦ false ]
  priority_is normal r = elim r.priority [ normal ↦ true | _ ↦ false ]
  priority_is low r = elim r.priority [ low ↦ true | _ ↦ false ]

  unfoldable pub sizes : List (Row P) → String → Option DurableSizes
  sizes rows queue_id = some (record {
    high = tally (λ r. of_queue queue_id r && priority_is high r) rows;
    normal = tally (λ r. of_queue queue_id r && priority_is normal r) rows;
    low = tally (λ r. of_queue queue_id r && priority_is low r) rows;
  })

  abbrev pub is_leased : String → Row P → Bool
  is_leased queue_id r = of_queue queue_id r && is_locked r.locked_until_ms

  unfoldable pub recover : List (Row P) → String → Option ℕ × List (Row P)
  recover rows queue_id =
      (some (tally (is_leased queue_id) rows), update_where (is_leased queue_id) unlock rows)

  unfoldable pub clear : List (Row P) → String → Option ℕ × List (Row P)
  clear rows queue_id =
      (some (tally (of_queue queue_id) rows), delete_where (of_queue queue_id) rows)

  abbrev pub matches : Match → Row P → Bool
  matches any_entry r = true
  matches (by_id id) r = has_id id r
  matches (by_key key) r = column_is r.dedup_key key

  abbrev pub is_drained : String → ℕ → Match → Row P → Bool
  is_drained queue_id now match r = is_available queue_id now r && matches match r

  unfoldable pub drain :
      List (Row P) → ℕ → String → Match → Option (List (DurableEntry P)) × List (Row P)
  unfolding row_to_entry
  drain rows now queue_id match = (
    some (map row_to_entry (sort row_le (filter (is_drained queue_id now match) rows))),
    delete_where (is_drained queue_id now match) rows,
  )
