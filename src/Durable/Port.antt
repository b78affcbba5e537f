-- ===== src/Durable/Port.antt =====
-- src/DurableQueueStore.ts: the durable store port, its entries and its outcomes.
use effect_pm.Prelude.{ℕ, Option, List, String}
use effect_pm.Lanes.Levels.{Priority, high, normal, low}

unfoldable pub durable_priority_rank : Priority → ℕ
durable_priority_rank high = 0
durable_priority_rank normal = 1
durable_priority_rank low = 2

-- `P` is the type of encoded payloads, which the store never looks into.
pub record DurableEntryInput (P : Type 0) : Type 0 where
  pub id : String
  pub queue_id : String
  pub dedup_key : Option String
  pub priority : Priority
  pub payload : P
  pub schema_version : Option ℕ

pub record DurableEntry (P : Type 0) : Type 0 where
  pub id : String
  pub queue_id : String
  pub dedup_key : Option String
  pub priority : Priority
  pub sequence : ℕ
  pub attempts : ℕ
  pub payload : P
  pub schema_version : ℕ
  pub enqueued_at_millis : ℕ

pub data OfferResult : Type 0 where
  inserted escalated deduplicated : OfferResult

pub data FailResult : Type 0 where
  requeued dead_lettered : FailResult

pub record DurableSizes : Type 0 where
  pub high : ℕ
  pub normal : ℕ
  pub low : ℕ

-- The narrowing of `drain`: everything available, one id, or one dedup key.
pub data Match : Type 0 where
  any_entry : Match
  by_id by_key : String → Match

-- The port, with the laws that the queue engine needs. The clock's reading is an argument; `none` is a `DurableQueueError`.
pub record DurableStore (P : Type 0) : Type 1 where
  pub State : Type 0
  pub offer : State → ℕ → DurableEntryInput P → Option OfferResult × State
  pub take : State → ℕ → String → ℕ → Option (Option (DurableEntry P)) × State
  pub complete : State → String → Option (Unit {0}) × State
  pub fail : State → String → ℕ → Option FailResult × State
  pub sizes : State → String → Option DurableSizes
  pub recover : State → String → Option ℕ × State
  pub clear : State → String → Option ℕ × State
  pub drain : State → ℕ → String → Match → Option (List (DurableEntry P)) × State
  -- What every operation keeps of the stored entries.
  pub IsValid : State → Type 0
  pub offer-IsValid :
      (s : State) (now : ℕ) (entry : DurableEntryInput P)
      → IsValid s
      → IsValid (offer s now entry).1
  pub take-IsValid :
      (s : State) (now : ℕ) (queue_id : String) (lease : ℕ)
      → IsValid s
      → IsValid (take s now queue_id lease).1
  pub complete-IsValid : (s : State) (id : String) → IsValid s → IsValid (complete s id).1
  pub fail-IsValid :
      (s : State) (id : String) (max_attempts : ℕ) → IsValid s → IsValid (fail s id max_attempts).1
  pub recover-IsValid : (s : State) (queue_id : String) → IsValid s → IsValid (recover s queue_id).1
  pub clear-IsValid : (s : State) (queue_id : String) → IsValid s → IsValid (clear s queue_id).1
  pub drain-IsValid :
      (s : State) (now : ℕ) (queue_id : String) (match : Match)
      → IsValid s
      → IsValid (drain s now queue_id match).1
