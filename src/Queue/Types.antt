-- ===== src/Queue/Types.antt =====
-- The values that the queue engine handles (src/internal/queueResource.ts): items, entries, events
-- and configuration. `T` is the type of items, `C` that of failure causes. Times are milliseconds.
use effect_pm.Prelude.{
  ℕ, ◌+◌, ◌-◌, ◌||◌, ◌≡◌, Bool, true, false, Option, none, some, List, String, ℤ, str_eq, leb,
  if◌then◌else◌,
}
use effect_pm.Lanes.Levels.{Priority}

-- `HashSet` of the effect library, at texts: a parameter of the model.
pub record KeySet : Type 1 where
  pub Keys : Type 0
  pub empty : Keys
  pub has : Keys → String → Bool
  pub add : Keys → String → Keys
  pub remove : Keys → String → Keys
  pub has-empty : (j : String) → has empty j ≡ false
  pub has-add : (s : Keys) (k j : String) → has (add s k) j ≡ (if str_eq k j then true else has s j)
  pub has-remove :
      (s : Keys) (k j : String) → has (remove s k) j ≡ (if str_eq k j then false else has s j)

pub data Phase : Type 0 where
  running draining off : Phase

pub data ShutdownMode : Type 0 where
  drain finish_active : ShutdownMode

pub data Disposition : Type 0 where
  retry dead_letter drop default : Disposition

pub data EntryStatus : Type 0 where
  enqueued started completed failed retried exhausted released dead_lettered dropped : EntryStatus

pub data LifecycleTag : Type 0 where
  started paused resumed shutdown drained : LifecycleTag
  cleared : ℕ → LifecycleTag

pub data Outcome (C : Type 0) : Type 0 where
  success : Outcome C
  failure : C → Outcome C

module _ (T : Type 0) where
  -- The engine's envelope of an item. `level` is the lane that was asked for.
  pub record InternalItem : Type 0 where
    pub item : T
    pub entry_id : String
    pub retries : ℕ
    pub level : ℤ
    pub enqueued_at : ℕ
    pub key : Option String

  -- The public view of an item. `attributes`, `batchId` and `sourceResourceId`, which decide nothing
  -- in the operations, are left out.
  pub record QueueEntry : Type 0 where
    pub item : T
    pub entry_id : String
    pub key : Option String
    pub priority : Priority
    pub level : Option ℤ
    pub attempts : ℕ
    pub enqueued_at : ℕ
    pub started_at : Option ℕ
    pub completed_at : Option ℕ
    pub release_id : Option String

  pub record QueueEntrySelector : Type 0 where
    pub entry_id : Option String
    pub key : Option String
    pub item : Option T

-- The lifecycle events; each carries the queue's own name too, which is the same in all.
pub data QueueEvent (T C : Type 0) : Type 0 where
  start : QueueEvent T C
  enqueued : List (QueueEntry T) → Priority → QueueEvent T C
  started : QueueEntry T → QueueEvent T C
  completed : QueueEntry T → ℕ → QueueEvent T C
  failed : QueueEntry T → C → ℕ → QueueEvent T C
  exit : QueueEntry T → Outcome C → ℕ → QueueEvent T C
  retry_scheduled : QueueEntry T → C → ℕ → QueueEvent T C
  retry_exhausted : QueueEntry T → C → QueueEvent T C
  drained cleared : ℕ → QueueEvent T C
  shutdown_requested : ShutdownMode → ℕ → QueueEvent T C
  shutdown_complete : ℕ → QueueEvent T C
  released : String → List (QueueEntry T) → QueueEvent T C
  dead_lettered dropped : List (QueueEntry T) → String → QueueEvent T C
  rate_limit_exceeded : QueueEntry T → QueueEvent T C

-- What an entry's row in the process store says; the row's id ends in `sequence`. Its times,
-- durations, reasons and errors are left out.
pub record EntryFact : Type 0 where
  pub status : EntryStatus
  pub entry_id : String
  pub key : Option String
  pub priority : Priority
  pub attempts : ℕ
  pub sequence : ℕ

pub data DedupeChange : Type 0 where
  added released : String → DedupeChange

-- The queue's configuration, with its defaults resolved as `makeQueueRuntime` resolves them.
-- `on_failure` is the answer of the handler; what else that effect does is another step.
pub record Config (T C : Type 0) : Type 0 where
  pub queue_name : String
  pub key : Option (T → String)
  pub attempts : Option ℕ
  pub retries : Option ℕ
  pub shutdown_mode : ShutdownMode
  pub on_failure : Option (QueueEntry T → C → Disposition)
  pub priority_to_level : Priority → ℤ
  pub level_to_priority : ℤ → Priority
  pub has_process_store : Bool
  pub no_cause : C
  -- JavaScript's `String(n)`, and `===` on items.
  pub show : ℕ → String
  pub same_item : T → T → Bool

module _ {T C : Type 0} (config : Config T C) where
  -- `attempts` supersedes `retries`; `none` is `Infinity`.
  unfoldable pub max_retries : Option ℕ
  max_retries = elim config.attempts [ some n ↦ some (n - 1) | none ↦ config.retries ]

  unfoldable pub auto_re_enqueue : Bool
  auto_re_enqueue = elim config.attempts [
    | some n ↦ true
    | none ↦ elim config.retries [ some n ↦ true | none ↦ false ]
  ]

  -- `internal.retries >= maxRetries`.
  unfoldable pub retries_spent : ℕ → Bool
  unfolding max_retries
  retries_spent n = elim max_retries [ none ↦ false | some m ↦ leb m n ]

abbrev given : Option String → Bool
given (some k) = true
given none = false

-- `selector.k !== undefined && internal.k !== selector.k`, for a text that may be missing.
abbrev text_differs : Option String → Option String → Bool
text_differs none k = false
text_differs (some j) none = true
text_differs (some j) (some k) = if str_eq k j then false else true

module _ {T : Type 0} where
  unfoldable pub queue_entry_from_internal :
      (ℤ → Priority) → InternalItem T → Option ℕ → Option ℕ → Option String → QueueEntry T
  queue_entry_from_internal level_to_priority i started_at completed_at release_id = record {
    item = i.item;
    entry_id = i.entry_id;
    key = i.key;
    priority = level_to_priority i.level;
    level = some i.level;
    attempts = i.retries + 1;
    enqueued_at = i.enqueued_at;
    started_at = started_at;
    completed_at = completed_at;
    release_id = release_id;
  }

  abbrev item_differs : (T → T → Bool) → Option T → T → Bool
  item_differs same none i = false
  item_differs same (some j) i = if same i j then false else true

  abbrev item_given : Option T → Bool
  item_given (some i) = true
  item_given none = false

  -- `matchesSelector` at a selector that is no entry; an empty selector matches nothing.
  unfoldable pub matches_selector : (T → T → Bool) → InternalItem T → QueueEntrySelector T → Bool
  matches_selector same i s =
      if text_differs s.entry_id (some i.entry_id)
      then false
      else if text_differs s.key i.key
      then false
      else if item_differs same s.item i.item
      then false
      else given s.entry_id || given s.key || item_given s.item
