-- ===== src/Tests/Queue.antt =====
-- The queue engine on texts that are their own dedup keys.
use effect_pm.Prelude.{
  ◌≡◌, refl, true, false, Option, none, some, [], ◌∷◌, String, pos, tally, str_eq, if◌then◌else◌,
  arith,
}
use effect_pm.Lanes.Priority
use effect_pm.Queue.Types.{InternalItem, running, off, QueueEntrySelector, failure, retries_spent}
use effect_pm.Queue.Engine.{Engine}
use effect_pm.Queue.Metrics.{WindowAccum}
use effect_pm.Queue.Validate.{
  Decoded, decoded, refused, invalid, batch_validation, validate_items_with_schema,
}
use effect_pm.Queue.Validate.Batch.{validate_items_with_schema_lem}
use effect_pm.Queue.Enqueue.{enqueue_internal}
use effect_pm.Queue.Control.{release_pending, released_entries, release_id_of}
use effect_pm.Queue.Worker.{process_item_body, retry_internal}
use effect_pm.Queue.Shutdown.{shutdown}
use effect_pm.Queue.Phases.{shutdown_finishes}
use effect_pm.Queue.Keys.{has_key, pending, IsConsistent}
use effect_pm.Queue.Keys.Body.{process_item_body-IsConsistent, retry_internal_duplicates}
use effect_pm.Queue.Keys.Control.{release_pending_lem}
use effect_pm.Tests.Instances.{jobs}

abbrev pub no_work : WindowAccum
no_work = record {
  started_at = 0;
  enqueued = 0;
  started = 0;
  completed = 0;
  failed = 0;
  retried = 0;
  dead_lettered = 0;
  dropped = 0;
  rate_limit_exceeded = 0;
  wait_sum = record { high = pos 0; normal = pos 0; low = pos 0 };
  wait_count = record { high = 0; normal = 0; low = 0 };
  execution_sum = 0;
  execution_count = 0;
  total_sum = pos 0;
  total_count = 0;
}

abbrev pub idle : Engine jobs
idle = record {
  lanes = record {
    level_count = 2;
    queues = record { capacity = 3; contents = [] } ∷ record { capacity = 3; contents = [] } ∷ [];
  };
  active_keys = [];
  durable = [];
  entry_seq = 0;
  release_seq = 0;
  entry_fact_seq = 0;
  is_shutdown = false;
  phase = running;
  paused = false;
  latch_open = true;
  completed_count = 0;
  in_flight = 0;
  accum = no_work;
  flush_requested = false;
  events = [];
  entry_facts = [];
  lifecycle = [];
  dedupe_changes = [];
  worker_wakes = 0;
  drain_wakes = 0;
}

pub idle-IsConsistent : IsConsistent jobs [] idle
idle-IsConsistent = record {
  valid = record {
    some_lane = omega arith;
    as_many = refl;
    fits = (omega arith, (omega arith, tt));
  };
  counted = λ k. omega arith;
}

abbrev pub or_idle : Option (Engine jobs) → Engine jobs
or_idle none = idle
or_idle (some e) = e

abbrev pub one_job : Engine jobs
one_job = or_idle (enqueue_internal jobs ("x" ∷ "x" ∷ []) (pos 1) 0 none 5 idle)

-- A queue with one pending item, `x` in lane 1, whose key is active.
abbrev pub item_x : InternalItem String
item_x = record {
  item = "x";
  entry_id = "jobs-entry-n";
  retries = 0;
  level = pos 1;
  enqueued_at = 5;
  key = some "x";
}

abbrev pub loaded : Engine jobs
loaded = record idle {
  lanes = record {
    level_count = 2;
    queues =
        record { capacity = 3; contents = [] }
        ∷ record { capacity = 3; contents = item_x ∷ [] }
        ∷ [];
  };
  active_keys = "x" ∷ [];
}

pub loaded-IsConsistent : IsConsistent jobs [] loaded
loaded-IsConsistent = record {
  valid = record {
    some_lane = omega arith;
    as_many = refl;
    fits = (omega arith, (omega arith, tt));
  };
  counted = λ k. ground arith;
}

release_pending_lem_example :
    (e' : Engine jobs) × (release_pending jobs (some "r1") 9 loaded
      ≡ some (released_entries jobs (release_id_of jobs (some "r1") loaded).0 (item_x ∷ []), e'))
    × IsConsistent jobs [] e'
    × (pending jobs e' ≡ [])
release_pending_lem_example =
    release_pending_lem jobs refl (some "r1") 9 [] loaded loaded-IsConsistent

abbrev select_x : QueueEntrySelector String
select_x = record { entry_id = none; key = some "x"; item = none }

-- A worker holds `x`; its run fails once and it is enqueued again.
abbrev pub held_x : Engine jobs
held_x = record idle { active_keys = "x" ∷ [] }

held_x-IsConsistent : IsConsistent jobs (item_x ∷ []) held_x
held_x-IsConsistent = record { valid = idle-IsConsistent.valid; counted = λ k. ground arith }

abbrev after_failure : Engine jobs
after_failure = or_idle (process_item_body jobs item_x 6 8 (failure "bad") held_x)

process_item_body-IsConsistent_example : IsConsistent jobs [] after_failure
unfolding process_item_body retries_spent Priority.offer
process_item_body-IsConsistent_example =
    process_item_body-IsConsistent jobs (λ t. t) refl refl [] item_x 6 8 (failure "bad") held_x
      after_failure held_x-IsConsistent refl

-- The key of `x` was released, and another fiber has enqueued `x` before the retry.
abbrev after_retry : Engine jobs
after_retry = or_idle (retry_internal jobs item_x (failure "bad") 8 loaded)

retry_internal_duplicates_example : tally (has_key "x") (pending jobs after_retry) ≡ 2
unfolding retry_internal retries_spent Priority.offer
retry_internal_duplicates_example =
    retry_internal_duplicates jobs (λ t. t) refl refl item_x "x" (failure "bad") 8 loaded
      after_retry loaded-IsConsistent refl refl refl refl refl refl

shutdown_finishes_example :
    (e' : Engine jobs) × (shutdown jobs loaded ≡ some e')
    × (e'.is_shutdown ≡ true)
    × (pending jobs e' ≡ [])
    × (loaded.in_flight ≡ 0 → e'.phase ≡ off)
shutdown_finishes_example = shutdown_finishes jobs loaded refl refl loaded-IsConsistent.valid refl

abbrev decode_short : String → Decoded String
decode_short t = if str_eq t "" then refused "empty" else decoded t

validate_items_with_schema_lem_example :
    validate_items_with_schema decode_short ("a" ∷ "" ∷ [])
    ≡ invalid (batch_validation ((1, "empty") ∷ []))
validate_items_with_schema_lem_example = validate_items_with_schema_lem decode_short ("a" ∷ "" ∷ [])
