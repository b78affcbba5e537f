-- ===== src/Tests/Steps.antt =====
-- Interleavings of the queue engine on texts that are their own dedup keys.
use effect_pm.Prelude.{◌≡◌, refl, Bool, Option, none, some, [], ◌∷◌, String, pos, tally}
use effect_pm.Lanes.Priority
use effect_pm.Queue.Types.{InternalItem, success}
use effect_pm.Queue.Engine.{Engine}
use effect_pm.Queue.Enqueue.{enqueue_internal}
use effect_pm.Queue.Worker.{
  Next, took, interrupted, waits, take_next, process_start, process_finish, process_settle,
}
use effect_pm.Queue.Control.{Released, encoded, encoding_failed, blocked, release_encoded_pending}
use effect_pm.Queue.Keys.{pending, IsConsistent}
use effect_pm.Queue.Keys.Worker.{ends_in_retry}
use effect_pm.Queue.Keys.Steps.{
  Reachable, at_first, enqueued, taken, started, finished, settled, Reachable-IsConsistent,
}
use effect_pm.Queue.Keys.Restore.{release_encoded_restores}
use effect_pm.Tests.Instances.{jobs}
use effect_pm.Tests.Queue.{idle, idle-IsConsistent, loaded, loaded-IsConsistent, one_job, item_x}

abbrev after_take : Next jobs → Engine jobs
after_take (took i e) = e
after_take (interrupted e) = e
after_take (waits e) = e

abbrev taken_x : Engine jobs
taken_x = after_take (take_next jobs one_job)

abbrev finished_x : Engine jobs
finished_x = process_finish jobs item_x 6 8 success (process_start jobs item_x 6 taken_x)

abbrev engine_or : Engine jobs → Option (Engine jobs) → Engine jobs
engine_or e none = e
engine_or e (some e') = e'

abbrev offered_again : Engine jobs
offered_again = engine_or finished_x (enqueue_internal jobs ("x" ∷ []) (pos 1) 0 none 9 finished_x)

abbrev settled_x : Engine jobs
settled_x = engine_or offered_again (process_settle jobs item_x 6 8 success 10 offered_again)

-- Two jobs with the same key are offered, and a worker runs the one that is admitted. The key is
-- offered again after the run has finished and before its fiber settles it.
run_of_two : Reachable jobs idle [] [] settled_x
unfolding enqueue_internal Priority.offer take_next Priority.poll process_start process_finish
    process_settle ends_in_retry
run_of_two =
    settled item_x 6 8 10 success [] [] [] offered_again settled_x
      (enqueued ("x" ∷ []) (pos 1) 0 none 9 [] (item_x ∷ []) finished_x offered_again
        (finished item_x 6 8 success [] [] [] (process_start jobs item_x 6 taken_x) (
          started item_x 6 (item_x ∷ []) [] taken_x (
            taken item_x [] [] one_job taken_x
              (enqueued ("x" ∷ "x" ∷ []) (pos 1) 0 none 5 [] [] idle one_job at_first refl) refl)))
        refl)
      (λ again. cc) refl

Reachable-IsConsistent_example : IsConsistent jobs [] settled_x
Reachable-IsConsistent_example =
    Reachable-IsConsistent jobs (λ t. t) refl refl idle [] [] settled_x idle-IsConsistent run_of_two

abbrev no_text : String → InternalItem String → Option String
no_text release_id i = none

abbrev after_release : Released jobs String → Engine jobs
after_release (encoded out e) = idle
after_release (encoding_failed e) = e
after_release blocked = idle

abbrev put_back : Engine jobs
put_back = after_release (release_encoded_pending jobs no_text (some "r1") 9 loaded)

release_encoded_restores_example :
    IsConsistent jobs [] put_back
    × ((p : InternalItem String → Bool)
        → tally p (pending jobs put_back) ≡ tally p (pending jobs loaded))
unfolding release_encoded_pending Priority.offer Priority.extract_matching
release_encoded_restores_example =
    release_encoded_restores jobs refl no_text (some "r1") 9 [] loaded put_back loaded-IsConsistent
      refl
