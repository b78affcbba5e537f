-- ===== src/Tests/Scheduled.antt =====
-- Scheduled lanes under the weighted algorithm.
use effect_pm.Prelude.{ℕ, ◌+◌, ◌≡◌, ◌⊎◌, Bool, none, some, [], ◌∷◌, String, tally, if◌then◌else◌}
use effect_pm.Lanes.Bounded.{BoundedQueue}
use effect_pm.Lanes.Priority.Loops.{pending_of}
use effect_pm.Lanes.Scheduled.{unset, weighted, ScheduledLanes, poll_scheduled}
use effect_pm.Lanes.Scheduled.Picks.{poll_scheduled_lem}
use effect_pm.Tests.Instances.{list_queue}

abbrev lane_queue : BoundedQueue ℕ
lane_queue = list_queue ℕ

abbrev three_lanes : ScheduledLanes lane_queue String
three_lanes = record {
  lanes = record {
    level_count = 3;
    queues =
        record { capacity = 4; contents = 7 ∷ [] }
        ∷ record { capacity = 4; contents = [] }
        ∷ record { capacity = 4; contents = 5 ∷ 8 ∷ [] }
        ∷ [];
  };
  sched = unset;
}

poll_scheduled_lem_example :
    ((pending_of lane_queue three_lanes.lanes.queues ≡ [])
      × (poll_scheduled lane_queue weighted three_lanes ≡ (none, three_lanes)))
    ⊎ ((a : ℕ) × (t : ScheduledLanes lane_queue String) × (poll_scheduled lane_queue weighted
            three_lanes
          ≡ (some a, t))
        × ((p : ℕ → Bool)
            → tally p (7 ∷ 5 ∷ 8 ∷ [])
              ≡ (if p a then 1 else 0) + tally p (pending_of lane_queue t.lanes.queues)))
poll_scheduled_lem_example = poll_scheduled_lem lane_queue weighted three_lanes tt
