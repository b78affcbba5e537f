-- ===== src/Tests/Lanes.antt =====
-- The lane store at two lanes of three items.
use effect_pm.Prelude.{Bool, ltb, not, filter, ℕ, ◌≡◌, ◌⊎◌, refl, none, some, [], ◌∷◌, pos, arith}
use effect_pm.Lanes.Bounded.{BoundedQueue}
use effect_pm.Lanes.Priority.{Lanes, make, offer, poll, extract_matching}
use effect_pm.Lanes.Priority.Contract.{IsValid, pending, poll_lem, extract_matching_lem}
use effect_pm.Tests.Instances.{list_queue}

abbrev Q : BoundedQueue ℕ
Q = list_queue ℕ

abbrev empty_lanes : Lanes Q
empty_lanes = record {
  level_count = 2;
  queues = record { capacity = 3; contents = [] } ∷ record { capacity = 3; contents = [] } ∷ [];
}

abbrev filled_lanes : Lanes Q
filled_lanes = record {
  level_count = 2;
  queues =
      record { capacity = 3; contents = 7 ∷ [] }
      ∷ record { capacity = 3; contents = 5 ∷ 8 ∷ [] }
      ∷ [];
}

made : make Q 2 3 ≡ empty_lanes
unfolding make
made = refl

filled_lanes-IsValid : IsValid Q filled_lanes
filled_lanes-IsValid = record {
  some_lane = omega arith;
  as_many = refl;
  fits = (omega arith, (omega arith, tt));
}

poll_lem_example :
    ((pending Q filled_lanes ≡ []) × (poll Q filled_lanes ≡ (none, filled_lanes)))
    ⊎ ((a : ℕ) × (t : Lanes Q) × (poll Q filled_lanes ≡ (some a, t))
        × (pending Q filled_lanes ≡ a ∷ pending Q t)
        × IsValid Q t
        × (t.level_count ≡ filled_lanes.level_count))
poll_lem_example = poll_lem Q filled_lanes filled_lanes-IsValid

offered :
    offer Q empty_lanes 9 (pos 4)
    ≡ some (record {
      level_count = 2;
      queues =
          record { capacity = 3; contents = [] } ∷ record { capacity = 3; contents = 9 ∷ [] } ∷ [];
    })
unfolding offer
offered = refl

abbrev after_offer : Lanes Q
after_offer = record {
  level_count = 2;
  queues =
      record { capacity = 3; contents = 7 ∷ [] }
      ∷ record { capacity = 3; contents = 5 ∷ 8 ∷ 9 ∷ [] }
      ∷ [];
}

abbrev is_small : ℕ → Bool
is_small n = ltb n 6

extract_matching_lem_example :
    (t : Lanes Q) × (extract_matching Q filled_lanes is_small
      ≡ some (filter is_small (pending Q filled_lanes), t))
    × IsValid Q t
    × (pending Q t ≡ filter (λ a. not (is_small a)) (pending Q filled_lanes))
extract_matching_lem_example = extract_matching_lem Q filled_lanes is_small filled_lanes-IsValid
