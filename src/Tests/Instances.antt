-- ===== src/Tests/Instances.antt =====
-- Concrete functions for what the program takes from its libraries: a bounded queue and a key set,
-- both over lists.
use effect_pm.Prelude.{
  ℕ, ◌+◌, ◌≤◌, ◌<◌, ◌≡◌, refl, Bool, true, false, not, Option, none, some, List, [], ◌∷◌, ◌++◌,
  String, str_eq, str_eq_iff, length, filter, any, if◌then◌else◌, ltb, leb, arith,
}
use effect_pm.Lanes.Bounded.{BoundedQueue}
use effect_pm.Lanes.Levels.{clamp_level, default_priority_to_level, level_to_default_priority}
use effect_pm.Lanes.Store.{LaneStore}
use effect_pm.Lanes.Priority
use effect_pm.Lanes.Priority.Loops.{RoomAt}
use effect_pm.Lanes.Priority.Contract.{
  pending, IsValid, offer_room, offer_tally, poll_some, poll_none, sizes_lem, is_empty_iff,
  drain_lem, extract_matching_lem,
}
use effect_pm.Durable.Sqlite.Contract.{sqlite_store}
use effect_pm.Queue.Types.{KeySet, InternalItem, Config, finish_active}
use effect_pm.Queue.Engine.{Setup}

module _ (A : Type 0) where
  pub record ListQueue : Type 0 where
    pub capacity : ℕ
    pub contents : List A

  abbrev pub poll_list : List A → ℕ → Option (A × ListQueue)
  poll_list [] c = none
  poll_list (x ∷ xs) c = some (x, record { capacity = c; contents = xs })

  abbrev pub list_offer : ListQueue → A → Option ListQueue
  list_offer q a =
      if ltb (length q.contents) q.capacity
      then some (record q { contents = q.contents ++ a ∷ [] })
      else none

  abbrev pub list_offer_all : ListQueue → List A → Option ListQueue
  list_offer_all q xs =
      if leb (length q.contents + length xs) q.capacity
      then some (record q { contents = q.contents ++ xs })
      else none

  pub list_offer_room :
      (q : ListQueue) (a : A)
      → length q.contents < q.capacity
      → (r : ListQueue) × (list_offer q a ≡ some r)
        × (r.contents ≡ q.contents ++ a ∷ [])
        × (r.capacity ≡ q.capacity)
  list_offer_room q a room =
      (record q { contents = q.contents ++ a ∷ [] }, ground arith, refl, refl)

  pub list_offer_full :
      (q : ListQueue) (a : A) → q.capacity ≤ length q.contents → list_offer q a ≡ none
  list_offer_full q a full = ground arith

  pub list_offer_all_room :
      (q : ListQueue) (xs : List A)
      → length q.contents + length xs ≤ q.capacity
      → (r : ListQueue) × (list_offer_all q xs ≡ some r)
        × (r.contents ≡ q.contents ++ xs)
        × (r.capacity ≡ q.capacity)
  list_offer_all_room q xs room =
      (record q { contents = q.contents ++ xs }, ground arith, refl, refl)

  abbrev pub list_queue : BoundedQueue A
  list_queue = record {
    Queue = ListQueue;
    bounded = λ c. record { capacity = c; contents = [] };
    offer = list_offer;
    offer_all = list_offer_all;
    poll = λ q. poll_list q.contents q.capacity;
    size = λ q. length q.contents;
    contents = λ q. q.contents;
    capacity = λ q. q.capacity;
    contents-bounded = λ c. refl;
    capacity-bounded = λ c. refl;
    offer_room = list_offer_room;
    offer_full = list_offer_full;
    offer_all_room = list_offer_all_room;
    poll_nil = λ q e. rw e refl;
    poll_cons = λ q a rest e. (record q { contents = rest }, rw e refl, refl, refl);
    size-contents = λ q. refl;
  }

abbrev pub has_text : List String → String → Bool
has_text ks j = any (λ k. str_eq k j) ks

abbrev pub without : List String → String → List String
without ks k = filter (λ j. not (str_eq k j)) ks

pub has_text-without :
    (ks : List String) (k j : String)
    → has_text (without ks k) j ≡ (if str_eq k j then false else has_text ks j)
has_text-without [] k j = ground arith
has_text-without (i ∷ ks) k j =
    ground (arith, has_text-without ks k j, str_eq_iff k i, str_eq_iff i j, str_eq_iff k j)

pub has_text-add :
    (ks : List String) (k j : String)
    → has_text (k ∷ ks) j ≡ (if str_eq k j then true else has_text ks j)
has_text-add ks k j = ground arith

abbrev pub list_keys : KeySet
list_keys = record {
  Keys = List String;
  empty = [];
  has = has_text;
  add = λ ks k. k ∷ ks;
  remove = without;
  has-empty = λ j. refl;
  has-add = has_text-add;
  has-remove = has_text-without;
}

abbrev pub item_queue : BoundedQueue (InternalItem String)
item_queue = list_queue (InternalItem String)

-- The priority lane store with its definition in view.
abbrev pub item_lanes : LaneStore (InternalItem String)
item_lanes = record {
  State = Priority.Lanes item_queue;
  offer = Priority.offer item_queue;
  poll = Priority.poll item_queue;
  is_empty = Priority.is_empty item_queue;
  sizes = Priority.sizes item_queue;
  drain = Priority.drain item_queue;
  extract_matching = Priority.extract_matching item_queue;
  pending = pending item_queue;
  HasRoom = λ s level. RoomAt item_queue s.queues (clamp_level level s.level_count);
  IsValid = IsValid item_queue;
  offer_room = offer_room item_queue;
  offer_tally = offer_tally item_queue;
  poll_some = poll_some item_queue;
  poll_none = poll_none item_queue;
  sizes_lem = λ s _. sizes_lem item_queue s;
  is_empty_iff = λ s _. is_empty_iff item_queue s;
  drain_lem = drain_lem item_queue;
  extract_lem = extract_matching_lem item_queue;
}

abbrev pub jobs_config : Config String String
jobs_config = record {
  queue_name = "jobs";
  key = some (λ t. t);
  attempts = some 3;
  retries = none;
  shutdown_mode = finish_active;
  on_failure = none;
  priority_to_level = default_priority_to_level;
  level_to_priority = level_to_default_priority;
  has_process_store = true;
  no_cause = "none";
  show = λ n. "n";
  same_item = str_eq;
}

-- A queue of texts that are their own dedup keys, in memory.
abbrev pub jobs : Setup
jobs = record {
  T = String;
  C = String;
  P = String;
  lane_store = item_lanes;
  key_set = list_keys;
  durable_store = sqlite_store String;
  config = jobs_config;
  persist = none;
}
