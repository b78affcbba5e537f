-- ===== src/Storage/Redis/Server.antt =====
-- `makeInMemoryRedisSend` of src/storage/redis/send.ts: the commands that the adapter sends, on the
-- strings and the sets of a server. `T` is the type of the strings' values.
use effect_pm.Prelude.{
  Bool, true, false, not, ◌||◌, Option, none, some, List, [], ◌∷◌, ◌++◌, String, str_eq, any,
  filter, if◌then◌else◌,
}
use effect_pm.Prelude.Dict.{Dict, get, set, del, or_value}

pub record RedisState (T : Type 0) : Type 0 where
  pub strings : Dict T
  pub sets : Dict (List String)

abbrev pub is_some : {A : Type 0} → Option A → Bool
is_some none = false
is_some (some a) = true

abbrev pub is_member : String → List String → Bool
is_member m members = any (λ x. str_eq x m) members

-- A set keeps the order of insertion.
abbrev pub add_member : String → List String → List String
add_member m members = if is_member m members then members else members ++ m ∷ []

abbrev pub drop_member : String → List String → List String
drop_member m members = filter (λ x. not (str_eq x m)) members

-- The sets after `SREM`, given the set of the key.
abbrev pub srem_sets :
    String → String → Option (List String) → Dict (List String) → Dict (List String)
srem_sets key member none sets = sets
srem_sets key member (some members) sets = set key (drop_member member members) sets

module _ {T : Type 0} where
  abbrev pub get_command : String → RedisState T → Option T
  get_command key state = get key state.strings

  abbrev pub set_command : String → T → RedisState T → RedisState T
  set_command key value state = record state { strings = set key value state.strings }

  -- `SET key value NX`: whether it has been set.
  abbrev pub set_nx_command : String → T → RedisState T → Bool × RedisState T
  set_nx_command key value state =
      if is_some (get key state.strings)
      then (false, state)
      else (true, set_command key value state)

  abbrev pub del_command : String → RedisState T → RedisState T
  del_command key state = record { strings = del key state.strings; sets = del key state.sets }

  abbrev pub exists_command : String → RedisState T → Bool
  exists_command key state = is_some (get key state.strings) || is_some (get key state.sets)

  abbrev pub smembers_command : String → RedisState T → List String
  smembers_command key state = or_value [] (get key state.sets)

  abbrev pub sadd_command : String → String → RedisState T → RedisState T
  sadd_command key member state = record state {
    sets = set key (add_member member (smembers_command key state)) state.sets;
  }

  abbrev pub srem_command : String → String → RedisState T → RedisState T
  srem_command key member state = record state {
    sets = srem_sets key member (get key state.sets) state.sets;
  }
