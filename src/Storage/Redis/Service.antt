-- ===== src/Storage/Redis/Service.antt =====
-- src/storage/redis/service.ts: runtime records as one string each, with a set of their ids. Errors of
-- the connection are left out. A text that does not decode, or a record that does not encode, fails
-- the operation where it stands; what has been sent before it stays.
use Prim.Native.String.{◌++◌ as join}
use effect_pm.Prelude.{
  ℕ, ◌+◌, Bool, true, false, not, ◌&&◌, Option, none, some, List, [], ◌∷◌, String, if◌then◌else◌,
}
use effect_pm.Storage.Record.{RuntimeRecord, RuntimeRecordPatch, apply_patch, is_true}
use effect_pm.Storage.Query.{Query}
use effect_pm.Storage.Select.{Collation, select}
use effect_pm.Storage.Memory.{
  Outcome, done, failed, StorageError, duplicate_record, readonly_record, decode_failed,
  encode_failed, UpdateResult, DeleteResult, Program, set_row, is_found, includes_readonly_true,
}
use effect_pm.Storage.Memory
use effect_pm.Storage.Redis.Codec.{
  Json, UnknownJsonString, encode_runtime_record_json, decode_runtime_record_json,
}
use effect_pm.Storage.Redis.Server.{
  RedisState, get_command, set_command, set_nx_command, del_command, exists_command,
  smembers_command, sadd_command, srem_command,
}

abbrev pub ids_key : String → String
ids_key namespace = join namespace ":runtime:ids"

abbrev pub record_key : String → String → String
record_key namespace id = join namespace (join ":runtime:record:" id)

module _ {O T : Type 0} (json : UnknownJsonString O T) (namespace : String) where
  -- The loop of `loadAllRecords`; a member without a string is passed over.
  abbrev pub load_ids :
      RedisState T
      → List String
      → List (RuntimeRecord (Json O))
      → Option (List (RuntimeRecord (Json O)))
  load_ids state [] records = some records
  load_ids state (id ∷ ids) records = elim (get_command (record_key namespace id) state) [
    | none ↦ load_ids state ids records
    | some t ↦ elim (decode_runtime_record_json json t (some id)) [
      | none ↦ none
      | some r ↦ load_ids state ids (set_row r records)
    ]
  ]

  unfoldable pub load_all_records : RedisState T → Option (List (RuntimeRecord (Json O)))
  load_all_records state = load_ids state (smembers_command (ids_key namespace) state) []

  abbrev pub write_text : String → T → RedisState T → RedisState T
  write_text id t state =
      sadd_command (ids_key namespace) id (set_command (record_key namespace id) t state)

  unfoldable pub write_record :
      RuntimeRecord (Json O) → RedisState T → Outcome (Unit {0}) × RedisState T
  write_record r state = elim (encode_runtime_record_json json r) [
    | none ↦ (failed encode_failed, state)
    | some t ↦ (done tt, write_text r.id t state)
  ]

  unfoldable pub delete_record : String → RedisState T → RedisState T
  delete_record id state =
      srem_command (ids_key namespace) id (del_command (record_key namespace id) state)

  unfoldable pub create : RuntimeRecord (Json O) → RedisState T → Outcome (Unit {0}) × RedisState T
  create r state =
      if exists_command (record_key namespace r.id) state
      then (failed (duplicate_record r.id), state)
      else (elim (encode_runtime_record_json json r) [
        | none ↦ (failed encode_failed, state)
        | some t ↦
            let (ok, state') = set_nx_command (record_key namespace r.id) t state in
            if ok
            then (done tt, sadd_command (ids_key namespace) r.id state')
            else (failed (duplicate_record r.id), state')
      ])

  unfoldable pub upsert : RuntimeRecord (Json O) → RedisState T → Outcome (Unit {0}) × RedisState T
  unfolding write_record
  upsert r state = elim (get_command (record_key namespace r.id) state) [
    | none ↦ write_record r state
    | some t ↦ elim (decode_runtime_record_json json t (some r.id)) [
      | none ↦ (failed decode_failed, state)
      | some existing ↦
          if is_true existing.readonly
          then (failed (readonly_record r.id), state)
          else write_record r state
    ]
  ]

  -- The loop of `update` over the selected records.
  unfoldable pub update_loop :
      RuntimeRecordPatch (Json O)
      → List (RuntimeRecord (Json O))
      → UpdateResult
      → RedisState T
      → Outcome UpdateResult × RedisState T
  unfolding apply_patch
  update_loop patch [] n state = (done n, state)
  update_loop patch (r ∷ matching) n state = elim (is_true r.readonly) [
    | true ↦ update_loop patch matching (record n { matched = n.matched + 1 }) state
    | false ↦ elim (encode_runtime_record_json json (apply_patch r patch)) [
      | none ↦ (failed encode_failed, state)
      | some t ↦
          update_loop patch matching (record { matched = n.matched + 1; updated = n.updated + 1 })
            (write_text (apply_patch r patch).id t state)
    ]
  ]

  -- The loop of `delete` over the selected records.
  unfoldable pub delete_loop :
      Bool → List (RuntimeRecord (Json O)) → ℕ → RedisState T → ℕ × RedisState T
  unfolding delete_record
  delete_loop include_readonly [] n state = (n, state)
  delete_loop include_readonly (r ∷ matching) n state =
      elim (is_true r.readonly && not include_readonly) [
        | true ↦ delete_loop include_readonly matching n state
        | false ↦ delete_loop include_readonly matching (n + 1) (delete_record r.id state)
      ]

  module _ (collate : Collation) where
    unfoldable pub read : Query → RedisState T → Outcome (List (RuntimeRecord (Json O)))
    unfolding load_all_records select
    read q state = elim (load_all_records state) [
      | none ↦ failed decode_failed
      | some records ↦ done (select collate q records)
    ]

    unfoldable pub update :
        Query → RuntimeRecordPatch (Json O) → RedisState T → Outcome UpdateResult × RedisState T
    unfolding load_all_records select update_loop
    update q patch state = elim (load_all_records state) [
      | none ↦ (failed decode_failed, state)
      | some records ↦
          update_loop patch (select collate q records) (record { matched = 0; updated = 0 }) state
    ]

    unfoldable pub delete : Query → RedisState T → Outcome DeleteResult × RedisState T
    unfolding load_all_records select delete_loop includes_readonly_true
    delete q state = elim (load_all_records state) [
      | none ↦ (failed decode_failed, state)
      | some records ↦
          let (n, state') =
            delete_loop (includes_readonly_true q.predicate) (select collate q records) 0 state in
          (done (record { deleted = n }), state')
    ]

  -- The two loops of `commitRecords`.
  unfoldable pub remove_missing :
      List (RuntimeRecord (Json O)) → List (RuntimeRecord (Json O)) → RedisState T → RedisState T
  unfolding delete_record
  remove_missing [] tx state = state
  remove_missing (r ∷ before) tx state =
      if is_found (Memory.get r.id tx)
      then remove_missing before tx state
      else remove_missing before tx (delete_record r.id state)

  unfoldable pub write_all :
      List (RuntimeRecord (Json O)) → RedisState T → Outcome (Unit {0}) × RedisState T
  write_all [] state = (done tt, state)
  write_all (r ∷ tx) state = elim (encode_runtime_record_json json r) [
    | none ↦ (failed encode_failed, state)
    | some t ↦ write_all tx (write_text r.id t state)
  ]

  unfoldable pub commit_records :
      List (RuntimeRecord (Json O))
      → List (RuntimeRecord (Json O))
      → RedisState T
      → Outcome (Unit {0}) × RedisState T
  unfolding remove_missing write_all
  commit_records before tx state = write_all tx (remove_missing before tx state)

  -- The effect runs on a copy of the records in memory, which is committed if it succeeds.
  unfoldable pub transaction :
      {A : Type 0} → Program (Json O) A → RedisState T → Outcome A × RedisState T
  unfolding load_all_records commit_records
  transaction effect state = elim (load_all_records state) [
    | none ↦ (failed decode_failed, state)
    | some before ↦
        let (exit, tx) = effect before in
        elim exit [
          | failed e ↦ (failed e, state)
          | done a ↦
              let (committed, state') = commit_records before tx state in
              elim committed [ failed e ↦ (failed e, state') | done u ↦ (done a, state') ]
        ]
  ]
