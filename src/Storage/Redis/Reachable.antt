-- ===== src/Storage/Redis/Reachable.antt =====
-- The states of a server that only src/storage/redis/service.ts writes to, and its set of ids in them.
use effect_pm.Prelude.{◌≡◌, refl, some, [], String}
use effect_pm.Storage.Record.{RuntimeRecord, RuntimeRecordPatch}
use effect_pm.Storage.Query.{Query}
use effect_pm.Storage.Select.{Collation}
use effect_pm.Storage.Memory.{Program}
use effect_pm.Storage.Redis.Codec.{Json, UnknownJsonString, encode_runtime_record_json}
use effect_pm.Storage.Redis.Server.{RedisState}
use effect_pm.Storage.Redis.Service.{
  write_text, delete_record, create, upsert, update, delete, transaction,
}
use effect_pm.Storage.Redis.Index.{IsIndexed, write_text-IsIndexed, delete_record-IsIndexed}
use effect_pm.Storage.Redis.Preservation.{
  create_keeps, upsert_keeps, update_keeps, remove_keeps, transaction_keeps,
}

module _ {O T : Type 0} (json : UnknownJsonString O T) (ns : String) where
  abbrev pub empty_server : RedisState T
  empty_server = record { strings = []; sets = [] }

  -- The states of a server that only the adapter writes to.
  pub data Reachable (collate : Collation) : RedisState T → Type 1 where
    started : Reachable collate empty_server
    created :
        (r : RuntimeRecord (Json O)) (s : RedisState T)
        → Reachable collate s
        → Reachable collate (create json ns r s).1
    upserted :
        (r : RuntimeRecord (Json O)) (s : RedisState T)
        → Reachable collate s
        → Reachable collate (upsert json ns r s).1
    updated :
        (q : Query) (patch : RuntimeRecordPatch (Json O)) (s : RedisState T)
        → Reachable collate s
        → Reachable collate (update json ns collate q patch s).1
    deleted :
        (q : Query) (s : RedisState T)
        → Reachable collate s
        → Reachable collate (delete json ns collate q s).1
    transacted :
        {A : Type 0} (effect : Program (Json O) A) (s : RedisState T)
        → Reachable collate s
        → Reachable collate (transaction json ns effect s).1

module _ {O T : Type 0} (json : UnknownJsonString O T) (ns : String) (collate : Collation)
    (P : RedisState T → Type 0)
    (write_keeps : (r : RuntimeRecord (Json O)) (t : T) (s : RedisState T)
      → encode_runtime_record_json json r ≡ some t
      → P s
      → P (write_text json ns r.id t s))
    (delete_keeps : (id : String) (s : RedisState T) → P s → P (delete_record json ns id s))
    (at_start : P (empty_server json ns)) where
  pub Reachable_keeps : (s : RedisState T) → Reachable json ns collate s → P s
  Reachable_keeps _ started = at_start
  Reachable_keeps _ (created r s h) =
      create_keeps json ns P write_keeps delete_keeps r s (Reachable_keeps s h)
  Reachable_keeps _ (upserted r s h) =
      upsert_keeps json ns P write_keeps delete_keeps r s (Reachable_keeps s h)
  Reachable_keeps _ (updated q patch s h) =
      update_keeps json ns P write_keeps delete_keeps collate q patch s (Reachable_keeps s h)
  Reachable_keeps _ (deleted q s h) =
      remove_keeps json ns P write_keeps delete_keeps collate q s (Reachable_keeps s h)
  Reachable_keeps _ (transacted effect s h) =
      transaction_keeps json ns P write_keeps delete_keeps effect s (Reachable_keeps s h)

-- After any operations from an empty server whose commands do not fail, in any order and also where
-- some operations have stopped at a record that does not encode or decode, an id is in the set of ids
-- exactly if its record has a string.
pub Reachable-IsIndexed :
    {O T : Type 0} (json : UnknownJsonString O T) (ns : String) (collate : Collation)
    (s : RedisState T)
    → Reachable json ns collate s
    → IsIndexed ns s
Reachable-IsIndexed json ns collate s =
    Reachable_keeps json ns collate (IsIndexed ns)
      (λ r t s e h. write_text-IsIndexed json ns r.id t s h)
      (λ id s h. delete_record-IsIndexed json ns id s h) (λ id. refl) s
