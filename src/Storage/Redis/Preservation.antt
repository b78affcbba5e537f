-- ===== src/Storage/Redis/Preservation.antt =====
-- What every operation of src/storage/redis/service.ts keeps, also where it stops half way.
use effect_pm.Prelude.{
  ℕ, ◌+◌, ◌≡◌, refl, Bool, not, ◌&&◌, some, List, [], ◌∷◌, String, Bool-cases, Option-cases, ◌⊎◌,
  inl, inr,
}
use effect_pm.Prelude.Dict.{get}
use effect_pm.Storage.Record.{RuntimeRecord, RuntimeRecordPatch, apply_patch, is_true}
use effect_pm.Storage.Query.{Query}
use effect_pm.Storage.Select.{Collation, select}
use effect_pm.Storage.Memory.{
  Outcome, StorageError, UpdateResult, Program, is_found, done, failed, includes_readonly_true,
}
use effect_pm.Storage.Memory
use effect_pm.Storage.Redis.Codec.{
  Json, UnknownJsonString, encode_runtime_record_json, decode_runtime_record_json,
}
use effect_pm.Storage.Redis.Server.{RedisState, is_some, get_command, exists_command}
use effect_pm.Storage.Redis.Service.{
  record_key, write_text, delete_record, write_record, load_all_records, create, upsert,
  update_loop, update, delete_loop, delete, remove_missing, write_all, commit_records, transaction,
}

Outcome-cases :
    {A : Type 0} (o : Outcome A) → ((e : StorageError) × (o ≡ failed e)) ⊎ ((a : A) × (o ≡ done a))
Outcome-cases (failed e) = inl (e, refl)
Outcome-cases (done a) = inr (a, refl)

-- What a write and a removal keep, every operation keeps.
module _ {O T : Type 0} (json : UnknownJsonString O T) (ns : String) (P : RedisState T → Type 0)
    (write_keeps : (r : RuntimeRecord (Json O)) (t : T) (s : RedisState T)
      → encode_runtime_record_json json r ≡ some t
      → P s
      → P (write_text json ns r.id t s))
    (delete_keeps : (id : String) (s : RedisState T) → P s → P (delete_record json ns id s)) where
  write_record_keeps :
      (r : RuntimeRecord (Json O)) (s : RedisState T) → P s → P (write_record json ns r s).1
  unfolding write_record
  write_record_keeps r s h = elim (Option-cases (encode_runtime_record_json json r)) [
    | inl e ↦ rw (e, write_record) h
    | inr (t, e) ↦ rw (e, write_record) (write_keeps r t s e h)
  ]

  pub create_keeps :
      (r : RuntimeRecord (Json O)) (s : RedisState T) → P s → P (create json ns r s).1
  unfolding create
  create_keeps r s h = elim (Bool-cases (exists_command (record_key ns r.id) s)) [
    | inl e ↦ rw e h
    | inr e ↦ rw e (elim (Option-cases (encode_runtime_record_json json r)) [
      | inl f ↦ rw f h
      | inr (t, f) ↦ rw f (elim (Bool-cases (is_some (get (record_key ns r.id) s.strings))) [
        | inl d ↦ rw d h
        | inr d ↦ rw d (write_keeps r t s f h)
      ])
    ])
  ]

  pub upsert_keeps :
      (r : RuntimeRecord (Json O)) (s : RedisState T) → P s → P (upsert json ns r s).1
  unfolding upsert
  upsert_keeps r s h = elim (Option-cases (get_command (record_key ns r.id) s)) [
    | inl e ↦ rw (e, upsert) (write_record_keeps r s h)
    | inr (t, e) ↦
        rw (e, upsert)
          (elim (Option-cases (decode_runtime_record_json json t (some r.id))) [
            | inl f ↦ rw (f, upsert) h
            | inr (existing, f) ↦
                rw (f, upsert)
                  (elim (Bool-cases (is_true existing.readonly)) [
                    | inl b ↦ rw (b, upsert) h
                    | inr b ↦ rw (b, upsert) (write_record_keeps r s h)
                  ])
          ])
  ]

  update_loop_keeps :
      (patch : RuntimeRecordPatch (Json O)) (rows : List (RuntimeRecord (Json O)))
      (n : UpdateResult) (s : RedisState T)
      → P s
      → P (update_loop json ns patch rows n s).1
  unfolding update_loop
  update_loop_keeps patch [] n s h = h
  update_loop_keeps patch (r ∷ rows) n s h = elim (Bool-cases (is_true r.readonly)) [
    | inl b ↦ rw (b, update_loop) (update_loop_keeps patch rows _ s h)
    | inr b ↦
        rw (b, update_loop)
          (elim (Option-cases (encode_runtime_record_json json (apply_patch r patch))) [
            | inl e ↦ rw (e, update_loop) h
            | inr (t, e) ↦
                rw (e, update_loop)
                  (update_loop_keeps patch rows _ _ (write_keeps (apply_patch r patch) t s e h))
          ])
  ]

  delete_loop_keeps :
      (b : Bool) (rows : List (RuntimeRecord (Json O))) (n : ℕ) (s : RedisState T)
      → P s
      → P (delete_loop json ns b rows n s).1
  unfolding delete_loop
  delete_loop_keeps b [] n s h = h
  delete_loop_keeps b (r ∷ rows) n s h = elim (Bool-cases (is_true r.readonly && not b)) [
    | inl e ↦ rw (e, delete_loop) (delete_loop_keeps b rows n s h)
    | inr e ↦ rw (e, delete_loop) (delete_loop_keeps b rows (n + 1) _ (delete_keeps r.id s h))
  ]

  remove_missing_keeps :
      (before tx : List (RuntimeRecord (Json O))) (s : RedisState T)
      → P s
      → P (remove_missing json ns before tx s)
  unfolding remove_missing
  remove_missing_keeps [] tx s h = h
  remove_missing_keeps (r ∷ before) tx s h = elim (Bool-cases (is_found (Memory.get r.id tx))) [
    | inl e ↦ rw e (remove_missing_keeps before tx s h)
    | inr e ↦ rw e (remove_missing_keeps before tx _ (delete_keeps r.id s h))
  ]

  write_all_keeps :
      (tx : List (RuntimeRecord (Json O))) (s : RedisState T) → P s → P (write_all json ns tx s).1
  unfolding write_all
  write_all_keeps [] s h = h
  write_all_keeps (r ∷ tx) s h = elim (Option-cases (encode_runtime_record_json json r)) [
    | inl e ↦ rw (e, write_all) h
    | inr (t, e) ↦ rw (e, write_all) (write_all_keeps tx _ (write_keeps r t s e h))
  ]

  pub update_keeps :
      (collate : Collation) (q : Query) (patch : RuntimeRecordPatch (Json O)) (s : RedisState T)
      → P s
      → P (update json ns collate q patch s).1
  unfolding update
  update_keeps collate q patch s h = elim (Option-cases (load_all_records json ns s)) [
    | inl e ↦ rw (e, update) h
    | inr (records, e) ↦ rw (e, update) (update_loop_keeps patch (select collate q records) _ s h)
  ]

  pub remove_keeps :
      (collate : Collation) (q : Query) (s : RedisState T) → P s → P (delete json ns collate q s).1
  unfolding delete
  remove_keeps collate q s h = elim (Option-cases (load_all_records json ns s)) [
    | inl e ↦ rw (e, delete) h
    | inr (records, e) ↦
        rw (e, delete)
          (delete_loop_keeps (includes_readonly_true q.predicate) (select collate q records) 0 s h)
  ]

  commit_records_keeps :
      (before tx : List (RuntimeRecord (Json O))) (s : RedisState T)
      → P s
      → P (commit_records json ns before tx s).1
  unfolding commit_records
  commit_records_keeps before tx s h =
      write_all_keeps tx (remove_missing json ns before tx s) (remove_missing_keeps before tx s h)

  pub transaction_keeps :
      {A : Type 0} (effect : Program (Json O) A) (s : RedisState T)
      → P s
      → P (transaction json ns effect s).1
  unfolding transaction
  transaction_keeps effect s h = elim (Option-cases (load_all_records json ns s)) [
    | inl e ↦ rw (e, transaction) h
    | inr (before, e) ↦
        rw (e, transaction)
          (elim (Outcome-cases (effect before).0) [
            | inl (f, d) ↦ rw (d, transaction) h
            | inr (a, d) ↦
                let kept = commit_records_keeps before (effect before).1 s h in
                let committed = (commit_records json ns before (effect before).1 s).0 in
                rw (d, transaction)
                  (elim (Outcome-cases committed) [
                    | inl (f, c) ↦ rw (c, transaction) kept
                    | inr (u, c) ↦ rw (c, transaction) kept
                  ])
          ])
  ]
