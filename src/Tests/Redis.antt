-- ===== src/Tests/Redis.antt =====
-- Runtime records on Redis, with objects for JSON texts.
use effect_pm.Prelude.{true, arith, ◌≡◌, refl, false, Option, none, some, ◌∷◌, []}
use effect_pm.Prelude.Dict.{Dict}
use effect_pm.Storage.Record.{RuntimeRecord}
use effect_pm.Storage.Redis.Codec.{
  Json, number, object, defined, UnknownJsonString, persisted, encode_runtime_record_json,
  decode_runtime_record_json,
}
use Prim.Native.String.{compare as compare_text}
use effect_pm.Storage.Query.{Query}
use effect_pm.Storage.Select.{Collation}
use effect_pm.Storage.Memory.{done}
use effect_pm.Storage.Redis.Server.{RedisState}
use effect_pm.Storage.Redis.Service.{create, read, delete}
use effect_pm.Storage.Redis.Index.{IsIndexed}
use effect_pm.Storage.Redis.Reachable.{empty_server, started, created, deleted, Reachable-IsIndexed}
use effect_pm.Storage.Redis.Service.{commit_records, write_all}
use effect_pm.Storage.Memory.{get}
use effect_pm.Storage.Redis.Commit.{stored, text_of}
use effect_pm.Storage.Redis.Load.{commit-load_all_records}
use effect_pm.Storage.Redis.Service.{load_all_records}
use effect_pm.Storage.Redis.Codec.RoundTrip.{normalized, decode-encode_runtime_record_json}

objects_back :
    (d : Dict (Option (Json Unit))) (t : Dict (Json Unit))
    → some (defined d) ≡ some t
    → some (object t) ≡ some (object (defined d))
objects_back d t h = cc

abbrev as_objects : UnknownJsonString Unit (Dict (Json Unit))
as_objects = record {
  encode = λ d. some (defined d);
  decode = λ t. some (object t);
  decode-encode = λ d t h. objects_back d t h;
}

abbrev job : RuntimeRecord (Json Unit)
job = record {
  id = "a";
  type = "job";
  occurred_at = 5;
  created_at = 6;
  run_id = "run";
  process_type = "queue";
  process_id = "p";
  subject_type = some "order";
  subject_id = none;
  key = some "k";
  index_a = none;
  index_b = none;
  index_c = none;
  index_d = none;
  index_e = none;
  index_f = none;
  index_g = none;
  index_h = none;
  index_names = none;
  payload = some (number 3);
  attributes = none;
  readonly = some false;
}

decode-encode_runtime_record_json_example :
    decode_runtime_record_json as_objects (defined (persisted job)) none ≡ some (normalized job)
unfolding encode_runtime_record_json
decode-encode_runtime_record_json_example =
    decode-encode_runtime_record_json as_objects job (defined (persisted job)) none refl

abbrev plain : Collation
plain s t = compare_text s t

abbrev all_jobs : Query
all_jobs = record { predicate = none; order_by = none; limit = none; offset = none }

-- A server with the record, written by the adapter.
abbrev with_job : RedisState (Dict (Json Unit))
with_job = (create as_objects "pm" job (empty_server as_objects "pm")).1

read-job : read as_objects "pm" plain all_jobs with_job ≡ done (normalized job ∷ [])
unfolding read create encode_runtime_record_json decode_runtime_record_json
    effect_pm.Storage.Memory.set_row
read-job = refl

Reachable-IsIndexed_example : IsIndexed "pm" (delete as_objects "pm" plain all_jobs with_job).1
Reachable-IsIndexed_example =
    Reachable-IsIndexed as_objects "pm" plain (delete as_objects "pm" plain all_jobs with_job).1
      (deleted all_jobs with_job (created job (empty_server as_objects "pm") started))

abbrev other_job : RuntimeRecord (Json Unit)
other_job = record job { id = "b"; readonly = some true }

-- A transaction that has replaced the job by another.
commit-load_all_records_example :
    stored as_objects "pm" "a"
      (commit_records as_objects "pm" (normalized job ∷ []) (other_job ∷ []) with_job).1
    ≡ text_of as_objects "pm" (get "a" (other_job ∷ [])) none
unfolding commit_records write_all load_all_records create encode_runtime_record_json
    decode_runtime_record_json effect_pm.Storage.Memory.set_row
commit-load_all_records_example =
    commit-load_all_records as_objects "pm" plain with_job (normalized job ∷ []) (other_job ∷ [])
      (created job (empty_server as_objects "pm") started) refl (λ j. ground arith) refl "a"
