-- ===== src/Storage/Redis/Codec.antt =====
-- src/storage/redis/codec.ts: a record as a JSON text, and back. Numbers are natural numbers, as far as
-- the codec looks into them.
pub mod RoundTrip
use effect_pm.Prelude.{
  ℕ, ◌≡◌, Bool, true, false, Option, none, some, List, [], ◌∷◌, String, str_eq, if◌then◌else◌,
}
use effect_pm.Prelude.Dict.{Dict}
use effect_pm.Storage.Record.{RuntimeRecord}
use effect_pm.Storage.Sqlite.Codec.{◌>>=◌}

-- The JSON values that the codec tells apart; `other` has those it only passes on, of type `O`.
pub data Json (O : Type 0) : Type 0 where
  number : ℕ → Json O
  text : String → Json O
  boolean : Bool → Json O
  texts : List String → Json O
  other : O → Json O

-- A parsed text.
pub data Document (O : Type 0) : Type 0 where
  object : Dict (Json O) → Document O
  value : Json O → Document O

-- The properties of an object that are not `undefined`.
abbrev pub defined : {A : Type 0} → Dict (Option A) → Dict A
defined [] = []
defined ((k, none) ∷ rest) = defined rest
defined ((k, some a) ∷ rest) = (k, a) ∷ defined rest

-- `unknownJsonString`, of the schema library: encoding leaves out what is undefined, and an object
-- that has been encoded is decoded again. `T` is the type of the texts.
pub record UnknownJsonString (O T : Type 0) : Type 0 where
  pub encode : Dict (Option (Json O)) → Option T
  pub decode : T → Option (Document O)
  pub decode-encode :
      (d : Dict (Option (Json O))) (t : T)
      → encode d ≡ some t
      → decode t ≡ some (object (defined d))

-- `a ?? b`, both of which may be `undefined`.
abbrev pub or_id : Option String → Option String → Option String
or_id none b = b
or_id (some a) b = some a

module _ {O : Type 0} where
  -- `row[name]`.
  abbrev pub property : String → Dict (Json O) → Option (Json O)
  property name [] = none
  property name ((k, v) ∷ rest) = if str_eq k name then some v else property name rest

  abbrev pub read_optional_string : Option (Json O) → Option String
  read_optional_string (some (text s)) = some s
  read_optional_string _ = none

  abbrev pub read_number : Option (Json O) → Option ℕ
  read_number (some (number n)) = some n
  read_number _ = none

  abbrev pub read_index_names : Option (Json O) → Option (List String)
  read_index_names (some (texts names)) = some names
  read_index_names _ = none

  abbrev pub read_readonly : Option (Json O) → Option Bool
  read_readonly (some (boolean true)) = some true
  read_readonly _ = none

  abbrev pub json_text : Option String → Option (Json O)
  json_text none = none
  json_text (some s) = some (text s)

  abbrev pub json_names : Option (List String) → Option (Json O)
  json_names none = none
  json_names (some names) = some (texts names)

  abbrev pub json_flag : Option Bool → Option (Json O)
  json_flag none = none
  json_flag (some b) = some (boolean b)

  abbrev pub persisted : RuntimeRecord (Json O) → Dict (Option (Json O))
  persisted r =
      ("id", some (text r.id))
      ∷ ("type", some (text r.type))
      ∷ ("occurredAtMs", some (number r.occurred_at))
      ∷ ("createdAtMs", some (number r.created_at))
      ∷ ("runId", some (text r.run_id))
      ∷ ("processType", some (text r.process_type))
      ∷ ("processId", some (text r.process_id))
      ∷ ("subjectType", json_text r.subject_type)
      ∷ ("subjectId", json_text r.subject_id)
      ∷ ("key", json_text r.key)
      ∷ ("indexA", json_text r.index_a)
      ∷ ("indexB", json_text r.index_b)
      ∷ ("indexC", json_text r.index_c)
      ∷ ("indexD", json_text r.index_d)
      ∷ ("indexE", json_text r.index_e)
      ∷ ("indexF", json_text r.index_f)
      ∷ ("indexG", json_text r.index_g)
      ∷ ("indexH", json_text r.index_h)
      ∷ ("indexNames", json_names r.index_names)
      ∷ ("payload", r.payload)
      ∷ ("attributes", r.attributes)
      ∷ ("readonly", json_flag r.readonly)
      ∷ []

  abbrev pub properties : Document O → Option (Dict (Json O))
  properties (object row) = some row
  properties (value v) = none

  -- `row` gives the property of a name. `none` is a failed decoding.
  unfoldable pub decode_row :
      (String → Option (Json O)) → Option String → Option (RuntimeRecord (Json O))
  decode_row row id = do
    occurred_at ← read_number (row "occurredAtMs")
    created_at ← read_number (row "createdAtMs")
    record_id ← or_id (read_optional_string (row "id")) id
    type ← read_optional_string (row "type")
    run_id ← read_optional_string (row "runId")
    process_type ← read_optional_string (row "processType")
    process_id ← read_optional_string (row "processId")
    some (record {
      id = record_id;
      type = type;
      occurred_at = occurred_at;
      created_at = created_at;
      run_id = run_id;
      process_type = process_type;
      process_id = process_id;
      subject_type = read_optional_string (row "subjectType");
      subject_id = read_optional_string (row "subjectId");
      key = read_optional_string (row "key");
      index_a = read_optional_string (row "indexA");
      index_b = read_optional_string (row "indexB");
      index_c = read_optional_string (row "indexC");
      index_d = read_optional_string (row "indexD");
      index_e = read_optional_string (row "indexE");
      index_f = read_optional_string (row "indexF");
      index_g = read_optional_string (row "indexG");
      index_h = read_optional_string (row "indexH");
      index_names = read_index_names (row "indexNames");
      payload = row "payload";
      attributes = row "attributes";
      readonly = read_readonly (row "readonly");
    })

  module _ {T : Type 0} (json : UnknownJsonString O T) where
    unfoldable pub encode_runtime_record_json : RuntimeRecord (Json O) → Option T
    encode_runtime_record_json r = json.encode (persisted r)

    unfoldable pub decode_runtime_record_json : T → Option String → Option (RuntimeRecord (Json O))
    unfolding decode_row
    decode_runtime_record_json t id = do
      parsed ← json.decode t
      row ← properties parsed
      decode_row (λ name. property name row) id
