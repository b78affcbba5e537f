-- ===== src/Storage/Sqlite/Codec.antt =====
-- src/storage/sqlite/codec.ts: rows of the table `effect_pm_runtime_records`, and records as rows. A row has the
-- columns that the insert writes, with the types that it writes.
pub mod RoundTrip
use effect_pm.Prelude.{
  ℕ, ◌≡◌, refl, Bool, true, false, Option, none, some, List, String, ◌==◌, if◌then◌else◌, arith,
  Option-cases, inl, inr,
}
use effect_pm.Storage.Record.{RuntimeRecord}

-- JSON text, of the schema library: what it encodes it decodes again.
pub record JsonText (J : Type 0) : Type 0 where
  pub encode : J → Option String
  pub decode : String → Option J
  pub encode_names : List String → Option String
  pub decode_names : String → Option (List String)
  pub decode-encode : (j : J) (t : String) → encode j ≡ some t → decode t ≡ some j
  pub decode_names-encode :
      (names : List String) (t : String) → encode_names names ≡ some t → decode_names t ≡ some names

pub record SqlRow : Type 0 where
  pub id : String
  pub type : String
  pub occurred_at_ms : ℕ
  pub created_at_ms : ℕ
  pub run_id : String
  pub process_type : String
  pub process_id : String
  pub subject_type : Option String
  pub subject_id : Option String
  pub key : Option String
  pub index_a : Option String
  pub index_b : Option String
  pub index_c : Option String
  pub index_d : Option String
  pub index_e : Option String
  pub index_f : Option String
  pub index_g : Option String
  pub index_h : Option String
  pub index_names_json : Option String
  pub payload_json : Option String
  pub attributes_json : Option String
  pub readonly_int : Option ℕ

-- `x === undefined ? null : yield* encode(x)`: `none` outside is a failed encoding.
abbrev pub encode_column : {A : Type 0} → (A → Option String) → Option A → Option (Option String)
encode_column encode none = some none
encode_column encode (some a) = elim (encode a) [ none ↦ none | some t ↦ some (some t) ]

-- A column that is present and does not parse fails the row.
abbrev pub parse_column_strict :
    {A : Type 0} → (String → Option A) → Option String → Option (Option A)
parse_column_strict decode none = some none
parse_column_strict decode (some t) = elim (decode t) [ none ↦ none | some a ↦ some (some a) ]

abbrev pub readonly_int_of : Option Bool → Option ℕ
readonly_int_of none = none
readonly_int_of (some true) = some 1
readonly_int_of (some false) = some 0

abbrev pub readonly_flag : Option ℕ → Option Bool
readonly_flag none = none
readonly_flag (some n) = some (n == 1)

-- The parameters of the insert, its JSON columns given.
abbrev pub row_of :
    {J : Type 0} → RuntimeRecord J → Option String → Option String → Option String → SqlRow
row_of r index_names payload attributes = record {
  id = r.id;
  type = r.type;
  occurred_at_ms = r.occurred_at;
  created_at_ms = r.created_at;
  run_id = r.run_id;
  process_type = r.process_type;
  process_id = r.process_id;
  subject_type = r.subject_type;
  subject_id = r.subject_id;
  key = r.key;
  index_a = r.index_a;
  index_b = r.index_b;
  index_c = r.index_c;
  index_d = r.index_d;
  index_e = r.index_e;
  index_f = r.index_f;
  index_g = r.index_g;
  index_h = r.index_h;
  index_names_json = index_names;
  payload_json = payload;
  attributes_json = attributes;
  readonly_int = readonly_int_of r.readonly;
}

infixl 5 ◌>>=◌
abbrev pub ◌>>=◌ : {A B : Type 0} → Option A → (A → Option B) → Option B
none >>= f = none
some a >>= f = f a

module _ {J : Type 0} (json : JsonText J) where
  unfoldable pub encode_record : RuntimeRecord J → Option SqlRow
  encode_record r = do
    index_names ← encode_column json.encode_names r.index_names
    payload ← encode_column json.encode r.payload
    attributes ← encode_column json.encode r.attributes
    some (row_of r index_names payload attributes)

  unfoldable pub decode_row : SqlRow → Option (RuntimeRecord J)
  decode_row row = do
    index_names ← parse_column_strict json.decode_names row.index_names_json
    payload ← parse_column_strict json.decode row.payload_json
    attributes ← parse_column_strict json.decode row.attributes_json
    some (record {
      id = row.id;
      type = row.type;
      occurred_at = row.occurred_at_ms;
      created_at = row.created_at_ms;
      run_id = row.run_id;
      process_type = row.process_type;
      process_id = row.process_id;
      subject_type = row.subject_type;
      subject_id = row.subject_id;
      key = row.key;
      index_a = row.index_a;
      index_b = row.index_b;
      index_c = row.index_c;
      index_d = row.index_d;
      index_e = row.index_e;
      index_f = row.index_f;
      index_g = row.index_g;
      index_h = row.index_h;
      index_names = index_names;
      payload = payload;
      attributes = attributes;
      readonly = readonly_flag row.readonly_int;
    })
