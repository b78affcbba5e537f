-- ===== src/Storage/Record.antt =====
-- src/RuntimeStorage.ts: the record that every storage adapter keeps, and patches of it.
-- `J` is the type of JSON values, which storage never looks into. Instants are milliseconds since
-- the epoch.
use effect_pm.Prelude.{ℕ, ◌≡◌, refl, Bool, false, Option, none, some, List, String}

pub record RuntimeRecord (J : Type 0) : Type 0 where
  pub id : String
  pub type : String
  pub occurred_at : ℕ
  pub created_at : ℕ
  pub run_id : String
  pub process_type : String
  pub process_id : String
  pub subject_type : Option String
  pub subject_id : Option String
  pub key : Option String
  pub index_a : Option String
  pub index_b : Option String
  pub index_c : Option String
  pub index_d : Option String
  pub index_e : Option String
  pub index_f : Option String
  pub index_g : Option String
  pub index_h : Option String
  pub index_names : Option (List String)
  pub payload : Option J
  pub attributes : Option J
  pub readonly : Option Bool

-- The fields that a query may name: the texts, and the flag `readonly`.
pub data TextField : Type 0 where
  id type run_id process_type process_id : TextField
  subject_type subject_id key index_a index_b index_c index_d index_e index_f index_g index_h :
      TextField

pub data DateField : Type 0 where
  occurred_at created_at : DateField

pub data Field : Type 0 where
  text_field : TextField → Field
  readonly : Field

pub data FieldValue : Type 0 where
  text : String → FieldValue
  flag : Bool → FieldValue

-- A nullable part of a patch: left out, `null`, or a value.
pub data Change (A : Type 0) : Type 0 where
  keep unset : Change A
  set : A → Change A

pub record RuntimeRecordPatch (J : Type 0) : Type 0 where
  pub type : Option String
  pub occurred_at : Option ℕ
  pub run_id : Option String
  pub process_type : Option String
  pub process_id : Option String
  pub subject_type : Change String
  pub subject_id : Change String
  pub key : Change String
  pub index_a : Change String
  pub index_b : Change String
  pub index_c : Change String
  pub index_d : Change String
  pub index_e : Change String
  pub index_f : Change String
  pub index_g : Change String
  pub index_h : Change String
  pub index_names : Change (List String)
  pub payload : Change J
  pub attributes : Change J

-- `a ?? b`.
abbrev pub or_else : {A : Type 0} → Option A → A → A
or_else none b = b
or_else (some a) b = a

-- `patch.x === null ? undefined : patch.x ?? record.x`.
abbrev pub changed : {A : Type 0} → Change A → Option A → Option A
changed keep old = old
changed unset old = none
changed (set a) old = some a

abbrev pub as_text : Option String → Option FieldValue
as_text none = none
as_text (some s) = some (text s)

abbrev pub as_flag : Option Bool → Option FieldValue
as_flag none = none
as_flag (some b) = some (flag b)

-- `record.readonly === true`.
abbrev pub is_true : Option Bool → Bool
is_true none = false
is_true (some b) = b

module _ {J : Type 0} where
  unfoldable pub text_value : RuntimeRecord J → TextField → Option String
  text_value r TextField.id = some r.id
  text_value r TextField.type = some r.type
  text_value r TextField.run_id = some r.run_id
  text_value r TextField.process_type = some r.process_type
  text_value r TextField.process_id = some r.process_id
  text_value r TextField.subject_type = r.subject_type
  text_value r TextField.subject_id = r.subject_id
  text_value r TextField.key = r.key
  text_value r TextField.index_a = r.index_a
  text_value r TextField.index_b = r.index_b
  text_value r TextField.index_c = r.index_c
  text_value r TextField.index_d = r.index_d
  text_value r TextField.index_e = r.index_e
  text_value r TextField.index_f = r.index_f
  text_value r TextField.index_g = r.index_g
  text_value r TextField.index_h = r.index_h

  unfoldable pub field_value : RuntimeRecord J → Field → Option FieldValue
  unfolding text_value
  field_value r (text_field f) = as_text (text_value r f)
  field_value r Field.readonly = as_flag r.readonly

  unfoldable pub date_field_value : RuntimeRecord J → DateField → ℕ
  date_field_value r DateField.occurred_at = r.occurred_at
  date_field_value r DateField.created_at = r.created_at

  unfoldable pub apply_patch : RuntimeRecord J → RuntimeRecordPatch J → RuntimeRecord J
  apply_patch r patch = record {
    id = r.id;
    type = or_else patch.type r.type;
    occurred_at = or_else patch.occurred_at r.occurred_at;
    created_at = r.created_at;
    run_id = or_else patch.run_id r.run_id;
    process_type = or_else patch.process_type r.process_type;
    process_id = or_else patch.process_id r.process_id;
    subject_type = changed patch.subject_type r.subject_type;
    subject_id = changed patch.subject_id r.subject_id;
    key = changed patch.key r.key;
    index_a = changed patch.index_a r.index_a;
    index_b = changed patch.index_b r.index_b;
    index_c = changed patch.index_c r.index_c;
    index_d = changed patch.index_d r.index_d;
    index_e = changed patch.index_e r.index_e;
    index_f = changed patch.index_f r.index_f;
    index_g = changed patch.index_g r.index_g;
    index_h = changed patch.index_h r.index_h;
    index_names = changed patch.index_names r.index_names;
    payload = changed patch.payload r.payload;
    attributes = changed patch.attributes r.attributes;
    readonly = r.readonly;
  }

  pub id-apply_patch :
      (r : RuntimeRecord J) (patch : RuntimeRecordPatch J) → (apply_patch r patch).id ≡ r.id
  unfolding apply_patch
  id-apply_patch r patch = refl

  pub readonly-apply_patch :
      (r : RuntimeRecord J) (patch : RuntimeRecordPatch J)
      → (apply_patch r patch).readonly ≡ r.readonly
  unfolding apply_patch
  readonly-apply_patch r patch = refl
