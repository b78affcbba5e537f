-- ===== src/Storage/Redis/Codec/RoundTrip.antt =====
-- Decoding what src/storage/redis/codec.ts has encoded.
use effect_pm.Prelude.{
  ◌≡◌, refl, Bool, true, false, Option, none, some, List, [], ◌∷◌, ◌∙◌, ap, String, str_eq,
  if◌then◌else◌, Bool-cases, inl, inr,
}
use mathlib.Core.Path.{fun_ext}
use effect_pm.Prelude.Dict.{Dict}
use effect_pm.Storage.Record.{RuntimeRecord}
use effect_pm.Storage.Redis.Codec.{
  Json, UnknownJsonString, defined, property, read_optional_string, read_index_names, read_readonly,
  json_text, json_names, json_flag, persisted, decode_row, encode_runtime_record_json,
  decode_runtime_record_json,
}

-- A flag that is false comes back as none.
abbrev pub only_true : Option Bool → Option Bool
only_true (some true) = some true
only_true _ = none

abbrev or_next : {A : Type 0} → Option A → Option A → Option A
or_next none next = next
or_next (some v) next = some v

or_next-none : {A : Type 0} (o : Option A) → or_next o none ≡ o
or_next-none none = refl
or_next-none (some v) = refl

module _ (O : Type 0) where
  text_back : (o : Option String) → read_optional_string (or_next (json_text {O = O} o) none) ≡ o
  text_back none = refl
  text_back (some s) = refl

  names_back :
      (o : Option (List String)) → read_index_names (or_next (json_names {O = O} o) none) ≡ o
  names_back none = refl
  names_back (some s) = refl

  flag_back : (o : Option Bool) → read_readonly (or_next (json_flag {O = O} o) none) ≡ only_true o
  flag_back none = refl
  flag_back (some true) = refl
  flag_back (some false) = refl

module _ {O : Type 0} where
  -- `property` before the undefined ones are left out.
  abbrev property_of : String → Dict (Option (Json O)) → Option (Json O)
  property_of name [] = none
  property_of name ((k, o) ∷ rest) =
      if str_eq k name then or_next o (property_of name rest) else property_of name rest

  property-defined :
      (name : String) (d : Dict (Option (Json O))) → property name (defined d) ≡ property_of name d
  property-defined name [] = refl
  property-defined name ((k, none) ∷ rest) = elim (Bool-cases (str_eq k name)) [
    | inl e ↦ rw e (property-defined name rest)
    | inr e ↦ rw e (property-defined name rest)
  ]
  property-defined name ((k, some v) ∷ rest) = elim (Bool-cases (str_eq k name)) [
    | inl e ↦ rw e refl
    | inr e ↦ rw e (property-defined name rest)
  ]

  abbrev pub normalized : RuntimeRecord (Json O) → RuntimeRecord (Json O)
  normalized r = record r { readonly = only_true r.readonly }

  decode_row-property_of :
      (r : RuntimeRecord (Json O)) (id : Option String)
      → decode_row (λ name. property_of name (persisted r)) id ≡ some (normalized r)
  unfolding decode_row
  decode_row-property_of r id =
      rw
        (
          text_back O r.subject_type,
          text_back O r.subject_id,
          text_back O r.key,
          text_back O r.index_a,
          text_back O r.index_b,
          text_back O r.index_c,
          text_back O r.index_d,
          text_back O r.index_e,
          text_back O r.index_f,
          text_back O r.index_g,
          text_back O r.index_h,
          names_back O r.index_names,
          or_next-none r.payload,
          or_next-none r.attributes,
          flag_back O r.readonly,
        )
        refl

  -- A record that encodes is decoded from its text as it was, whatever the id of the key, save that a
  -- `readonly` which is false comes back undefined.
  pub decode-encode_runtime_record_json :
      {T : Type 0} (json : UnknownJsonString O T) (r : RuntimeRecord (Json O)) (t : T)
      (id : Option String)
      → encode_runtime_record_json json r ≡ some t
      → decode_runtime_record_json json t id ≡ some (normalized r)
  unfolding encode_runtime_record_json decode_runtime_record_json
  decode-encode_runtime_record_json json r t id h = rw (json.decode-encode (persisted r) t h) (
      ap (λ get. decode_row get id) (fun_ext (λ name. property-defined name (persisted r)))
      ∙ decode_row-property_of r id)
