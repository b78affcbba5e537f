-- ===== src/Storage/Sqlite/Codec/RoundTrip.antt =====
-- Decoding what src/storage/sqlite/codec.ts has encoded.
use effect_pm.Prelude.{
  ◌≡◌, refl, Bool, true, false, Option, none, some, String, arith, Option-cases, inl, inr,
}
use effect_pm.Storage.Record.{RuntimeRecord}
use effect_pm.Storage.Sqlite.Codec.{
  JsonText, SqlRow, row_of, encode_column, parse_column_strict, readonly_flag, readonly_int_of,
  encode_record, decode_row, ◌>>=◌,
}

parse-encode_column :
    {A : Type 0} (encode : A → Option String) (decode : String → Option A)
    → ((a : A) (t : String) → encode a ≡ some t → decode t ≡ some a)
    → (o : Option A) (c : Option String) → encode_column encode o ≡ some c
    → parse_column_strict decode c ≡ some o
parse-encode_column encode decode law none c h = ground arith
parse-encode_column encode decode law (some a) c h = elim (Option-cases (encode a)) [
  | inl e ↦ ground (arith, e, h)
  | inr (t, e) ↦ ground (arith, e, h, law a t)
]

readonly-roundtrip : (o : Option Bool) → readonly_flag (readonly_int_of o) ≡ o
readonly-roundtrip none = refl
readonly-roundtrip (some true) = refl
readonly-roundtrip (some false) = refl

>>=-eq-some :
    {A B : Type 0} (o : Option A) (f : A → Option B) (b : B)
    → (o >>= f) ≡ some b
    → (a : A) × (o ≡ some a) × (f a ≡ some b)
>>=-eq-some none f b h = cc
>>=-eq-some (some a) f b h = (a, refl, h)

module _ {J : Type 0} (json : JsonText J) where
  -- The JSON columns of an encoded record, and the row that they make.
  pub encode_record-parts :
      (r : RuntimeRecord J) (row : SqlRow)
      → encode_record json r ≡ some row
      → (names payload attributes : Option String) × (encode_column json.encode_names r.index_names
          ≡ some names)
        × (encode_column json.encode r.payload ≡ some payload)
        × (encode_column json.encode r.attributes ≡ some attributes)
        × (row ≡ row_of r names payload attributes)
  unfolding encode_record
  encode_record-parts r row h =
      let (names, n, h1) = >>=-eq-some (encode_column json.encode_names r.index_names) _ row h in
      let (payload, p, h2) = >>=-eq-some (encode_column json.encode r.payload) _ row h1 in
      let (attributes, a, h3) = >>=-eq-some (encode_column json.encode r.attributes) _ row h2 in
      (names, payload, attributes, n, p, a, cc)

  -- A record that encodes is decoded from its row as it was.
  pub decode-encode_record :
      (r : RuntimeRecord J) (row : SqlRow)
      → encode_record json r ≡ some row
      → decode_row json row ≡ some r
  unfolding decode_row
  decode-encode_record r row h =
      let (names, payload, attributes, n, p, a, e) = encode_record-parts r row h in
      rw e (
        rw (
          parse-encode_column json.encode_names json.decode_names json.decode_names-encode
              r.index_names names n,
          parse-encode_column json.encode json.decode json.decode-encode r.payload payload p,
          parse-encode_column json.encode json.decode json.decode-encode r.attributes attributes a,
          readonly-roundtrip r.readonly,
        ))
