-- ===== src/Storage/Redis/Load.antt =====
-- `loadAllRecords` of src/storage/redis/service.ts knows every stored id, and what a transaction leaves
-- on a server that only the adapter writes to.
use effect_pm.Prelude.{
  ◌≡◌, refl, sym, ap, subst, ◌∙◌, true, false, none, some, List, [], ◌∷◌, String, str_eq,
  str_eq_iff, arith, Bool-cases, Option-cases, inl, inr,
}
use effect_pm.Storage.Record.{RuntimeRecord}
use effect_pm.Storage.Select.{Collation}
use effect_pm.Storage.Memory.{done, is_found, set_row}
use effect_pm.Storage.Memory
use effect_pm.Storage.Memory.Rows.{IsKeyed, get-set_row}
use effect_pm.Storage.Redis.Codec.{
  Json, UnknownJsonString, encode_runtime_record_json, decode_runtime_record_json,
}
use effect_pm.Storage.Redis.Codec.RoundTrip.{normalized, decode-encode_runtime_record_json}
use effect_pm.Storage.Redis.Server.{RedisState, is_member, is_some, smembers_command}
use effect_pm.Storage.Redis.Service.{
  ids_key, load_ids, load_all_records, write_text, delete_record, commit_records,
}
use effect_pm.Storage.Redis.Index.{IsIndexed}
use effect_pm.Storage.Redis.Reachable.{Reachable, Reachable_keeps, Reachable-IsIndexed}
use effect_pm.Storage.Redis.Commit.{
  stored, stored-write_text, stored-delete_record, text_of, commit_records_lem,
}

module _ {O T : Type 0} (json : UnknownJsonString O T) (ns : String) where
  -- The text of an id is that of a record with this id.
  IsNamed : RedisState T → Type 0
  IsNamed s =
      (id : String) (t : T) (r : RuntimeRecord (Json O))
      → stored json ns id s ≡ some t
      → decode_runtime_record_json json t (some id) ≡ some r
      → r.id ≡ id

  write_text-IsNamed :
      (r : RuntimeRecord (Json O)) (t : T) (s : RedisState T)
      → encode_runtime_record_json json r ≡ some t
      → IsNamed s
      → IsNamed (write_text json ns r.id t s)
  unfolding IsNamed
  write_text-IsNamed r t s e n id u q h d = elim (Bool-cases (str_eq r.id id)) [
    | inl same ↦
        let written : some t ≡ some u =
          sym (stored-write_text json ns r.id id t s ∙ rw same refl) ∙ h in
        let back = decode-encode_runtime_record_json json r t (some id) e in
        let texts : t ≡ u = cc in
        let decoded : some (normalized r) ≡ some q =
          sym back ∙ ap (λ x. decode_runtime_record_json json x (some id)) texts ∙ d in
        let records : normalized r ≡ q = cc in
        let named : r.id ≡ q.id = ap (λ x. x.id) records in sym named ∙ (str_eq_iff r.id id).0 same
    | inr differ ↦ n id u q (sym (stored-write_text json ns r.id id t s ∙ rw differ refl) ∙ h) d
  ]

  delete_record-IsNamed :
      (i : String) (s : RedisState T) → IsNamed s → IsNamed (delete_record json ns i s)
  unfolding IsNamed
  delete_record-IsNamed i s n id u q h d = elim (Bool-cases (str_eq i id)) [
    | inl same ↦
        let gone : none ≡ some u = sym (stored-delete_record json ns i id s ∙ rw same refl) ∙ h in
        cc
    | inr differ ↦ n id u q (sym (stored-delete_record json ns i id s ∙ rw differ refl) ∙ h) d
  ]

  found-set_row :
      (r : RuntimeRecord (Json O)) (j : String) (acc : List (RuntimeRecord (Json O)))
      → is_found (Memory.get j acc) ≡ true
      → is_found (Memory.get j (set_row r acc)) ≡ true
  found-set_row r j acc h =
      ap is_found (get-set_row r j acc)
      ∙ elim (Bool-cases (str_eq r.id j)) [ inl e ↦ rw e refl | inr e ↦ rw e h ]

  module _ (s : RedisState T) (j : String) (recs : List (RuntimeRecord (Json O))) where
    load_ids-found :
        (ids : List String) (acc : List (RuntimeRecord (Json O)))
        → is_found (Memory.get j acc) ≡ true
        → load_ids json ns s ids acc ≡ some recs
        → is_found (Memory.get j recs) ≡ true
    load_ids-found [] acc f = λ h.
        let same : acc ≡ recs = cc in subst (λ rows. is_found (Memory.get j rows) ≡ true) same f
    load_ids-found (id ∷ ids) acc f = elim (Option-cases (stored json ns id s)) [
      | inl e ↦ rw (e, load_ids) (load_ids-found ids acc f)
      | inr (t, e) ↦
          rw (e, load_ids)
            (elim (Option-cases (decode_runtime_record_json json t (some id))) [
              | inl d ↦ rw (d, load_ids) (λ h. cc)
              | inr (r, d) ↦
                  rw (d, load_ids) (load_ids-found ids (set_row r acc) (found-set_row r j acc f))
            ])
    ]

    load_ids-member :
        (t : T) (ids : List String) (acc : List (RuntimeRecord (Json O)))
        → IsNamed s
        → stored json ns j s ≡ some t
        → is_member j ids ≡ true
        → load_ids json ns s ids acc ≡ some recs
        → is_found (Memory.get j recs) ≡ true
    unfolding IsNamed
    load_ids-member t [] acc n kept m = λ h. absurd (ground (arith, m))
    load_ids-member t (id ∷ ids) acc n kept m = elim (Option-cases (stored json ns id s)) [
      | inl e ↦
          rw (e, load_ids)
            (elim (Bool-cases (str_eq id j)) [
              | inl same ↦
                  let gone : stored json ns j s ≡ none =
                    ap (λ k. stored json ns k s) (sym ((str_eq_iff id j).0 same)) ∙ e in
                  let clash : some t ≡ none = sym kept ∙ gone in λ h. cc
              | inr differ ↦ load_ids-member t ids acc n kept (ground (arith, m, differ))
            ])
      | inr (u, e) ↦
          rw (e, load_ids)
            (elim (Option-cases (decode_runtime_record_json json u (some id))) [
              | inl d ↦ rw (d, load_ids) (λ h. cc)
              | inr (r, d) ↦
                  rw (d, load_ids)
                    (elim (Bool-cases (str_eq id j)) [
                      | inl same ↦
                          let named : r.id ≡ j = n id u r e d ∙ (str_eq_iff id j).0 same in
                          load_ids-found ids (set_row r acc) (
                            ap is_found (get-set_row r j acc)
                            ∙ rw ((str_eq_iff r.id j).1 named) refl)
                      | inr differ ↦
                          load_ids-member t ids (set_row r acc) n kept (ground (arith, m, differ))
                    ])
            ])
    ]

  -- What a load knows.
  load_all_records-covers :
      (s : RedisState T) (recs : List (RuntimeRecord (Json O)))
      → IsNamed s
      → IsIndexed ns s
      → load_all_records json ns s ≡ some recs
      → (j : String) → Memory.get j recs ≡ none
      → stored json ns j s ≡ none
  unfolding load_all_records
  load_all_records-covers s recs n x h j absent = elim (Option-cases (stored json ns j s)) [
    | inl e ↦ e
    | inr (t, e) ↦
        let member : is_member j (smembers_command (ids_key ns) s) ≡ true = x j ∙ ap is_some e in
        let found = load_ids-member s j recs t (smembers_command (ids_key ns) s) [] n e member h in
        let clash : false ≡ true = sym (ap is_found absent) ∙ found in cc
  ]

  -- On a server that only the adapter writes to, a commit that succeeds after a load leaves for every
  -- id the text of the transaction's record, and no text for an id that the transaction does not have,
  -- if no id stands twice in the transaction.
  pub commit-load_all_records :
      (collate : Collation) (s : RedisState T) (before tx : List (RuntimeRecord (Json O)))
      → Reachable json ns collate s
      → load_all_records json ns s ≡ some before
      → IsKeyed tx
      → (commit_records json ns before tx s).0 ≡ done tt
      → (id : String)
      → stored json ns id (commit_records json ns before tx s).1
        ≡ text_of json ns (Memory.get id tx) none
  unfolding IsNamed
  commit-load_all_records collate s before tx reached loaded keyed ok id =
      let named : IsNamed s =
        Reachable_keeps json ns collate IsNamed write_text-IsNamed delete_record-IsNamed
          (λ i t r h d. cc) s reached in
      commit_records_lem json ns before tx s
        (load_all_records-covers s before named (Reachable-IsIndexed json ns collate s reached)
          loaded)
        keyed ok id
