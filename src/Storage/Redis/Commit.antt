-- ===== src/Storage/Redis/Commit.antt =====
-- What `commitRecords` of src/storage/redis/service.ts leaves on the server.
use effect_pm.Prelude.{
  ◌≡◌, refl, sym, ap, ◌∙◌, Bool, true, false, not, ◌&&◌, Option, none, some, List, [], ◌∷◌, String,
  str_eq, str_eq_iff, arith, Bool-cases, Option-cases, inl, inr, if◌then◌else◌,
}
use effect_pm.Prelude.Dict.{get, get-set_if, get-del}
use effect_pm.Storage.Record.{RuntimeRecord}
use effect_pm.Storage.Memory.{Outcome, done, failed, StorageError, encode_failed, is_found, has_id}
use effect_pm.Storage.Memory
use effect_pm.Storage.Memory.Rows.{IsKeyed, get_absent}
use effect_pm.Storage.Redis.Codec.{Json, UnknownJsonString, encode_runtime_record_json}
use effect_pm.Storage.Redis.Server.{RedisState}
use effect_pm.Storage.Redis.Service.{
  record_key, write_text, delete_record, remove_missing, write_all, commit_records,
}
use effect_pm.Storage.Redis.Index.{str_eq-record_key}

kept_present :
    {A : Type 0} (b c : Bool) (o : Option A) → c ≡ true → (if b && not c then none else o) ≡ o
kept_present b c o e = rw e (elim (Bool-cases b) [ inl d ↦ rw d refl | inr d ↦ rw d refl ])

none_anyway : {A : Type 0} (b : Bool) (o : Option A) → o ≡ none → (if b then none else o) ≡ none
none_anyway true o e = refl
none_anyway false o e = e

module _ {O T : Type 0} (json : UnknownJsonString O T) (ns : String) where
  -- The text of an id.
  abbrev pub stored : String → RedisState T → Option T
  stored id s = get (record_key ns id) s.strings

  pub stored-write_text :
      (i j : String) (t : T) (s : RedisState T)
      → stored j (write_text json ns i t s) ≡ (if str_eq i j then some t else stored j s)
  stored-write_text i j t s =
      get-set_if (record_key ns j) (record_key ns i) t s.strings
      ∙ ap (λ b. if b then some t else stored j s) (str_eq-record_key ns i j)

  pub stored-delete_record :
      (i j : String) (s : RedisState T)
      → stored j (delete_record json ns i s) ≡ (if str_eq i j then none else stored j s)
  unfolding delete_record
  stored-delete_record i j s =
      get-del (record_key ns j) (record_key ns i) s.strings
      ∙ ap (λ b. if b then none else stored j s) (str_eq-record_key ns i j)

  -- The text that the records of a transaction have for an id.
  abbrev pub text_of : Option (RuntimeRecord (Json O)) → Option T → Option T
  text_of none old = old
  text_of (some r) old = encode_runtime_record_json json r

  stored-remove_missing :
      (before tx : List (RuntimeRecord (Json O))) (id : String) (s : RedisState T)
      → stored id (remove_missing json ns before tx s) ≡ (
          if is_found (Memory.get id before) && not (is_found (Memory.get id tx))
          then none
          else stored id s)
  unfolding remove_missing
  stored-remove_missing [] tx id s = refl
  stored-remove_missing (r ∷ before) tx id s = elim (Bool-cases (str_eq r.id id)) [
    | inl same ↦
        let other : is_found (Memory.get r.id tx) ≡ is_found (Memory.get id tx) =
          ap (λ k. is_found (Memory.get k tx)) ((str_eq_iff r.id id).0 same) in
        rw (same, other)
          (elim (Bool-cases (is_found (Memory.get id tx))) [
            | inl e ↦ rw e (
                stored-remove_missing before tx id s
                ∙ kept_present (is_found (Memory.get id before)) (is_found (Memory.get id tx))
                    (stored id s) e)
            | inr e ↦ rw e (
                stored-remove_missing before tx id (delete_record json ns r.id s)
                ∙ none_anyway (is_found (Memory.get id before) && not (is_found (Memory.get id tx)))
                    _ (stored-delete_record r.id id s ∙ rw same refl))
          ])
    | inr differ ↦ rw differ (elim (Bool-cases (is_found (Memory.get r.id tx))) [
      | inl e ↦ rw e (stored-remove_missing before tx id s)
      | inr e ↦ rw e (
          stored-remove_missing before tx id (delete_record json ns r.id s)
          ∙ ap
              (λ o.
                if is_found (Memory.get id before) && not (is_found (Memory.get id tx))
                then none
                else o)
              (stored-delete_record r.id id s ∙ rw differ refl))
    ])
  ]

  stored-write_all :
      (tx : List (RuntimeRecord (Json O))) (id : String) (s : RedisState T)
      → IsKeyed tx
      → (write_all json ns tx s).0 ≡ done tt
      → stored id (write_all json ns tx s).1 ≡ text_of (Memory.get id tx) (stored id s)
  unfolding write_all
  stored-write_all [] id s k = λ h. refl
  stored-write_all (r ∷ tx) id s k = elim (Option-cases (encode_runtime_record_json json r)) [
    | inl e ↦ rw (e, write_all) (λ h. cc)
    | inr (t, e) ↦
        rw (e, write_all)
          (λ h.
            let written = write_text json ns r.id t s in
            let rest = stored-write_all tx id written (λ j. ground (arith, k j)) h in
            elim (Bool-cases (str_eq r.id id)) [
              | inl same ↦
                  let absent : Memory.get id tx ≡ none =
                    get_absent id tx (ground (arith, same, k id)) in
                  rw same (
                    rest
                    ∙ ap (λ o. text_of o (stored id written)) absent
                    ∙ stored-write_text r.id id t s
                    ∙ rw same (sym e))
              | inr differ ↦ rw differ (
                  rest
                  ∙ ap (text_of (Memory.get id tx))
                      (stored-write_text r.id id t s ∙ rw differ refl))
            ])
  ]

  -- A commit that succeeds leaves for every id the text of the transaction's record, and no text for
  -- an id that the transaction does not have, where `before` knows every stored id and no id stands
  -- twice in the transaction.
  pub commit_records_lem :
      (before tx : List (RuntimeRecord (Json O))) (s : RedisState T)
      → ((j : String) → Memory.get j before ≡ none → stored j s ≡ none)
      → IsKeyed tx
      → (commit_records json ns before tx s).0 ≡ done tt
      → (id : String)
      → stored id (commit_records json ns before tx s).1 ≡ text_of (Memory.get id tx) none
  unfolding commit_records
  commit_records_lem before tx s covers k h id =
      stored-write_all tx id (remove_missing json ns before tx s) k h
      ∙ elim (Option-cases (Memory.get id tx)) [
        | inl e ↦
            ap (λ o. text_of o (stored id (remove_missing json ns before tx s))) e
            ∙ stored-remove_missing before tx id s
            ∙ rw e (elim (Option-cases (Memory.get id before)) [
              | inl d ↦ rw d (covers id d)
              | inr (r, d) ↦ rw d refl
            ])
        | inr (r, e) ↦ rw e refl
      ]
