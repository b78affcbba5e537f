-- ===== src/Storage/Redis/Index.antt =====
-- The set of ids of src/storage/redis/service.ts holds the ids of the stored records.
use Prim.Native.String.{◌++◌ as join, count}
use text.Mathlib.TextLemmas.{append_cancel_left, length-append}
use effect_pm.Prelude.{
  any-append, ◌≡◌, refl, sym, ap, subst, ◌∙◌, true, false, Option, none, some, List, [], ◌∷◌,
  String, str_eq, str_eq_iff, arith, Bool-cases, inl, inr, if◌then◌else◌,
}
use effect_pm.Prelude.Dict.{Dict, get, set, del, or_value, get-set, get-set_if, get-del}
use effect_pm.Storage.Redis.Codec.{UnknownJsonString}
use effect_pm.Storage.Redis.Server.{
  RedisState, is_some, is_member, add_member, drop_member, smembers_command, srem_sets,
}
use effect_pm.Storage.Redis.Service.{ids_key, record_key, write_text, delete_record}

keys_differ : (namespace id : String) → str_eq (record_key namespace id) (ids_key namespace) ≡ false
keys_differ namespace id =
    elim (Bool-cases (str_eq (record_key namespace id) (ids_key namespace))) [
      | inl e ↦
          let same = (str_eq_iff (record_key namespace id) (ids_key namespace)).0 e in
          let tails =
            append_cancel_left namespace (join ":runtime:record:" id) ":runtime:ids" same in
          let longer = ap count tails in
          absurd (omega (arith, longer, length-append ":runtime:record:" id))
      | inr e ↦ e
    ]

pub str_eq-record_key :
    (namespace i j : String) → str_eq (record_key namespace i) (record_key namespace j) ≡ str_eq i j
str_eq-record_key namespace i j = elim (Bool-cases (str_eq i j)) [
  | inl e ↦ rw e (
      (str_eq_iff (record_key namespace i) (record_key namespace j)).1
        (ap (record_key namespace) ((str_eq_iff i j).0 e)))
  | inr e ↦ rw e (elim (Bool-cases (str_eq (record_key namespace i) (record_key namespace j))) [
    | inl d ↦
        let same = (str_eq_iff (record_key namespace i) (record_key namespace j)).0 d in
        let tails =
          append_cancel_left namespace (join ":runtime:record:" i) (join ":runtime:record:" j)
            same in
        let ids = append_cancel_left ":runtime:record:" i j tails in
        ground (arith, e, (str_eq_iff i j).1 ids)
    | inr d ↦ d
  ])
]

is_member-add_member :
    (j m : String) (ms : List String)
    → is_member j (add_member m ms) ≡ (if str_eq m j then true else is_member j ms)
is_member-add_member j m ms = elim (Bool-cases (is_member m ms)) [
  | inl e ↦ rw e (elim (Bool-cases (str_eq m j)) [
    | inl d ↦ rw d (subst (λ k. is_member k ms ≡ true) ((str_eq_iff m j).0 d) e)
    | inr d ↦ rw d refl
  ])
  | inr e ↦ rw e (any-append (λ x. str_eq x j) ms (m ∷ []) ∙ ground arith)
]

is_member-drop_member :
    (j m : String) (ms : List String)
    → is_member j (drop_member m ms) ≡ (if str_eq m j then false else is_member j ms)
is_member-drop_member j m [] = ground arith
is_member-drop_member j m (x ∷ ms) =
    ground (arith, str_eq_iff x m, str_eq_iff x j, str_eq_iff m j, is_member-drop_member j m ms)

module _ {T : Type 0} (namespace : String) where
  -- A record is stored exactly if its id is in the set.
  abbrev pub IsIndexed : RedisState T → Type 0
  IsIndexed state =
      (id : String)
      → is_member id (smembers_command (ids_key namespace) state)
        ≡ is_some (get (record_key namespace id) state.strings)

or_value-srem_sets :
    (key m : String) (sets : Dict (List String)) (o : Option (List String))
    → get key sets ≡ o
    → or_value [] (get key (srem_sets key m o sets)) ≡ drop_member m (or_value [] o)
or_value-srem_sets key m sets none e = ap (or_value []) e
or_value-srem_sets key m sets (some members) e =
    ap (or_value []) (get-set key (drop_member m members) sets)

ids-del :
    (namespace id : String) (sets : Dict (List String))
    → get (ids_key namespace) (del (record_key namespace id) sets) ≡ get (ids_key namespace) sets
ids-del namespace id sets =
    get-del (ids_key namespace) (record_key namespace id) sets ∙ rw (keys_differ namespace id) refl

module _ {T : Type 0} (namespace : String) where
  stored-set :
      (i j : String) (t : T) (strings : Dict T)
      → is_some (get (record_key namespace j) (set (record_key namespace i) t strings))
        ≡ (if str_eq i j then true else is_some (get (record_key namespace j) strings))
  stored-set i j t strings =
      ap is_some (get-set_if (record_key namespace j) (record_key namespace i) t strings)
      ∙ rw (str_eq-record_key namespace i j)
          (elim (Bool-cases (str_eq i j)) [ inl e ↦ rw e refl | inr e ↦ rw e refl ])

  stored-del :
      (i j : String) (strings : Dict T)
      → is_some (get (record_key namespace j) (del (record_key namespace i) strings))
        ≡ (if str_eq i j then false else is_some (get (record_key namespace j) strings))
  stored-del i j strings =
      ap is_some (get-del (record_key namespace j) (record_key namespace i) strings)
      ∙ rw (str_eq-record_key namespace i j)
          (elim (Bool-cases (str_eq i j)) [ inl e ↦ rw e refl | inr e ↦ rw e refl ])

module _ {O T : Type 0} (json : UnknownJsonString O T) (namespace : String) where
  pub write_text-IsIndexed :
      (id : String) (t : T) (state : RedisState T)
      → IsIndexed namespace state
      → IsIndexed namespace (write_text json namespace id t state)
  write_text-IsIndexed id t state h j =
      let members = smembers_command (ids_key namespace) state in
      ap (λ o. is_member j (or_value [] o))
        (get-set (ids_key namespace) (add_member id members) state.sets)
      ∙ is_member-add_member j id members
      ∙ ap (λ b. if str_eq id j then true else b) (h j)
      ∙ sym (stored-set namespace id j t state.strings)

  pub delete_record-IsIndexed :
      (id : String) (state : RedisState T)
      → IsIndexed namespace state
      → IsIndexed namespace (delete_record json namespace id state)
  unfolding delete_record
  delete_record-IsIndexed id state h j =
      let sets = del (record_key namespace id) state.sets in
      ap (is_member j)
        (or_value-srem_sets (ids_key namespace) id sets (get (ids_key namespace) sets) refl)
      ∙ ap (λ o. is_member j (drop_member id (or_value [] o))) (ids-del namespace id state.sets)
      ∙ is_member-drop_member j id (smembers_command (ids_key namespace) state)
      ∙ ap (λ b. if str_eq id j then false else b) (h j)
      ∙ sym (stored-del namespace id j state.strings)
