-- ===== src/Schedule/Reconcile.antt =====
-- `reconcile` of src/internal/processSchedule.ts: how it sorts the ids into what it reports.
use effect_pm.Prelude.{
  ℕ, ◌+◌, ◌≤◌, ◌≡◌, refl, Bool, true, false, not, ◌&&◌, ◌||◌, Option, none, some, List, [], ◌∷◌,
  ◌++◌, String, str_eq, str_eq_iff, if◌then◌else◌, any, tally, tally-append, Bool-cases,
  Option-cases, inl, inr, ◌⊎◌, arith, ltb,
}
use effect_pm.Schedule.{
  ProcessScheduleEntry, ReconcileResult, Schedule, has_id, map_set, map_get, put_entry, put_entries,
  entries_by_id, differs, classify, missing, sort_entries, reconcile, set_entries,
}

abbrev pub is_text : String → String → Bool
is_text k j = str_eq j k

abbrev pub has_key : String → String × ProcessScheduleEntry → Bool
has_key k p = str_eq p.0 k

abbrev pub one_if : Bool → ℕ
one_if b = if b then 1 else 0

-- The keys of a map are distinct.
abbrev IsMap : List (String × ProcessScheduleEntry) → Type 0
IsMap m = (k : String) → tally (has_key k) m ≤ 1

tally-map_set :
    (k j : String) (e : ProcessScheduleEntry) (m : List (String × ProcessScheduleEntry))
    → tally (has_key k) (map_set j e m) ≡ (
        if any (has_key j) m
        then tally (has_key k) m
        else one_if (str_eq j k) + tally (has_key k) m)
tally-map_set k j e [] = ground arith
tally-map_set k j e ((i, f) ∷ rest) =
    ground (arith, tally-map_set k j e rest, str_eq_iff i j, str_eq_iff j k, str_eq_iff i k)

any-map_set :
    (k j : String) (e : ProcessScheduleEntry) (m : List (String × ProcessScheduleEntry))
    → any (has_key k) (map_set j e m) ≡ (str_eq j k || any (has_key k) m)
any-map_set k j e [] = ground arith
any-map_set k j e ((i, f) ∷ rest) =
    ground (arith, any-map_set k j e rest, str_eq_iff i j, str_eq_iff j k, str_eq_iff i k)

any-tally :
    (k : String) (m : List (String × ProcessScheduleEntry))
    → any (has_key k) m ≡ ltb 0 (tally (has_key k) m)
any-tally k [] = refl
any-tally k (p ∷ m) = ground (arith, any-tally k m)

put_entry-IsMap :
    (e : ProcessScheduleEntry) (m : List (String × ProcessScheduleEntry))
    → IsMap m
    → IsMap (put_entry e m)
put_entry-IsMap e m h k = elim (Option-cases e.id) [
  | inl n ↦ ground (arith, h k)
  | inr (j, n) ↦ ground (arith, h k, tally-map_set k j e m, any-tally j m, str_eq_iff j k)
]

put_entries-IsMap :
    (es : List ProcessScheduleEntry) (m : List (String × ProcessScheduleEntry))
    → IsMap m
    → IsMap (put_entries es m)
put_entries-IsMap [] m h = h
put_entries-IsMap (e ∷ es) m h = put_entries-IsMap es (put_entry e m) (put_entry-IsMap e m h)

any-put_entry :
    (k : String) (e : ProcessScheduleEntry) (m : List (String × ProcessScheduleEntry))
    → any (has_key k) (put_entry e m) ≡ (has_id k e || any (has_key k) m)
any-put_entry k e m = elim (Option-cases e.id) [
  | inl n ↦ ground (arith, n)
  | inr (j, n) ↦ ground (arith, n, any-map_set k j e m)
]

any-put_entries :
    (k : String) (es : List ProcessScheduleEntry) (m : List (String × ProcessScheduleEntry))
    → any (has_key k) (put_entries es m) ≡ (any (has_id k) es || any (has_key k) m)
any-put_entries k [] m = refl
any-put_entries k (e ∷ es) m =
    ground (arith, any-put_entries k es (put_entry e m), any-put_entry k e m)

is_given : Option ProcessScheduleEntry → Bool
is_given none = false
is_given (some e) = true

map_get_lem :
    (k : String) (m : List (String × ProcessScheduleEntry))
    → ((any (has_key k) m ≡ false) × (map_get k m ≡ none))
      ⊎ ((e : ProcessScheduleEntry) × (any (has_key k) m ≡ true) × (map_get k m ≡ some e))
map_get_lem k [] = inl (refl, refl)
map_get_lem k ((j, f) ∷ rest) = elim (Bool-cases (str_eq j k)) [
  | inl e ↦ inr (f, ground arith, ground arith)
  | inr e ↦ elim (map_get_lem k rest) [
    | inl (absent, got) ↦ inl (ground arith, ground arith)
    | inr (g, present, got) ↦ inr (g, ground arith, ground arith)
  ]
]

-- How often an id is reported, by what becomes of it.
classify_lem :
    (k : String) (current next : List (String × ProcessScheduleEntry)) (r : ReconcileResult)
    → (tally (is_text k) (classify current next r).added
        ≡ tally (is_text k) r.added
          + (if any (has_key k) current then 0 else tally (has_key k) next))
      × (tally (is_text k) (classify current next r).updated
            + tally (is_text k) (classify current next r).unchanged
          ≡ tally (is_text k) r.updated
            + tally (is_text k) r.unchanged
            + (if any (has_key k) current then tally (has_key k) next else 0))
classify_lem k current [] r = ground arith
classify_lem k current ((id, entry) ∷ rest) r = elim (map_get_lem id current) [
  | inl (absent, got) ↦ ground (
    arith,
    got,
    str_eq_iff id k,
    classify_lem k current rest (record r { added = r.added ++ id ∷ [] }),
    tally-append (is_text k) r.added (id ∷ []),
  )
  | inr (existing, present, got) ↦ elim (Bool-cases (differs existing entry)) [
    | inl d ↦ ground (
      arith,
      got,
      d,
      present,
      str_eq_iff id k,
      classify_lem k current rest (record r { updated = r.updated ++ id ∷ [] }),
      tally-append (is_text k) r.updated (id ∷ []),
    )
    | inr d ↦ ground (
      arith,
      got,
      d,
      present,
      str_eq_iff id k,
      classify_lem k current rest (record r { unchanged = r.unchanged ++ id ∷ [] }),
      tally-append (is_text k) r.unchanged (id ∷ []),
    )
  ]
]

missing_lem :
    (k : String) (next current : List (String × ProcessScheduleEntry))
    → tally (is_text k) (missing next current)
      ≡ (if any (has_key k) next then 0 else tally (has_key k) current)
missing_lem k next [] = ground arith
missing_lem k next ((id, entry) ∷ rest) = elim (map_get_lem id next) [
  | inl (absent, got) ↦ ground (arith, got, absent, str_eq_iff id k, missing_lem k next rest)
  | inr (e, present, got) ↦ ground (arith, got, present, str_eq_iff id k, missing_lem k next rest)
]

-- How often an id is in the map of a list of entries.
by_id_lem :
    (k : String) (es : List ProcessScheduleEntry)
    → (any (has_key k) (entries_by_id es) ≡ any (has_id k) es)
      × (tally (has_key k) (entries_by_id es) ≡ one_if (any (has_id k) es))
by_id_lem k es = ground (
  arith,
  any-put_entries k es [],
  any-tally k (entries_by_id es),
  put_entries-IsMap es [] (λ j. omega arith) k,
)

-- Reconciling reports each id once, and as what becomes of it: added if only the new entries have
-- it, removed if only the old ones do, updated or unchanged if both do; the schedule then has
-- exactly the new entries, sorted.
pub reconcile_lem :
    (next : List ProcessScheduleEntry) (s : Schedule) (k : String)
    → (tally (is_text k) (reconcile next s).0.added
        ≡ one_if (any (has_id k) next && not (any (has_id k) s.entries)))
      × (tally (is_text k) (reconcile next s).0.updated
            + tally (is_text k) (reconcile next s).0.unchanged
          ≡ one_if (any (has_id k) next && any (has_id k) s.entries))
      × (tally (is_text k) (reconcile next s).0.removed
          ≡ one_if (not (any (has_id k) next) && any (has_id k) s.entries))
      × ((reconcile next s).1.entries ≡ sort_entries next)
unfolding reconcile set_entries
reconcile_lem next s k =
    let old = entries_by_id s.entries in
    let new = entries_by_id next in
    let sorted =
      classify_lem k old new (record { added = []; updated = []; removed = []; unchanged = [] }) in
    let gone = missing_lem k new old in
    let was = by_id_lem k s.entries in
    let is = by_id_lem k next in
    (
      ground (arith, sorted.0, was, is),
      ground (arith, sorted.1, was, is),
      ground (arith, gone, was, is),
      refl,
    )
