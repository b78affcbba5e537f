-- ===== src/Schedule.antt =====
-- src/internal/processSchedule.ts: the entries of a process schedule and their in-memory service.
-- Times are milliseconds since the epoch.
pub mod Order
pub mod Reconcile
use effect_pm.Prelude.{
  ℕ, ◌+◌, ◌-◌, Bool, true, false, not, ◌&&◌, ◌||◌, Option, none, some, List, [], ◌∷◌, ◌++◌, String,
  str_eq, ltb, leb, ◌==◌, if◌then◌else◌, filter, any, find, length, sort,
}

pub record ProcessScheduleEntry : Type 0 where
  pub id : Option String
  pub start_at : ℕ
  pub stop_at : Option ℕ

pub record ReconcileResult : Type 0 where
  pub added : List String
  pub updated : List String
  pub removed : List String
  pub unchanged : List String

-- An entry that never stops stands after every entry with the same start that does.
abbrev pub stop_le : Option ℕ → Option ℕ → Bool
stop_le none none = true
stop_le none (some b) = false
stop_le (some a) none = true
stop_le (some a) (some b) = leb a b

-- The comparator of `sortEntries` is not positive.
abbrev pub entry_le : ProcessScheduleEntry → ProcessScheduleEntry → Bool
entry_le a b =
    ltb a.start_at b.start_at || (a.start_at == b.start_at) && stop_le a.stop_at b.stop_at

-- JavaScript's sort is stable, as the sort here is.
abbrev pub sort_entries : List ProcessScheduleEntry → List ProcessScheduleEntry
sort_entries entries = sort entry_le entries

-- `getEntryId(e) === id`.
abbrev pub has_id : String → ProcessScheduleEntry → Bool
has_id k e = elim e.id [ none ↦ false | some j ↦ str_eq j k ]

-- A `Map` in its insertion order; setting a present key keeps its place.
abbrev pub map_set :
    String
    → ProcessScheduleEntry
    → List (String × ProcessScheduleEntry)
    → List (String × ProcessScheduleEntry)
map_set k e [] = (k, e) ∷ []
map_set k e ((j, f) ∷ rest) =
    let others = map_set k e rest in if str_eq j k then (j, e) ∷ rest else (j, f) ∷ others

abbrev pub map_get : String → List (String × ProcessScheduleEntry) → Option ProcessScheduleEntry
map_get k [] = none
map_get k ((j, f) ∷ rest) = if str_eq j k then some f else map_get k rest

abbrev pub put_entry :
    ProcessScheduleEntry
    → List (String × ProcessScheduleEntry)
    → List (String × ProcessScheduleEntry)
put_entry e m = elim e.id [ none ↦ m | some k ↦ map_set k e m ]

abbrev pub put_entries :
    List ProcessScheduleEntry
    → List (String × ProcessScheduleEntry)
    → List (String × ProcessScheduleEntry)
put_entries [] m = m
put_entries (e ∷ es) m = put_entries es (put_entry e m)

abbrev pub entries_by_id : List ProcessScheduleEntry → List (String × ProcessScheduleEntry)
entries_by_id es = put_entries es []

-- `changes` counts the completed change signals.
pub record Schedule : Type 0 where
  pub entries : List ProcessScheduleEntry
  pub changes : ℕ

pub record Mutation (A : Type 0) : Type 0 where
  pub entries : List ProcessScheduleEntry
  pub changed : Bool
  pub value : A

abbrev pub build_in_memory_service : List ProcessScheduleEntry → Schedule
build_in_memory_service initial = record { entries = sort_entries initial; changes = 0 }

unfoldable pub set_entries : List ProcessScheduleEntry → Schedule → Schedule
set_entries next s = record { entries = sort_entries next; changes = s.changes + 1 }

unfoldable pub mutate_entries :
    {A : Type 0} → (List ProcessScheduleEntry → Mutation A) → Schedule → A × Schedule
unfolding set_entries
mutate_entries mutation s =
    let result = mutation s.entries in
    if result.changed then (result.value, set_entries result.entries s) else (result.value, s)

unfoldable pub get : String → Schedule → Option ProcessScheduleEntry
get id s = find (has_id id) s.entries

unfoldable pub has : String → Schedule → Bool
has id s = any (has_id id) s.entries

abbrev pub append_entry : ProcessScheduleEntry → List ProcessScheduleEntry → Mutation (Unit {0})
append_entry entry current = record { entries = current ++ entry ∷ []; changed = true; value = tt }

unfoldable pub add : ProcessScheduleEntry → Schedule → Unit {0} × Schedule
unfolding mutate_entries
add entry s = mutate_entries (append_entry entry) s

abbrev pub without_id : String → List ProcessScheduleEntry → List ProcessScheduleEntry
without_id id = filter (λ e. not (has_id id e))

abbrev pub upsert_entry : ProcessScheduleEntry → List ProcessScheduleEntry → Mutation (Unit {0})
upsert_entry entry current = elim entry.id [
  | none ↦ append_entry entry current
  | some id ↦ append_entry entry (without_id id current)
]

unfoldable pub upsert : ProcessScheduleEntry → Schedule → Unit {0} × Schedule
unfolding mutate_entries
upsert entry s = mutate_entries (upsert_entry entry) s

abbrev pub remove_entry : String → List ProcessScheduleEntry → Mutation Bool
remove_entry id current =
    let filtered = without_id id current in
    let removed = not (length filtered == length current) in
    record { entries = filtered; changed = removed; value = removed }

unfoldable pub remove : String → Schedule → Bool × Schedule
unfolding mutate_entries
remove id s = mutate_entries (remove_entry id) s

abbrev pub is_among : List String → ProcessScheduleEntry → Bool
is_among ids e = elim e.id [ none ↦ false | some j ↦ any (str_eq j) ids ]

abbrev pub remove_entries : List String → List ProcessScheduleEntry → Mutation ℕ
remove_entries ids current =
    let filtered = filter (λ e. not (is_among ids e)) current in
    let removed = length current - length filtered in
    record { entries = filtered; changed = ltb 0 removed; value = removed }

unfoldable pub remove_many : List String → Schedule → ℕ × Schedule
unfolding mutate_entries
remove_many ids s = mutate_entries (remove_entries ids) s

unfoldable pub clear : Schedule → Schedule
unfolding set_entries
clear s = set_entries [] s

abbrev pub same_stop : Option ℕ → Option ℕ → Bool
same_stop none none = true
same_stop none (some b) = false
same_stop (some a) none = false
same_stop (some a) (some b) = a == b

abbrev pub differs : ProcessScheduleEntry → ProcessScheduleEntry → Bool
differs a b = not (a.start_at == b.start_at) || not (same_stop a.stop_at b.stop_at)

-- The loop over the new entries.
abbrev pub classify :
    List (String × ProcessScheduleEntry)
    → List (String × ProcessScheduleEntry)
    → ReconcileResult
    → ReconcileResult
classify current [] r = r
classify current ((id, entry) ∷ rest) r = elim (map_get id current) [
  | none ↦ classify current rest (record r { added = r.added ++ id ∷ [] })
  | some existing ↦
      let changed = classify current rest (record r { updated = r.updated ++ id ∷ [] }) in
      let kept = classify current rest (record r { unchanged = r.unchanged ++ id ∷ [] }) in
      if differs existing entry then changed else kept
]

-- The loop over the keys of the old ones.
abbrev pub missing :
    List (String × ProcessScheduleEntry) → List (String × ProcessScheduleEntry) → List String
missing next [] = []
missing next ((id, entry) ∷ rest) = elim (map_get id next) [
  | none ↦ id ∷ missing next rest
  | some e ↦ missing next rest
]

unfoldable pub reconcile : List ProcessScheduleEntry → Schedule → ReconcileResult × Schedule
unfolding set_entries
reconcile next s =
    let current_by_id = entries_by_id s.entries in
    let next_by_id = entries_by_id next in
    let r =
      classify current_by_id next_by_id
        (record { added = []; updated = []; removed = []; unchanged = [] }) in
    (record r { removed = missing next_by_id current_by_id }, set_entries next s)
