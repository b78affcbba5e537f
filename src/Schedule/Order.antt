-- ===== src/Schedule/Order.antt =====
-- The schedule service of src/internal/processSchedule.ts keeps its entries sorted, and its
-- operations by id.
use effect_pm.Prelude.{
  ℕ, ◌+◌, ◌≡◌, refl, Bool, true, false, not, Option, none, some, List, [], ◌∷◌, ◌++◌, String,
  str_eq_iff, ltb, if◌then◌else◌, filter, any, length, length-filter-le, tally, tally-append,
  tally-sort, tally-true, IsSorted, IsOrder, sort-IsSorted, Bool-cases, inl, inr, arith,
}
use effect_pm.Schedule.{
  ProcessScheduleEntry, Schedule, Mutation, entry_le, sort_entries, has_id, build_in_memory_service,
  set_entries, mutate_entries, has, add, upsert, remove, remove_many, clear, reconcile, without_id,
  append_entry, upsert_entry, remove_entry, remove_entries, is_among, stop_le,
}

stop_le_total : (a b : Option ℕ) → stop_le a b ≡ false → stop_le b a ≡ true
stop_le_total none none h = ground arith
stop_le_total none (some b) h = refl
stop_le_total (some a) none h = ground arith
stop_le_total (some a) (some b) h = ground arith

stop_le_trans : (a b c : Option ℕ) → stop_le a b ≡ true → stop_le b c ≡ true → stop_le a c ≡ true
stop_le_trans none none c h k = k
stop_le_trans none (some b) c h k = ground arith
stop_le_trans (some a) b none h k = refl
stop_le_trans (some a) none (some c) h k = ground arith
stop_le_trans (some a) (some b) (some c) h k = ground arith

entry_le-IsOrder : IsOrder entry_le
entry_le-IsOrder = record {
  total = λ x y h. ground (arith, stop_le_total x.stop_at y.stop_at);
  trans = λ x y z h k. ground (arith, stop_le_trans x.stop_at y.stop_at z.stop_at);
}

-- The schedules that the service reaches from its first entries.
pub data Reachable : Schedule → Type 0 where
  built : (initial : List ProcessScheduleEntry) → Reachable (build_in_memory_service initial)
  set :
      (next : List ProcessScheduleEntry) (s : Schedule)
      → Reachable s
      → Reachable (set_entries next s)
  added : (e : ProcessScheduleEntry) (s : Schedule) → Reachable s → Reachable (add e s).1
  upserted : (e : ProcessScheduleEntry) (s : Schedule) → Reachable s → Reachable (upsert e s).1
  removed : (id : String) (s : Schedule) → Reachable s → Reachable (remove id s).1
  many_removed : (ids : List String) (s : Schedule) → Reachable s → Reachable (remove_many ids s).1
  cleared : (s : Schedule) → Reachable s → Reachable (clear s)
  reconciled :
      (next : List ProcessScheduleEntry) (s : Schedule)
      → Reachable s
      → Reachable (reconcile next s).1

set_entries-IsSorted :
    (next : List ProcessScheduleEntry) (s : Schedule)
    → IsSorted entry_le (set_entries next s).entries
unfolding set_entries
set_entries-IsSorted next s = sort-IsSorted entry_le entry_le-IsOrder next

mutate_entries-IsSorted :
    {A : Type 0} (mutation : List ProcessScheduleEntry → Mutation A) (s : Schedule)
    → IsSorted entry_le s.entries
    → IsSorted entry_le (mutate_entries mutation s).1.entries
unfolding mutate_entries
mutate_entries-IsSorted mutation s sorted = elim (Bool-cases (mutation s.entries).changed) [
  | inl e ↦ rw (mutate_entries, e) (set_entries-IsSorted (mutation s.entries).entries s)
  | inr e ↦ rw (mutate_entries, e) sorted
]

-- Whatever operations a schedule has gone through, its entries stand in order of their starts, and
-- of their stops where they start together.
pub Reachable-IsSorted : (s : Schedule) → Reachable s → IsSorted entry_le s.entries
unfolding add upsert remove remove_many clear reconcile
Reachable-IsSorted _ (built initial) = sort-IsSorted entry_le entry_le-IsOrder initial
Reachable-IsSorted _ (set next s r) = set_entries-IsSorted next s
Reachable-IsSorted _ (added e s r) =
    mutate_entries-IsSorted (append_entry e) s (Reachable-IsSorted s r)
Reachable-IsSorted _ (upserted e s r) =
    mutate_entries-IsSorted (upsert_entry e) s (Reachable-IsSorted s r)
Reachable-IsSorted _ (removed id s r) =
    mutate_entries-IsSorted (remove_entry id) s (Reachable-IsSorted s r)
Reachable-IsSorted _ (many_removed ids s r) =
    mutate_entries-IsSorted (remove_entries ids) s (Reachable-IsSorted s r)
Reachable-IsSorted _ (cleared s r) = set_entries-IsSorted [] s
Reachable-IsSorted _ (reconciled next s r) = set_entries-IsSorted next s

tally-without_id :
    (id : String) (es : List ProcessScheduleEntry) → tally (has_id id) (without_id id es) ≡ 0
tally-without_id id [] = refl
tally-without_id id (e ∷ es) = ground (arith, tally-without_id id es)

any_counts :
    (id : String) (es : List ProcessScheduleEntry)
    → any (has_id id) es ≡ ltb 0 (tally (has_id id) es)
any_counts id [] = refl
any_counts id (e ∷ es) = ground (arith, any_counts id es)

without_count :
    (id : String) (es : List ProcessScheduleEntry)
    → length (without_id id es) + tally (has_id id) es ≡ length es
without_count id [] = refl
without_count id (e ∷ es) = ground (arith, without_count id es)

-- Putting an entry in under its id leaves exactly one entry with that id, and leaves the others as
-- they were.
pub upsert_lem :
    (e : ProcessScheduleEntry) (id : String) (s : Schedule)
    → e.id ≡ some id
    → (tally (has_id id) (upsert e s).1.entries ≡ 1)
      × ((p : ProcessScheduleEntry → Bool)
          → tally p (upsert e s).1.entries
            ≡ (if p e then 1 else 0) + tally p (without_id id s.entries))
unfolding upsert mutate_entries set_entries
upsert_lem e id s named =
    let kept = without_id id s.entries in
    (
      ground (
        arith,
        named,
        tally-sort entry_le (has_id id) (kept ++ e ∷ []),
        tally-append (has_id id) kept (e ∷ []),
        tally-without_id id s.entries,
        str_eq_iff id id,
      ),
      λ p.
          ground
            (arith, named, tally-sort entry_le p (kept ++ e ∷ []), tally-append p kept (e ∷ [])),
    )

-- Removing an id answers whether it was there; afterwards no entry has it, the others are as they
-- were, and only a removal that changes something signals a change.
pub remove_lem :
    (id : String) (s : Schedule)
    → ((remove id s).0 ≡ has id s)
      × (tally (has_id id) (remove id s).1.entries ≡ 0)
      × ((remove id s).1.changes ≡ (if has id s then s.changes + 1 else s.changes))
unfolding remove mutate_entries set_entries has
remove_lem id s =
    let kept = without_id id s.entries in
    ground (
      arith,
      any_counts id s.entries,
      without_count id s.entries,
      tally-without_id id s.entries,
      tally-sort entry_le (has_id id) kept,
    )

-- Removing several ids answers how many entries went.
pub remove_many_lem :
    (ids : List String) (s : Schedule)
    → (remove_many ids s).0 + length (remove_many ids s).1.entries ≡ length s.entries
unfolding remove_many mutate_entries set_entries
remove_many_lem ids s =
    let filtered = filter (λ e. not (is_among ids e)) s.entries in
    ground (
      arith,
      length-filter-le (λ e. not (is_among ids e)) s.entries,
      tally-sort entry_le (λ e. true) filtered,
      tally-true filtered,
      tally-true (sort_entries filtered),
    )
