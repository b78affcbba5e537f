-- ===== src/History.antt =====
-- src/HistoryStore.ts, the append-only streams of entries in memory, and the instant of each append.
pub mod Sqlite
pub mod Windows
pub mod Rows
pub mod Retention
pub mod Mirror
pub mod Agreement
use effect_pm.Prelude.{
  ℕ, ◌-◌, Bool, true, false, Option, none, some, List, [], ◌∷◌, ◌++◌, String, str_eq, ltb, leb,
  length, filter, drop, map, if◌then◌else◌,
}
use effect_pm.Prelude.Dict.{Dict, get, set, or_value}

pub record HistoryReadOptions : Type 0 where
  pub limit : Option ℕ
  pub since : Option ℕ
  pub until : Option ℕ

pub record Stamped (E : Type 0) : Type 0 where
  pub ts : ℕ
  pub entry : E

abbrev pub not_before : Option ℕ → ℕ → Bool
not_before none ts = true
not_before (some since) ts = leb since ts

abbrev pub not_after : Option ℕ → ℕ → Bool
not_after none ts = true
not_after (some until) ts = leb ts until

-- `xs.slice(xs.length - n)` where there are more than `n`.
abbrev pub last_of : {A : Type 0} → ℕ → List A → List A
last_of n xs = if ltb n (length xs) then drop (length xs - n) xs else xs

abbrev pub last_some : {A : Type 0} → Option ℕ → List A → List A
last_some none xs = xs
last_some (some n) xs = last_of n xs

-- `options?.capacity ?? 10_000`.
abbrev pub capacity_of : Option ℕ → ℕ
capacity_of none = 10000
capacity_of (some capacity) = capacity

-- The `Map` from stream ids to their entries.
abbrev pub Streams : Type 0 → Type 0
Streams E = Dict (List (Stamped E))

module _ {E : Type 0} where
  -- `store.get(streamId) ?? []`.
  abbrev pub stream : String → Streams E → List (Stamped E)
  stream id store = or_value [] (get id store)

  unfoldable pub append : ℕ → String → ℕ → E → Streams E → Streams E
  append capacity id now entry store =
      set id (last_of capacity (stream id store ++ record { ts = now; entry = entry } ∷ [])) store

  unfoldable pub read : String → HistoryReadOptions → Streams E → List E
  read id opts store =
      let all = stream id store in
      let from = filter (λ e. not_before opts.since e.ts) all in
      let window = filter (λ e. not_after opts.until e.ts) from in
      map (λ e. e.entry) (last_some opts.limit window)
