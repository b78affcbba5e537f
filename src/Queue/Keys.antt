-- ===== src/Queue/Keys.antt =====
-- The dedup keys of an in-memory queue (`activeKeys` of src/internal/queueResource.ts): which items
-- are live, and the invariant that the set of active keys counts them.
pub mod Enqueue
pub mod Release
pub mod Worker
pub mod Body
pub mod Control
pub mod Steps
pub mod Restore
use effect_pm.Prelude.{
  ℕ, ◌+◌, ◌≡◌, refl, Bool, true, false, Option, none, some, List, [], ◌∷◌, String, str_eq, tally,
  if◌then◌else◌,
}
use effect_pm.Queue.Types.{InternalItem}
use effect_pm.Queue.Engine.{Setup, Engine}

abbrev pub key_is : String → Option String → Bool
key_is k (some j) = str_eq j k
key_is k none = false

abbrev pub has_key : {T : Type 0} → String → InternalItem T → Bool
has_key k i = key_is k i.key

module _ (s : Setup) where
  abbrev pub pending : Engine s → List (InternalItem s.T)
  pending e = s.lane_store.pending e.lanes

  -- Each key is active exactly while one item that is pending, or among `held`, has it: the items
  -- that workers hold and whose keys they have not released.
  abbrev pub Counted : List (InternalItem s.T) → Engine s → Type 0
  Counted held e =
      (k : String)
      → tally (has_key k) (pending e) + tally (has_key k) held
        ≡ (if s.key_set.has e.active_keys k then 1 else 0)

  pub record IsConsistent (held : List (InternalItem s.T)) (e : Engine s) : Type 0 where
    pub valid : s.lane_store.IsValid e.lanes
    pub counted : Counted held e
