-- ===== src/Queue/Keys/Release.antt =====
-- Releasing keys: the items whose keys are released are no longer live.
use effect_pm.Prelude.{
  ◌≡◌, refl, ◌∙◌, false, some, List, [], ◌∷◌, ◌++◌, String, str_eq_iff, arith, Option-cases, inl,
  inr,
}
use effect_pm.Queue.Types.{InternalItem}
use effect_pm.Queue.Engine.{Setup, Engine, release_active_key, record_dedupe_key_change}
use effect_pm.Queue.Control.{release_active_keys}
use effect_pm.Queue.Worker.{release_dedupe_key}
use effect_pm.Queue.Keys.{Counted}

module _ (s : Setup) where
  pub release_active_key-lanes :
      (i : InternalItem s.T) (e : Engine s) → (release_active_key i e).lanes ≡ e.lanes
  unfolding release_active_key
  release_active_key-lanes i e = ground arith

  -- A live item that is counted as held gives its key up.
  pub release_active_key-Counted :
      (i : InternalItem s.T) (held : List (InternalItem s.T)) (e : Engine s)
      → Counted s (i ∷ held) e
      → Counted s held (release_active_key i e)
  unfolding release_active_key
  release_active_key-Counted i held e h k = elim (Option-cases i.key) [
    | inl n ↦ ground (arith, h k)
    | inr (j, n) ↦ ground (arith, h k, s.key_set.has-remove e.active_keys j k, str_eq_iff j k)
  ]

  pub release_active_keys-lanes :
      (is : List (InternalItem s.T)) (e : Engine s) → (release_active_keys s is e).lanes ≡ e.lanes
  unfolding release_active_keys
  release_active_keys-lanes [] e = refl
  release_active_keys-lanes (i ∷ is) e =
      release_active_keys-lanes is (release_active_key i e) ∙ release_active_key-lanes i e

  pub release_active_keys-Counted :
      (is held : List (InternalItem s.T)) (e : Engine s)
      → Counted s (is ++ held) e
      → Counted s held (release_active_keys s is e)
  unfolding release_active_keys
  release_active_keys-Counted [] held e h = h
  release_active_keys-Counted (i ∷ is) held e h =
      release_active_keys-Counted is held (release_active_key i e)
        (release_active_key-Counted i (is ++ held) e h)

  pub release_dedupe_key-lanes :
      (i : InternalItem s.T) (e : Engine s) → (release_dedupe_key s i e).lanes ≡ e.lanes
  unfolding release_dedupe_key record_dedupe_key_change
  release_dedupe_key-lanes i e = ground arith

  pub release_dedupe_key-Counted :
      (key : s.T → String)
      → s.config.key ≡ some key
      → (i : InternalItem s.T) (held : List (InternalItem s.T)) (e : Engine s)
      → Counted s (i ∷ held) e
      → Counted s held (release_dedupe_key s i e)
  unfolding release_dedupe_key record_dedupe_key_change
  release_dedupe_key-Counted key keyed i held e h k = elim (Option-cases i.key) [
    | inl n ↦ ground (arith, h k)
    | inr (j, n) ↦ ground (arith, h k, s.key_set.has-remove e.active_keys j k, str_eq_iff j k)
  ]

  -- No live item has the key of `i`.
  abbrev pub IsFree : InternalItem s.T → Engine s → Type 0
  IsFree i e = (j : String) → i.key ≡ some j → s.key_set.has e.active_keys j ≡ false

  pub release_active_key_free :
      (i : InternalItem s.T) (held : List (InternalItem s.T)) (e : Engine s)
      → IsFree i e
      → Counted s held e
      → Counted s held (release_active_key i e)
  unfolding release_active_key
  release_active_key_free i held e free h k = elim (Option-cases i.key) [
    | inl n ↦ ground (arith, h k)
    | inr (j, n) ↦
        ground (arith, h k, free j n, s.key_set.has-remove e.active_keys j k, str_eq_iff j k)
  ]

  pub release_active_key-is_shutdown :
      (i : InternalItem s.T) (e : Engine s) → (release_active_key i e).is_shutdown ≡ e.is_shutdown
  unfolding release_active_key
  release_active_key-is_shutdown i e = ground arith

  -- Whoever holds the key, it is free afterwards.
  pub release_active_key_frees :
      (i : InternalItem s.T) (j : String) (e : Engine s)
      → i.key ≡ some j
      → s.key_set.has (release_active_key i e).active_keys j ≡ false
  unfolding release_active_key
  release_active_key_frees i j e n =
      ground (arith, s.key_set.has-remove e.active_keys j j, str_eq_iff j j)
