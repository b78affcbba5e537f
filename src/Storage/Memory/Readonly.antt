-- ===== src/Storage/Memory/Readonly.antt =====
-- What every history of the in-memory adapter keeps: unique ids, and readonly records.
use effect_pm.Prelude.{
  ◌≡◌, ◌⊎◌, refl, true, false, none, some, List, [], str_eq_iff, arith, Bool-cases, Option-cases,
  inl, inr,
}
use effect_pm.Storage.Record.{RuntimeRecord, RuntimeRecordPatch, is_true}
use effect_pm.Storage.Query.{Query}
use effect_pm.Storage.Select.{Collation, select}
use effect_pm.Storage.Memory.{
  get, is_found, is_readonly, create, upsert, update, delete, read, includes_readonly_true, Program,
  transaction, StorageError, Outcome, done, failed,
}
use effect_pm.Storage.Memory.Rows.{
  IsKeyed, get-set_row, set_row-IsKeyed, All-select, keyed_stored, get_stored,
}
use effect_pm.Storage.Memory.Update.{update_lem, update-IsKeyed}
use effect_pm.Storage.Memory.Delete.{delete_lem, delete-IsKeyed}

Outcome-cases :
    {A : Type 0} (o : Outcome A) → ((e : StorageError) × (o ≡ failed e)) ⊎ ((a : A) × (o ≡ done a))
Outcome-cases (failed e) = inl (e, refl)
Outcome-cases (done a) = inr (a, refl)

module _ {J : Type 0} where
  pub create-IsKeyed :
      (r : RuntimeRecord J) (rows : List (RuntimeRecord J))
      → IsKeyed rows
      → IsKeyed (create r rows).1
  unfolding create
  create-IsKeyed r rows k = elim (Bool-cases (is_found (get r.id rows))) [
    | inl e ↦ rw e k
    | inr e ↦ rw e (set_row-IsKeyed r rows k)
  ]

  pub upsert-IsKeyed :
      (r : RuntimeRecord J) (rows : List (RuntimeRecord J))
      → IsKeyed rows
      → IsKeyed (upsert r rows).1
  unfolding upsert
  upsert-IsKeyed r rows k = elim (Bool-cases (is_readonly (get r.id rows))) [
    | inl e ↦ rw e k
    | inr e ↦ rw e (set_row-IsKeyed r rows k)
  ]

module _ {J : Type 0} (collate : Collation) (MayDelete : Query → Type 0) where
  -- One operation, or a transaction whose effect is a sequence of them, committed or rolled back.
  mutual
    pub data Step : List (RuntimeRecord J) → List (RuntimeRecord J) → Type 1 where
      created : {rows : List (RuntimeRecord J)} (r : RuntimeRecord J) → Step rows (create r rows).1
      upserted : {rows : List (RuntimeRecord J)} (r : RuntimeRecord J) → Step rows (upsert r rows).1
      updated :
          {rows : List (RuntimeRecord J)} (q : Query) (patch : RuntimeRecordPatch J)
          → Step rows (update collate q patch rows).1
      deleted :
          {rows : List (RuntimeRecord J)} (q : Query)
          → MayDelete q
          → Step rows (delete collate q rows).1
      transacted :
          {rows : List (RuntimeRecord J)} {A : Type 0} (effect : Program J A)
          → Steps rows (effect rows).1
          → Step rows (transaction effect rows).1

    pub data Steps : List (RuntimeRecord J) → List (RuntimeRecord J) → Type 1 where
      here : {rows : List (RuntimeRecord J)} → Steps rows rows
      next :
          {rows mid last : List (RuntimeRecord J)}
          → Steps rows mid
          → Step mid last
          → Steps rows last

  transacted_keeps {κ} :
      (P : List (RuntimeRecord J) → Type κ) (rows : List (RuntimeRecord J)) {A : Type 0}
      (effect : Program J A)
      → P rows
      → P (effect rows).1
      → P (transaction effect rows).1
  unfolding transaction
  transacted_keeps P rows effect before after = elim (Outcome-cases (effect rows).0) [
    | inl (e, o) ↦ rw (transaction, o) before
    | inr (a, o) ↦ rw (transaction, o) after
  ]

  mutual
    Step-IsKeyed :
        {rows rows' : List (RuntimeRecord J)} → Step rows rows' → IsKeyed rows → IsKeyed rows'
    Step-IsKeyed {rows} (created r) k = create-IsKeyed r rows k
    Step-IsKeyed {rows} (upserted r) k = upsert-IsKeyed r rows k
    Step-IsKeyed {rows} (updated q patch) k = update-IsKeyed collate q patch rows k
    Step-IsKeyed {rows} (deleted q may) k = delete-IsKeyed collate q rows k
    Step-IsKeyed {rows} (transacted effect steps) k =
        transacted_keeps IsKeyed rows effect k (Steps-IsKeyed steps k)

    Steps-IsKeyed :
        {rows rows' : List (RuntimeRecord J)} → Steps rows rows' → IsKeyed rows → IsKeyed rows'
    Steps-IsKeyed here k = k
    Steps-IsKeyed (next steps step) k = Step-IsKeyed step (Steps-IsKeyed steps k)

  -- No id stands twice in what any sequence of operations and transactions makes of the empty
  -- storage.
  pub Reachable-IsKeyed : (rows : List (RuntimeRecord J)) → Steps [] rows → IsKeyed rows
  Reachable-IsKeyed rows steps = Steps-IsKeyed steps (λ j. omega arith)

-- A query that deletes no readonly record.
abbrev pub SparesReadonly : Query → Type 0
SparesReadonly q = includes_readonly_true q.predicate ≡ false

module _ {J : Type 0} (collate : Collation) (r : RuntimeRecord J)
    (fixed : is_true r.readonly ≡ true) where
  abbrev Holds : List (RuntimeRecord J) → Type 0
  Holds rows = IsKeyed rows × (get r.id rows ≡ some r)

  -- Whatever a read answers under the id of `r` is `r`.
  read_same :
      (q : Query) (rows : List (RuntimeRecord J))
      → Holds rows
      → (get r.id (read collate q rows) ≡ none) ⊎ (get r.id (read collate q rows) ≡ some r)
  unfolding read
  read_same q rows (k, h) = elim (Option-cases (get r.id (select collate q rows))) [
    | inl e ↦ inl e
    | inr (s, e) ↦
        let stored = All-select collate q _ rows (keyed_stored rows k) in
        let found = get_stored r.id s (select collate q rows) rows stored e in
        inr (ground (arith, found, h, e))
  ]

  create-Holds :
      (s : RuntimeRecord J) (rows : List (RuntimeRecord J)) → Holds rows → Holds (create s rows).1
  unfolding create
  create-Holds s rows (k, h) =
      (create-IsKeyed s rows k, ground (arith, h, get-set_row s r.id rows, str_eq_iff s.id r.id))

  upsert-Holds :
      (s : RuntimeRecord J) (rows : List (RuntimeRecord J)) → Holds rows → Holds (upsert s rows).1
  unfolding upsert
  upsert-Holds s rows (k, h) = (
    upsert-IsKeyed s rows k,
    ground (arith, h, fixed, get-set_row s r.id rows, str_eq_iff s.id r.id),
  )

  update-Holds :
      (q : Query) (patch : RuntimeRecordPatch J) (rows : List (RuntimeRecord J))
      → Holds rows
      → Holds (update collate q patch rows).1
  update-Holds q patch rows (k, h) = (
    update-IsKeyed collate q patch rows k,
    ground (arith, fixed, h, (update_lem collate q patch rows k).0 r.id, read_same q rows (k, h)),
  )

  delete-Holds :
      (q : Query) (rows : List (RuntimeRecord J))
      → SparesReadonly q
      → Holds rows
      → Holds (delete collate q rows).1
  delete-Holds q rows spares (k, h) = (
    delete-IsKeyed collate q rows k,
    ground (arith, fixed, spares, h, (delete_lem collate q rows k).0 r.id, read_same q rows (k, h)),
  )

  mutual
    Step-Holds :
        {rows rows' : List (RuntimeRecord J)}
        → Step collate SparesReadonly rows rows'
        → Holds rows
        → Holds rows'
    Step-Holds {rows} (created s) h = create-Holds s rows h
    Step-Holds {rows} (upserted s) h = upsert-Holds s rows h
    Step-Holds {rows} (updated q patch) h = update-Holds q patch rows h
    Step-Holds {rows} (deleted q spares) h = delete-Holds q rows spares h
    Step-Holds {rows} (transacted effect steps) h =
        transacted_keeps collate SparesReadonly Holds rows effect h (Steps-Holds steps h)

    Steps-Holds :
        {rows rows' : List (RuntimeRecord J)}
        → Steps collate SparesReadonly rows rows'
        → Holds rows
        → Holds rows'
    Steps-Holds here h = h
    Steps-Holds (next steps step) h = Step-Holds step (Steps-Holds steps h)

  -- A readonly record stands unchanged through any sequence of creates, upserts, updates,
  -- transactions, and deletes whose predicates do not compare `readonly` with true.
  pub Steps-readonly :
      (rows rows' : List (RuntimeRecord J))
      → IsKeyed rows
      → get r.id rows ≡ some r
      → Steps collate SparesReadonly rows rows'
      → get r.id rows' ≡ some r
  Steps-readonly rows rows' k h steps = (Steps-Holds steps (k, h)).1
