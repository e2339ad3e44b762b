-- ===== src/Sqlite/Faults/Runs.antt =====
-- How a transaction runs along a plan of faults, beside the one without faults.
use taskchampion_sync_server.Prelude.{
  ◌≡◌, refl, ◌∙◌, ap, ◌⊎◌, inl, inr, Bool, true, false, if◌then◌else◌, Option, none, some, [], ◌∷◌,
}
use taskchampion_sync_server.Core.Types.{Uuid, StorageError, ServerError}
use taskchampion_sync_server.Core.Txn.{
  Outcome, ok, err, panic, Txn, pure, fail, ok_or, continue, ◌>>=◌, ◌>>◌, other?,
}
use taskchampion_sync_server.Core.Storage.{with_txn, finish}
use taskchampion_sync_server.Sqlite.{SqliteTxn, txn, commit, drop, sqlite}
use taskchampion_sync_server.Sqlite.Calls.{in_txn}
use taskchampion_sync_server.Sqlite.Columns.{Crates}
use taskchampion_sync_server.Sqlite.Tables.{Database}
use taskchampion_sync_server.Sqlite.Faults.{Plan, first_fault, faulty, faulty_sqlite}

-- Along a plan, one run is the error of the first call that fails, with the file as it was; or no call has
-- failed so far, and it is the other run.
abbrev pub IsAtomic :
    {A : Type 0}
    → Plan
    → Database
    → Outcome ServerError A × (Plan × SqliteTxn)
    → Outcome ServerError A × SqliteTxn
    → Type 0
IsAtomic plan file x y =
    ((e : StorageError) × (first_fault plan ≡ some e)
      × (x.0 ≡ err (ServerError.other e))
      × (x.1.1.con.file ≡ file))
    ⊎ ((first_fault x.1.0 ≡ first_fault plan) × (x.0 ≡ y.0) × (x.1.1 ≡ y.1))

module _ (file : Database) (c : Uuid) where
  pub record AlongPlans {A : Type 0} (m' : Txn (Plan × SqliteTxn) ServerError A)
      (m : Txn SqliteTxn ServerError A) : Type 0 where
    pub along :
        (plan : Plan) (tables : Database)
        → IsAtomic plan file (m' (plan, in_txn file tables c)) (m (in_txn file tables c))

  -- The transaction stays open, with the same file.
  pub record StaysOpen {A : Type 0} (m : Txn SqliteTxn ServerError A) : Type 0 where
    pub open_after :
        (tables : Database)
        → (after : Database) × ((m (in_txn file tables c)).1 ≡ in_txn file after c)

  module _ {A : Type 0} where
    pub pure-AlongPlans : (a : A) → AlongPlans (pure a) (pure a)
    pure-AlongPlans a = record { along = λ plan tables. inr (refl, refl, refl) }

    pub pure-StaysOpen : (a : A) → StaysOpen (pure a)
    pure-StaysOpen a = record { open_after = λ tables. (tables, refl) }

    fail-AlongPlans : (e : ServerError) → AlongPlans {A = A} (fail e) (fail e)
    fail-AlongPlans e = record { along = λ plan tables. inr (refl, refl, refl) }

    fail-StaysOpen : (e : ServerError) → StaysOpen {A = A} (fail e)
    fail-StaysOpen e = record { open_after = λ tables. (tables, refl) }

    pub ok_or-AlongPlans : (o : Option A) (e : ServerError) → AlongPlans (ok_or o e) (ok_or o e)
    ok_or-AlongPlans none e = fail-AlongPlans e
    ok_or-AlongPlans (some a) e = pure-AlongPlans a

    pub ok_or-StaysOpen : (o : Option A) (e : ServerError) → StaysOpen (ok_or o e)
    ok_or-StaysOpen none e = fail-StaysOpen e
    ok_or-StaysOpen (some a) e = pure-StaysOpen a

    pub if_AlongPlans :
        (b : Bool) {m' n' : Txn (Plan × SqliteTxn) ServerError A}
        {m n : Txn SqliteTxn ServerError A}
        → AlongPlans m' m
        → AlongPlans n' n
        → AlongPlans (if b then m' else n') (if b then m else n)
    if_AlongPlans true met other = met
    if_AlongPlans false met other = other

    pub if_StaysOpen :
        (b : Bool) {m n : Txn SqliteTxn ServerError A}
        → StaysOpen m
        → StaysOpen n
        → StaysOpen (if b then m else n)
    if_StaysOpen true met other = met
    if_StaysOpen false met other = other

    pub call-StaysOpen :
        (call : Txn SqliteTxn StorageError A)
        → ((tables : Database)
            → (after : Database) × ((call (in_txn file tables c)).1 ≡ in_txn file after c))
        → StaysOpen (other? call)
    call-StaysOpen call stays = record { open_after = stays }

    call_along :
        (call : Txn SqliteTxn StorageError A) (plan : Plan) (tables : Database)
        → IsAtomic plan file
            (other? (faulty call) (plan, in_txn file tables c))
            (other? call (in_txn file tables c))
    call_along call [] tables = inr (refl, refl, refl)
    call_along call (none ∷ plan) tables = inr (refl, refl, refl)
    call_along call (some (e, spoiled) ∷ plan) tables = inl (e, refl, refl, refl)

    pub call-AlongPlans :
        (call : Txn SqliteTxn StorageError A) → AlongPlans (other? (faulty call)) (other? call)
    call-AlongPlans call = record { along = call_along call }

    commit_along :
        (crates : Crates) (a : A) (plan : Plan) (tables : Database)
        → IsAtomic plan file
            ((other? (faulty (commit crates)) >> pure a) (plan, in_txn file tables c))
            ((other? (commit crates) >> pure a) (in_txn file tables c))
    unfolding commit
    commit_along crates a [] tables = inr (refl, refl, refl)
    commit_along crates a (none ∷ plan) tables = inr (refl, refl, refl)
    commit_along crates a (some (e, spoiled) ∷ plan) tables = inl (e, refl, refl, refl)

    -- A commit is the last call.
    pub commit-AlongPlans :
        (crates : Crates) (a : A)
        → AlongPlans (other? (faulty (commit crates)) >> pure a) (other? (commit crates) >> pure a)
    commit-AlongPlans crates a = record { along = commit_along crates a }

  module _ {A B : Type 0} where
    continue_along :
        (r : Outcome ServerError A) (f' : A → Txn (Plan × SqliteTxn) ServerError B)
        (f : A → Txn SqliteTxn ServerError B)
        → ((a : A) → AlongPlans (f' a) (f a))
        → (plan : Plan) (tables : Database)
        → IsAtomic plan file
            (continue r f' (plan, in_txn file tables c))
            (continue r f (in_txn file tables c))
    continue_along (ok a) f' f rest plan tables = (rest a).along plan tables
    continue_along (err e) f' f rest plan tables = inr (refl, refl, refl)
    continue_along panic f' f rest plan tables = inr (refl, refl, refl)

    continue_open :
        (r : Outcome ServerError A) (f : A → Txn SqliteTxn ServerError B)
        → ((a : A) → StaysOpen (f a))
        → (tables : Database)
        → (after : Database) × ((continue r f (in_txn file tables c)).1 ≡ in_txn file after c)
    continue_open (ok a) f rest tables = (rest a).open_after tables
    continue_open (err e) f rest tables = (tables, refl)
    continue_open panic f rest tables = (tables, refl)

    bind_along :
        (m' : Txn (Plan × SqliteTxn) ServerError A) (m : Txn SqliteTxn ServerError A)
        (f' : A → Txn (Plan × SqliteTxn) ServerError B) (f : A → Txn SqliteTxn ServerError B)
        → AlongPlans m' m
        → StaysOpen m
        → ((a : A) → AlongPlans (f' a) (f a))
        → (plan : Plan) (tables : Database)
        → IsAtomic plan file
            ((m' >>= f') (plan, in_txn file tables c))
            ((m >>= f) (in_txn file tables c))
    bind_along m' m f' f both stays rest plan tables =
        let (after, e) = stays.open_after tables in
        elim (both.along plan tables) [
          | inl (x, first, failed, kept) ↦ inl (x, first, rw failed refl, rw failed kept)
          | inr (later, same, same_txn) ↦
              let at_end : (m' (plan, in_txn file tables c)).1
                  ≡ ((m' (plan, in_txn file tables c)).1.0, in_txn file after c) =
                ap (λ t. ((m' (plan, in_txn file tables c)).1.0, t)) (same_txn ∙ e) in
              rw (same, at_end, e, ← later)
                (continue_along (m (in_txn file tables c)).0 f' f rest
                  (m' (plan, in_txn file tables c)).1.0 after)
        ]

    pub bind-AlongPlans :
        {m' : Txn (Plan × SqliteTxn) ServerError A} {m : Txn SqliteTxn ServerError A}
        {f' : A → Txn (Plan × SqliteTxn) ServerError B} {f : A → Txn SqliteTxn ServerError B}
        → AlongPlans m' m
        → StaysOpen m
        → ((a : A) → AlongPlans (f' a) (f a))
        → AlongPlans (m' >>= f') (m >>= f)
    bind-AlongPlans {m'} {m} {f'} {f} both stays rest = record {
      along = bind_along m' m f' f both stays rest;
    }

    bind_open :
        (m : Txn SqliteTxn ServerError A) (f : A → Txn SqliteTxn ServerError B)
        → StaysOpen m
        → ((a : A) → StaysOpen (f a))
        → (tables : Database)
        → (after : Database) × (((m >>= f) (in_txn file tables c)).1 ≡ in_txn file after c)
    bind_open m f stays rest tables =
        let (after, e) = stays.open_after tables in
        let (last, e') = continue_open (m (in_txn file tables c)).0 f rest after in (last, rw e e')

    pub bind-StaysOpen :
        {m : Txn SqliteTxn ServerError A} {f : A → Txn SqliteTxn ServerError B}
        → StaysOpen m
        → ((a : A) → StaysOpen (f a))
        → StaysOpen (m >>= f)
    bind-StaysOpen {m} {f} stays rest = record { open_after = bind_open m f stays rest }

-- The same of the whole transaction: the error of the first call that fails and the database of before,
-- or, where no call that was made failed, the run without faults.
abbrev pub IsAllOrNothing :
    {A : Type 0}
    → Plan
    → Database
    → Outcome ServerError A × (Plan × Database)
    → Outcome ServerError A × Database
    → Type 0
IsAllOrNothing plan s x y =
    ((e : StorageError) × (first_fault plan ≡ some e)
      × (x.0 ≡ err (ServerError.other e))
      × (x.1.1 ≡ s))
    ⊎ ((first_fault x.1.0 ≡ first_fault plan) × (x.0 ≡ y.0) × (x.1.1 ≡ y.1))

module _ {A : Type 0} (crates : Crates) (s : Database) (c : Uuid)
    (body' : Txn (Plan × SqliteTxn) ServerError A) (body : Txn SqliteTxn ServerError A)
    (both : AlongPlans s c body' body) where
  dropped :
      (plan : Plan)
      → IsAllOrNothing plan s
          (finish (faulty_sqlite crates) (body' (plan, in_txn s s c)))
          (finish (sqlite crates) (body (in_txn s s c)))
  unfolding drop
  dropped plan = elim (both.along plan s) [
    | inl (e, first, failed, kept) ↦ inl (e, first, failed, kept)
    | inr (later, same, same_txn) ↦ inr (later, same, rw same_txn refl)
  ]

  pub with_txn-IsAllOrNothing :
      (plan : Plan)
      → IsAllOrNothing plan s
          (with_txn (faulty_sqlite crates) (plan, s) c body')
          (with_txn (sqlite crates) s c body)
  unfolding txn
  with_txn-IsAllOrNothing [] = dropped []
  with_txn-IsAllOrNothing (none ∷ plan) = dropped plan
  with_txn-IsAllOrNothing (some (e, tables) ∷ plan) = inl (e, refl, refl, refl)
