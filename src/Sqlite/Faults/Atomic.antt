-- ===== src/Sqlite/Faults/Atomic.antt =====
-- The methods of the server on a database whose statements may fail.
use taskchampion_sync_server.Prelude.{ℕ, zero, suc, Bool, true, false, Option, none, some}
use taskchampion_sync_server.Core.Types.{Uuid, Bytes, Snapshot, Version, ServerError, ServerConfig}
use taskchampion_sync_server.Core.Txn.{Txn, pure, other?}
use taskchampion_sync_server.Core.Server.{
  Env, existing_client, get_child_version, get_child_version_in, add_version, add_version_in,
  add_snapshot, add_snapshot_in, get_snapshot, get_snapshot_in, read_snapshot, search,
  store_snapshot, is_mismatch, conflict, is_same, snapshot_version, snapshot_search_len,
  new_snapshot,
}
use taskchampion_sync_server.Sqlite.{
  SqliteTxn, sqlite, get_client, set_snapshot, get_snapshot_data, get_version_by_parent,
  get_version, add_version as insert,
}
use taskchampion_sync_server.Sqlite.Columns.{Crates}
use taskchampion_sync_server.Sqlite.Tables.{Database}
use taskchampion_sync_server.Core.Storage.Call.{Call}
use taskchampion_sync_server.Sqlite.Rollback.{run_call-in_txn}
use taskchampion_sync_server.Sqlite.Faults.{Plan, faulty_sqlite}
use taskchampion_sync_server.Sqlite.Faults.Runs.{
  AlongPlans, StaysOpen, IsAllOrNothing, pure-AlongPlans, pure-StaysOpen, ok_or-AlongPlans,
  ok_or-StaysOpen, call-AlongPlans, call-StaysOpen, commit-AlongPlans, bind-AlongPlans,
  bind-StaysOpen, if_AlongPlans, if_StaysOpen, with_txn-IsAllOrNothing,
}

module _ (crates : Crates) (file : Database) (c : Uuid) where
  get_client-StaysOpen : StaysOpen file c (other? (get_client crates))
  get_client-StaysOpen =
      call-StaysOpen file c (get_client crates)
        λ tables. run_call-in_txn crates Call.call_get_client file tables c

  existing_client-AlongPlans :
      AlongPlans file c (existing_client (faulty_sqlite crates)) (existing_client (sqlite crates))
  existing_client-AlongPlans =
      bind-AlongPlans file c (call-AlongPlans file c (get_client crates)) get_client-StaysOpen
        λ o. ok_or-AlongPlans file c o ServerError.no_such_client

  existing_client-StaysOpen : StaysOpen file c (existing_client (sqlite crates))
  existing_client-StaysOpen =
      bind-StaysOpen file c get_client-StaysOpen
        λ o. ok_or-StaysOpen file c o ServerError.no_such_client

  get_child_version-AlongPlans :
      (p : Uuid)
      → AlongPlans file c
          (get_child_version_in (faulty_sqlite crates) p)
          (get_child_version_in (sqlite crates) p)
  unfolding get_child_version_in
  get_child_version-AlongPlans p =
      bind-AlongPlans file c existing_client-AlongPlans existing_client-StaysOpen λ client.
        bind-AlongPlans file c (call-AlongPlans file c (get_version_by_parent crates p))
          (call-StaysOpen file c (get_version_by_parent crates p)
            λ tables. run_call-in_txn crates (Call.call_get_version_by_parent p) file tables c)
          λ version. pure-AlongPlans file c _

  add_version-AlongPlans :
      (config : ServerConfig) (env : Env) (p : Uuid) (bytes : Bytes)
      → AlongPlans file c
          (add_version_in (faulty_sqlite crates) config env p bytes)
          (add_version_in (sqlite crates) config env p bytes)
  unfolding add_version_in
  add_version-AlongPlans config env p bytes =
      bind-AlongPlans file c existing_client-AlongPlans existing_client-StaysOpen λ client.
        if_AlongPlans file c (is_mismatch client p) (pure-AlongPlans file c (conflict client)) (
          bind-AlongPlans file c (call-AlongPlans file c (insert crates env.new_v4 p bytes))
            (call-StaysOpen file c (insert crates env.new_v4 p bytes) λ tables.
              run_call-in_txn crates (Call.call_add_version env.new_v4 p bytes) file tables c)
            λ done. commit-AlongPlans file c crates _)

  get_snapshot-AlongPlans :
      AlongPlans file c (get_snapshot_in (faulty_sqlite crates)) (get_snapshot_in (sqlite crates))
  unfolding get_snapshot_in
  get_snapshot-AlongPlans =
      bind-AlongPlans file c existing_client-AlongPlans existing_client-StaysOpen
        λ client. read client.snapshot
    where
      read :
          (snap : Option Snapshot)
          → AlongPlans file c
              (read_snapshot (faulty_sqlite crates) snap)
              (read_snapshot (sqlite crates) snap)
      read none = pure-AlongPlans file c none
      read (some snap) =
          bind-AlongPlans file c (call-AlongPlans file c (get_snapshot_data crates snap.version_id))
            (call-StaysOpen file c (get_snapshot_data crates snap.version_id) λ tables.
              run_call-in_txn crates (Call.call_get_snapshot_data snap.version_id) file tables c)
            λ found. pure-AlongPlans file c _

  get_version-StaysOpen : (v : Uuid) → StaysOpen file c (other? (get_version crates v))
  get_version-StaysOpen v =
      call-StaysOpen file c (get_version crates v)
        λ tables. run_call-in_txn crates (Call.call_get_version v) file tables c

  -- the loop of `add_snapshot`
  module _ (version_id : Uuid) (last : Option Uuid) where
    step-AlongPlans :
        (later' : Uuid → Txn (Plan × SqliteTxn) ServerError Bool)
        (later : Uuid → Txn SqliteTxn ServerError Bool)
        → ((vid : Uuid) → AlongPlans file c (later' vid) (later vid))
        → (o : Option Version)
        → AlongPlans file c
            (elim o [ none ↦ pure false | some parent ↦ later' parent.parent_version_id ])
            (elim o [ none ↦ pure false | some parent ↦ later parent.parent_version_id ])
    step-AlongPlans later' later along none = pure-AlongPlans file c false
    step-AlongPlans later' later along (some parent) = along parent.parent_version_id

    step-StaysOpen :
        (later : Uuid → Txn SqliteTxn ServerError Bool)
        → ((vid : Uuid) → StaysOpen file c (later vid))
        → (o : Option Version)
        → StaysOpen file c
            (elim o [ none ↦ pure false | some parent ↦ later parent.parent_version_id ])
    step-StaysOpen later stays none = pure-StaysOpen file c false
    step-StaysOpen later stays (some parent) = stays parent.parent_version_id

    search-AlongPlans :
        (n : ℕ) (vid : Uuid)
        → AlongPlans file c
            (search (faulty_sqlite crates) version_id last n vid)
            (search (sqlite crates) version_id last n vid)
    unfolding search
    search-AlongPlans zero vid = pure-AlongPlans file c _
    search-AlongPlans (suc n) vid = if_AlongPlans file c _ (pure-AlongPlans file c true) (
        if_AlongPlans file c _ (pure-AlongPlans file c false) (
          if_AlongPlans file c _ (pure-AlongPlans file c false) (
            bind-AlongPlans file c (call-AlongPlans file c (get_version crates vid))
              (get_version-StaysOpen vid)
              (step-AlongPlans (search (faulty_sqlite crates) version_id last n)
                (search (sqlite crates) version_id last n) (search-AlongPlans n)))))

    search-StaysOpen :
        (n : ℕ) (vid : Uuid) → StaysOpen file c (search (sqlite crates) version_id last n vid)
    unfolding search
    search-StaysOpen zero vid = pure-StaysOpen file c _
    search-StaysOpen (suc n) vid = if_StaysOpen file c _ (pure-StaysOpen file c true) (
        if_StaysOpen file c _ (pure-StaysOpen file c false) (
          if_StaysOpen file c _ (pure-StaysOpen file c false) (
            bind-StaysOpen file c (get_version-StaysOpen vid)
              (step-StaysOpen (search (sqlite crates) version_id last n) (search-StaysOpen n)))))

  store_snapshot-AlongPlans :
      (env : Env) (v : Uuid) (bytes : Bytes) (found : Bool)
      → AlongPlans file c
          (store_snapshot (faulty_sqlite crates) env v bytes found)
          (store_snapshot (sqlite crates) env v bytes found)
  unfolding store_snapshot
  store_snapshot-AlongPlans env v bytes false = pure-AlongPlans file c tt
  store_snapshot-AlongPlans env v bytes true =
      bind-AlongPlans file c
        (call-AlongPlans file c (set_snapshot crates (new_snapshot env v) bytes))
        (call-StaysOpen file c (set_snapshot crates (new_snapshot env v) bytes) λ tables.
          run_call-in_txn crates (Call.call_set_snapshot (new_snapshot env v) bytes) file tables c)
        λ done. commit-AlongPlans file c crates tt

  add_snapshot-AlongPlans :
      (env : Env) (v : Uuid) (bytes : Bytes)
      → AlongPlans file c
          (add_snapshot_in (faulty_sqlite crates) env v bytes)
          (add_snapshot_in (sqlite crates) env v bytes)
  unfolding add_snapshot_in
  add_snapshot-AlongPlans env v bytes =
      bind-AlongPlans file c existing_client-AlongPlans existing_client-StaysOpen λ client.
        if_AlongPlans file c (is_same v (snapshot_version client.snapshot))
          (pure-AlongPlans file c tt)
          (bind-AlongPlans file c (search-AlongPlans v _ snapshot_search_len _)
            (search-StaysOpen v _ snapshot_search_len _)
            λ found. store_snapshot-AlongPlans env v bytes found)

-- On SQLite, with a plan of which calls fail, with which errors and what they have done by then: each
-- method of the server comes to the first call that fails, returns the error of that call and leaves the
-- database as it was; or it ends before that call, and returns and leaves what it does where no call
-- fails.
pub server-IsAllOrNothing :
    (crates : Crates) (plan : Plan) (s : Database) (c v : Uuid) (config : ServerConfig) (env : Env)
    (bytes : Bytes)
    → IsAllOrNothing plan s
        (add_version (faulty_sqlite crates) config env c v bytes (plan, s))
        (add_version (sqlite crates) config env c v bytes s)
      × IsAllOrNothing plan s
          (add_snapshot (faulty_sqlite crates) env c v bytes (plan, s))
          (add_snapshot (sqlite crates) env c v bytes s)
      × IsAllOrNothing plan s
          (get_child_version (faulty_sqlite crates) c v (plan, s))
          (get_child_version (sqlite crates) c v s)
      × IsAllOrNothing plan s
          (get_snapshot (faulty_sqlite crates) c (plan, s))
          (get_snapshot (sqlite crates) c s)
unfolding add_version add_snapshot get_child_version get_snapshot
server-IsAllOrNothing crates plan s c v config env bytes = (
  with_txn-IsAllOrNothing crates s c _ _ (add_version-AlongPlans crates s c config env v bytes)
      plan,
  with_txn-IsAllOrNothing crates s c _ _ (add_snapshot-AlongPlans crates s c env v bytes) plan,
  with_txn-IsAllOrNothing crates s c _ _ (get_child_version-AlongPlans crates s c v) plan,
  with_txn-IsAllOrNothing crates s c _ _ (get_snapshot-AlongPlans crates s c) plan,
)
