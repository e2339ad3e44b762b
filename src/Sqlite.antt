-- ===== src/Sqlite.antt =====
-- sqlite/src/lib.rs: the storage in SQLite. The state of the storage is what the database file holds
-- committed. A transaction has a connection of its own, whose BEGIN IMMEDIATE keeps others out.
pub mod Tables
pub mod Columns
pub mod Select
pub mod Rows
pub mod Views
pub mod Updates
pub mod Reads
pub mod Calls
pub mod Insertion
pub mod Fulfils
pub mod Rollback
pub mod Agreement
pub mod Races
pub mod Forks
pub mod Threads
pub mod Faults
pub mod Tested
use Prim.Native.String.{String}
use text.Mathlib.Text.{◌==◌ as str_eq}
use taskchampion_sync_server.Prelude.{
  ℕ, ◌^◌, ◌==◌, ltb, ◌&&◌, not, Bool, false, Option, none, some, List, if◌then◌else◌,
}
use taskchampion_sync_server.Prelude.Int.{ℤ, pos, negsuc}
use taskchampion_sync_server.Core.Types.{
  Uuid, Bytes, DateTime, Client, Snapshot, Version, StorageError,
}
use taskchampion_sync_server.Core.Txn.{
  Outcome, ok, err, panic, Txn, pure, fail, ◌>>=◌, ◌>>◌, and_then,
}
use taskchampion_sync_server.Core.Storage.{Storage}
use taskchampion_sync_server.Sqlite.Columns.{
  Crates, failed, not_null, nullable, read_u32, optional, parsed, column_result, unwrap,
  snapshot_columns, read_client, read_snapshot_data, checked, read_version, matches,
}
use taskchampion_sync_server.Sqlite.Tables.{
  ClientRow, VersionRow, Database, no_rows, select, update, of_client, replace_client,
  insert_version, set_latest, set_snapshot_columns,
}

-- A connection: what the file holds, and what an open transaction sees.
pub record Connection : Type 0 where
  pub file : Database
  pub pending : Option Database

abbrev pub current_of : Database → Option Database → Database
current_of file none = file
current_of file (some tables) = tables

abbrev pub current : Connection → Database
current con = current_of con.file con.pending

-- A statement outside of a transaction is one by itself.
abbrev written_to : Database → Option Database → Database → Connection
written_to file none tables = record { file = tables; pending = none }
written_to file (some old) tables = record { file = file; pending = some tables }

abbrev pub write : Database → Connection → Connection
write tables con = written_to con.file con.pending tables

pub record SqliteTxn : Type 0 where
  pub con : Connection
  pub client_id : Uuid

-- `SqliteStorage::new` on a file that exists or not: its tables are made if it has none.
abbrev pub new : Option Database → Database
new none = no_rows
new (some tables) = tables

-- BEGIN IMMEDIATE
abbrev begin_immediate : Connection → Outcome StorageError Connection
begin_immediate con = elim con.pending [
  | none ↦ ok (record con { pending = some con.file })
  | some tables ↦ failed "cannot start a transaction within a transaction"
]

unfoldable pub txn : Database → Uuid → Outcome StorageError SqliteTxn
txn file client_id =
    and_then (begin_immediate (record { file = file; pending = none }))
      λ con. ok (record { con = con; client_id = client_id })

-- `UPDATE clients`, in the tables of a connection
abbrev pub update_clients : String → (ClientRow → ClientRow) → Database → Database
update_clients client_id set tables = record tables {
  clients = update (of_client client_id) set tables.clients;
}

module _ (crates : Crates) where
  unfoldable pub get_client : Txn SqliteTxn StorageError (Option Client)
  get_client t = (
    optional (read_client crates)
        (select (of_client (crates.to_string t.client_id)) (current t.con).clients),
    t,
  )

  unfoldable pub new_client : Uuid → Txn SqliteTxn StorageError (Unit {0})
  new_client latest_version_id t =
      let tables = current t.con in
      let clients =
        replace_client (crates.to_string t.client_id) (crates.to_string latest_version_id)
          tables.clients in
      (ok tt, record t { con = write (record tables { clients = clients }) t.con })

  unfoldable pub set_snapshot : Snapshot → Bytes → Txn SqliteTxn StorageError (Unit {0})
  set_snapshot snapshot bytes t =
      let set =
        set_snapshot_columns (crates.to_string snapshot.version_id)
          (crates.timestamp snapshot.timestamp) (pos snapshot.versions_since) bytes in
      (
        ok tt,
        record t {
          con = write (update_clients (crates.to_string t.client_id) set (current t.con)) t.con;
        },
      )

  unfoldable pub get_snapshot_data : Uuid → Txn SqliteTxn StorageError (Option Bytes)
  get_snapshot_data version_id t = (
    and_then
        (optional (read_snapshot_data crates)
          (select (of_client (crates.to_string t.client_id)) (current t.con).clients))
        (checked crates version_id),
    t,
  )

  unfoldable pub get_version_impl :
      (VersionRow → String) → Uuid → Uuid → Txn SqliteTxn StorageError (Option Version)
  get_version_impl column client_id version_id_arg t = (
    optional (read_version crates)
        (select (matches crates column client_id version_id_arg) (current t.con).versions),
    t,
  )

  unfoldable pub get_version_by_parent : Uuid → Txn SqliteTxn StorageError (Option Version)
  get_version_by_parent parent_version_id t =
      get_version_impl (λ row. row.parent_version_id) t.client_id parent_version_id t

  unfoldable pub get_version : Uuid → Txn SqliteTxn StorageError (Option Version)
  get_version version_id t = get_version_impl (λ row. row.version_id) t.client_id version_id t

  -- INSERT INTO versions
  abbrev pub insert_row : VersionRow → Txn SqliteTxn StorageError (Unit {0})
  insert_row row t = elim (insert_version row (current t.con).versions) [
    | none ↦ (failed "UNIQUE constraint failed: versions.version_id", t)
    | some rows ↦
        (ok tt, record t { con = write (record (current t.con) { versions = rows }) t.con })
  ]

  -- the UPDATE of `add_version`
  abbrev pub update_latest : Uuid → Txn SqliteTxn StorageError (Unit {0})
  update_latest version_id t = (
    ok tt,
    record t {
      con =
          write
            (update_clients (crates.to_string t.client_id)
              (set_latest (crates.to_string version_id)) (current t.con))
            t.con;
    },
  )

  unfoldable pub add_version : Uuid → Uuid → Bytes → Txn SqliteTxn StorageError (Unit {0})
  add_version version_id parent_version_id history_segment t =
      (insert_row (record {
        version_id = crates.to_string version_id;
        client_id = crates.to_string t.client_id;
        parent_version_id = crates.to_string parent_version_id;
        history_segment = history_segment;
      })
          >> update_latest version_id)
        t

  -- COMMIT
  unfoldable pub commit : Txn SqliteTxn StorageError (Unit {0})
  commit t = elim t.con.pending [
    | none ↦ (failed "cannot commit - no transaction is active", t)
    | some tables ↦ (ok tt, record t { con = record { file = tables; pending = none } })
  ]

  -- The connection is closed; SQLite rolls back what is not committed.
  unfoldable pub drop : SqliteTxn → Database × Bool
  drop t = (t.con.file, false)

  abbrev pub sqlite : Storage Database SqliteTxn
  sqlite = record {
    txn = txn;
    get_client = get_client;
    new_client = new_client;
    set_snapshot = set_snapshot;
    get_snapshot_data = get_snapshot_data;
    get_version_by_parent = get_version_by_parent;
    get_version = get_version;
    add_version = add_version;
    commit = commit;
    drop = drop;
  }
