-- ===== src/Core/InMemory.antt =====
-- core/src/inmemory.rs: the storage in memory. The lock is held from `txn` to the drop, so an open
-- transaction has the maps for itself. A panic while it is held poisons the lock.
pub mod Fulfils
pub mod Failures
pub mod Drops
pub mod Tested
use taskchampion_sync_server.Prelude.{
  ◌+◌, ◌%◌, ◌^◌, ◌&&◌, not, Bool, true, false, Option, none, some, if◌then◌else◌,
}
use taskchampion_sync_server.HashMap.{HashMap, empty, contains_key, insert, uuid_eq, pair_eq}
use taskchampion_sync_server.Core.Types.{Uuid, Bytes, Client, Snapshot, Version, StorageError}
use taskchampion_sync_server.Core.Txn.{Outcome, ok, panic, Txn, pure, fail}
use taskchampion_sync_server.Core.Storage.{Storage}
use taskchampion_sync_server.Core.Server.{is_same, snapshot_version}

pub record Inner : Type 0 where
  pub clients : HashMap Uuid Client
  pub snapshots : HashMap Uuid Bytes
  pub versions : HashMap (Uuid × Uuid) Version
  pub children : HashMap (Uuid × Uuid) Uuid

-- `InMemoryStorage(Mutex<Inner>)`
pub record InMemoryStorage : Type 0 where
  pub inner : Inner
  pub poisoned : Bool

abbrev pub new : InMemoryStorage
new = record {
  inner = record { clients = empty; snapshots = empty; versions = empty; children = empty };
  poisoned = false;
}

pub record InnerTxn : Type 0 where
  pub client_id : Uuid
  pub guard : Inner
  pub written : Bool
  pub committed : Bool

unfoldable pub txn : InMemoryStorage → Uuid → Outcome StorageError InnerTxn
txn storage client_id =
    if storage.poisoned
    then panic
    else ok (record {
      client_id = client_id;
      guard = storage.inner;
      written = false;
      committed = false;
    })

unfoldable pub get_client : Txn InnerTxn StorageError (Option Client)
get_client t = pure (t.guard.clients t.client_id) t

unfoldable pub new_client : Uuid → Txn InnerTxn StorageError (Unit {0})
new_client latest_version_id t =
    if contains_key t.guard.clients t.client_id
    then fail (StorageError.client_already_exists t.client_id) t
    else (
      ok tt,
      record t {
        guard = record t.guard {
          clients =
              insert t.guard.clients t.client_id
                (record { latest_version_id = latest_version_id; snapshot = none });
        };
        written = true;
      },
    )

unfoldable pub set_snapshot : Snapshot → Bytes → Txn InnerTxn StorageError (Unit {0})
set_snapshot snapshot bytes t = elim (t.guard.clients t.client_id) [
  | none ↦ fail StorageError.no_such_client t
  | some client ↦ (
    ok tt,
    record t {
      guard = record t.guard {
        clients = insert t.guard.clients t.client_id (record client { snapshot = some snapshot });
        snapshots = insert t.guard.snapshots t.client_id bytes;
      };
      written = true;
    },
  )
]

unfoldable pub get_snapshot_data : Uuid → Txn InnerTxn StorageError (Option Bytes)
get_snapshot_data version_id t = elim (t.guard.clients t.client_id) [
  | none ↦ fail StorageError.no_such_client t
  | some client ↦
      if not (is_same version_id (snapshot_version client.snapshot))
      then fail StorageError.unexpected_snapshot_version_id t
      else pure (t.guard.snapshots t.client_id) t
]

unfoldable pub get_version_by_parent : Uuid → Txn InnerTxn StorageError (Option Version)
get_version_by_parent parent_version_id t =
    elim (t.guard.children (t.client_id, parent_version_id)) [
      | none ↦ pure none t
      | some child ↦ pure (t.guard.versions (t.client_id, child)) t
    ]

unfoldable pub get_version : Uuid → Txn InnerTxn StorageError (Option Version)
get_version version_id t = pure (t.guard.versions (t.client_id, version_id)) t

-- `snap.versions_since += 1` on a `u32`, if there is a snapshot
abbrev pub count_version : Option Snapshot → Option Snapshot
count_version none = none
count_version (some snap) =
    some (record snap { versions_since = (snap.versions_since + 1) % 2 ^ 32 })

abbrev pub advance : Client → Uuid → Client
advance client version_id = record {
  latest_version_id = version_id;
  snapshot = count_version client.snapshot;
}

-- Each `insert` has been made when its old value is looked at, and so has the change of the client.
unfoldable pub add_version : Uuid → Uuid → Bytes → Txn InnerTxn StorageError (Unit {0})
add_version version_id parent_version_id history_segment t = elim (t.guard.clients t.client_id) [
  | none ↦ fail (StorageError.client_does_not_exist t.client_id) t
  | some client ↦
      let clients = insert t.guard.clients t.client_id (advance client version_id) in
      let child_key : Uuid × Uuid = (t.client_id, parent_version_id) in
      let version_key : Uuid × Uuid = (t.client_id, version_id) in
      let children = insert t.guard.children child_key version_id in
      let version : Version = record {
        version_id = version_id;
        parent_version_id = parent_version_id;
        history_segment = history_segment;
      } in
      let versions = insert t.guard.versions version_key version in
      if contains_key t.guard.children child_key
      then fail (StorageError.already_has_child t.client_id parent_version_id)
          (record t { guard = record t.guard { clients = clients; children = children } })
      else if contains_key t.guard.versions version_key
      then fail (StorageError.already_has_version t.client_id version_id) (record t {
        guard = record t.guard { clients = clients; children = children; versions = versions };
      })
      else (
        ok tt,
        record t {
          guard = record t.guard { clients = clients; children = children; versions = versions };
          written = true;
        },
      )
]

unfoldable pub commit : Txn InnerTxn StorageError (Unit {0})
commit t = (ok tt, record t { committed = true })

-- `drop`: the panic of a written transaction that was not committed, under the lock.
unfoldable pub drop : InnerTxn → InMemoryStorage × Bool
drop t =
    let panics = t.written && not t.committed in
    (record { inner = t.guard; poisoned = panics }, panics)

abbrev pub in_memory : Storage InMemoryStorage InnerTxn
in_memory = record {
  txn = txn;
  get_client = get_client;
  new_client = new_client;
  set_snapshot = set_snapshot;
  get_snapshot_data = get_snapshot_data;
  get_version_by_parent = get_version_by_parent;
  get_version = get_version;
  add_version = add_version;
  commit = commit;
  drop = drop;
}
