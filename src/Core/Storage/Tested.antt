-- ===== src/Core/Storage/Tested.antt =====
-- The tests of core/src/inmemory.rs and sqlite/src/lib.rs, as programs over any storage. They are the same
-- but for the commit at the end, and for the clients that the tests in memory create first.
use taskchampion_sync_server.Prelude.{◌==◌, ◌&&◌, Bool, Option, [], ◌∷◌}
use taskchampion_sync_server.Core.Types.{
  Uuid, Bytes, DateTime, Client, Snapshot, Version, ServerError,
}
use taskchampion_sync_server.Core.Txn.{Outcome, ok, err, panic, Txn, pure, other?, ◌>>=◌, ◌>>◌}
use taskchampion_sync_server.Core.Storage.{Storage, with_txn}
use taskchampion_sync_server.Core.Server.Tested.{
  Fixture, eq_bytes, assert, unwrap, is_none, the_client,
}

-- the derived equalities
abbrev pub eq_snapshot : Snapshot → Snapshot → Bool
eq_snapshot a b =
    a.version_id == b.version_id
    && a.timestamp == b.timestamp
    && a.versions_since == b.versions_since

abbrev pub eq_version : Version → Version → Bool
eq_version a b =
    a.version_id == b.version_id
    && a.parent_version_id == b.parent_version_id
    && eq_bytes a.history_segment b.history_segment

-- `assert!(… .is_err())`
abbrev pub refused : {A : Type 0} → Outcome ServerError A → Outcome ServerError (Unit {0})
refused (ok a) = panic
refused (err e) = ok tt
refused panic = panic

abbrev pub is_err : {T A : Type 0} → Txn T ServerError A → Txn T ServerError (Unit {0})
is_err m t = let (r, t') = m t in (refused r, t')

module _ {S T : Type 0} (st : Storage S T) (fix : Fixture) (timestamp later : DateTime) where
  -- a test that leaves its transaction, and one that commits it
  abbrev pub left : Txn T ServerError (Unit {0}) → Txn S ServerError (Unit {0})
  left body s = with_txn st s fix.client_id body

  abbrev pub committed : Txn T ServerError (Unit {0}) → Txn S ServerError (Unit {0})
  committed body = left do body; other? st.commit

  abbrev pub get_client_empty : Txn T ServerError (Unit {0})
  get_client_empty = do maybe_client ← other? st.get_client; is_none maybe_client

  abbrev pub gvbp_empty : Txn T ServerError (Unit {0})
  gvbp_empty = do
    maybe_version ← other? (st.get_version_by_parent (fix.fresh 0))
    is_none maybe_version

  -- the client has this latest version and no snapshot
  abbrev pub latest_is : Uuid → Txn T ServerError (Unit {0})
  latest_is latest_version_id = do
    client ← the_client st fix
    assert (client.latest_version_id == latest_version_id)
    is_none client.snapshot

  -- the client has this snapshot
  abbrev pub snapshot_is : Snapshot → Txn T ServerError Client
  snapshot_is snap = do
    client ← the_client st fix
    stored ← unwrap client.snapshot
    assert (eq_snapshot stored snap)
    pure client

  abbrev pub snap_of : Uuid → DateTime → Snapshot
  snap_of version_id time = record { version_id = version_id; timestamp = time; versions_since = 4 }

  abbrev pub client_storage : Txn T ServerError (Unit {0})
  client_storage = do
    other? (st.new_client (fix.fresh 0))
    latest_is (fix.fresh 0)
    other? (st.add_version (fix.fresh 1) (fix.fresh 2) (1 ∷ 1 ∷ []))
    latest_is (fix.fresh 1)
    other? (st.set_snapshot (snap_of (fix.fresh 3) timestamp) (1 ∷ 2 ∷ 3 ∷ []))
    client ← snapshot_is (snap_of (fix.fresh 3) timestamp)
    assert (client.latest_version_id == fix.fresh 1)

  abbrev pub abc : Bytes
  abc = 97 ∷ 98 ∷ 99 ∷ []

  abbrev pub version_is : Option Version → Txn T ServerError (Unit {0})
  version_is found = do
    version ← unwrap found
    assert (
        eq_version version (record {
          version_id = fix.fresh 0;
          parent_version_id = fix.fresh 1;
          history_segment = abc;
        }))

  abbrev pub add_version_and_get_version : Txn T ServerError (Unit {0})
  add_version_and_get_version = do
    other? (st.add_version (fix.fresh 0) (fix.fresh 1) abc)
    found ← other? (st.get_version_by_parent (fix.fresh 1))
    version_is found
    found ← other? (st.get_version (fix.fresh 0))
    version_is found

  abbrev pub add_version_exists : Txn T ServerError (Unit {0})
  add_version_exists = do
    other? (st.add_version (fix.fresh 0) (fix.fresh 1) abc)
    is_err (other? (st.add_version (fix.fresh 0) (fix.fresh 1) abc))

  -- a snapshot is stored and read
  abbrev pub store_snap : Snapshot → Bytes → Txn T ServerError (Unit {0})
  store_snap snap bytes = do
    other? (st.set_snapshot snap bytes)
    found ← other? (st.get_snapshot_data snap.version_id)
    stored ← unwrap found
    assert (eq_bytes stored bytes)
    client ← snapshot_is snap
    pure tt

  abbrev pub snapshots : Txn T ServerError (Unit {0})
  snapshots = do
    other? (st.new_client (fix.fresh 0))
    client ← the_client st fix
    is_none client.snapshot
    store_snap (record { version_id = fix.fresh 1; timestamp = timestamp; versions_since = 3 })
        (9 ∷ 8 ∷ 9 ∷ [])
    store_snap (record { version_id = fix.fresh 2; timestamp = later; versions_since = 10 })
        (0 ∷ 2 ∷ 4 ∷ 6 ∷ [])
    is_err (other? (st.get_snapshot_data (fix.fresh 3)))

  -- the tests in memory that create the client first
  abbrev pub after_client : Txn T ServerError (Unit {0}) → Txn T ServerError (Unit {0})
  after_client body = do other? (st.new_client (fix.fresh 1)); body
