-- ===== src/Core/Server/Tested/Snapshots.antt =====
-- The tests of `add_snapshot` and `get_snapshot` in core/src/server.rs.
use taskchampion_sync_server.Prelude.{ℕ, zero, suc, ◌==◌, List, [], ◌∷◌}
use taskchampion_sync_server.Core.Types.{Uuid, Bytes, DateTime, nil_version_id, ServerError}
use taskchampion_sync_server.Core.Txn.{Txn, pure, other?, ◌>>=◌, ◌>>◌}
use taskchampion_sync_server.Core.Storage.{Storage}
use taskchampion_sync_server.Core.Server.{add_snapshot, get_snapshot}
use taskchampion_sync_server.Core.Server.Tested.{
  Fixture, eq_bytes, assert, unwrap, is_none, index, setup, verify, the_client, one_version,
}

-- what the tests send as a snapshot
abbrev pub snapshot_bytes : Bytes
snapshot_bytes = 1 ∷ 2 ∷ 3 ∷ []

module _ {S T : Type 0} (st : Storage S T) (fix : Fixture) where
  -- the test that a client has such a snapshot
  abbrev pub has_snapshot : Uuid → ℕ → Txn T ServerError (Unit {0})
  has_snapshot version_id versions_since = do
    client ← the_client st fix
    snapshot ← unwrap client.snapshot
    assert (snapshot.version_id == version_id)
    assert (snapshot.versions_since == versions_since)
    found ← other? (st.get_snapshot_data version_id)
    bytes ← unwrap found
    assert (eq_bytes bytes snapshot_bytes)

  abbrev pub has_no_snapshot : Txn T ServerError (Unit {0})
  has_no_snapshot = do client ← the_client st fix; is_none client.snapshot

  -- `server.add_snapshot(…)` at a time of no matter
  abbrev pub snapshot_of : Uuid → Bytes → Txn S ServerError (Unit {0})
  snapshot_of version_id bytes =
      add_snapshot st (fix.env nil_version_id) fix.client_id version_id bytes

  -- two versions, of which the second is the latest
  abbrev pub two_versions : Txn T ServerError (Unit {0})
  two_versions = do
    other? (st.new_client (fix.fresh 1))
    other? (st.add_version (fix.fresh 0) nil_version_id [])
    other? (st.add_version (fix.fresh 1) (fix.fresh 0) [])

  -- the loop that adds so many versions, from a number and a parent on
  abbrev pub add_empty : ℕ → ℕ → Uuid → Txn T ServerError (List Uuid)
  add_empty zero i parent_version_id = pure []
  add_empty (suc n) i parent_version_id = do
    other? (st.add_version (fix.fresh i) parent_version_id [])
    version_ids ← add_empty n (suc i) (fix.fresh i)
    pure (fix.fresh i ∷ version_ids)

  abbrev pub add_snapshot_success_latest : Txn S ServerError (Unit {0})
  add_snapshot_success_latest = do
    setup st fix (one_version st fix)
    snapshot_of (fix.fresh 0) snapshot_bytes
    verify st fix (has_snapshot (fix.fresh 0) 0)

  abbrev pub add_snapshot_success_older : Txn S ServerError (Unit {0})
  add_snapshot_success_older = do
    setup st fix two_versions
    snapshot_of (fix.fresh 0) snapshot_bytes
    verify st fix (has_snapshot (fix.fresh 0) 0)

  abbrev pub add_snapshot_fails_no_such : Txn S ServerError (Unit {0})
  add_snapshot_fails_no_such = do
    setup st fix two_versions
    snapshot_of (fix.fresh 2) snapshot_bytes
    verify st fix has_no_snapshot

  abbrev pub add_snapshot_fails_too_old : Txn S ServerError (Unit {0})
  add_snapshot_fails_too_old = do
    version_ids ←
        setup st fix (do other? (st.new_client nil_version_id); add_empty 10 0 nil_version_id)
    oldest ← index version_ids 0
    snapshot_of oldest snapshot_bytes
    verify st fix has_no_snapshot

  -- five versions and a snapshot of the third
  abbrev pub with_middle : DateTime → Txn T ServerError (List Uuid)
  with_middle timestamp = do
    other? (st.new_client nil_version_id)
    version_ids ← add_empty 5 0 nil_version_id
    middle ← index version_ids 2
    other? (
        st.set_snapshot (record { version_id = middle; versions_since = 2; timestamp = timestamp })
          snapshot_bytes)
    pure version_ids

  abbrev pub add_snapshot_fails_newer_exists : DateTime → Txn S ServerError (Unit {0})
  add_snapshot_fails_newer_exists timestamp = do
    version_ids ← setup st fix (with_middle timestamp)
    oldest ← index version_ids 0
    snapshot_of oldest (9 ∷ 9 ∷ 9 ∷ [])
    middle ← index version_ids 2
    verify st fix (has_snapshot middle 2)

  abbrev pub add_snapshot_fails_nil_version : Txn S ServerError (Unit {0})
  add_snapshot_fails_nil_version = do
    setup st fix (other? (st.new_client nil_version_id))
    snapshot_of nil_version_id (9 ∷ 9 ∷ 9 ∷ [])
    verify st fix has_no_snapshot

  abbrev pub get_snapshot_found : DateTime → Txn S ServerError (Unit {0})
  get_snapshot_found timestamp = do
    setup st fix (do
      other? (st.new_client (fix.fresh 0))
      other? (
          st.set_snapshot
            (record { version_id = fix.fresh 0; versions_since = 3; timestamp = timestamp })
            snapshot_bytes))
    found ← get_snapshot st fix.client_id
    snapshot ← unwrap found
    assert (snapshot.0 == fix.fresh 0)
    assert (eq_bytes snapshot.1 snapshot_bytes)

  abbrev pub get_snapshot_not_found : Txn S ServerError (Unit {0})
  get_snapshot_not_found = do
    setup st fix (other? (st.new_client nil_version_id))
    found ← get_snapshot st fix.client_id
    is_none found
