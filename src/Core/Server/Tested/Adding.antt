-- ===== src/Core/Server/Tested/Adding.antt =====
-- The tests of `add_version` in core/src/server.rs.
use taskchampion_sync_server.Prelude.{
  ℕ, zero, suc, ◌%◌, ◌==◌, not, Option, none, some, List, [], ◌∷◌, contains, if◌then◌else◌,
}
use taskchampion_sync_server.Core.Types.{
  Uuid, Bytes, nil_version_id, Snapshot, ServerError, ServerConfig, AddVersionResult,
  SnapshotUrgency,
}
use taskchampion_sync_server.Core.Txn.{Txn, pure, crash, other?, ◌>>=◌, ◌>>◌}
use taskchampion_sync_server.Core.Storage.{Storage}
use taskchampion_sync_server.Core.Urgency.{default_config}
use taskchampion_sync_server.Core.Server.{add_version, is_same}
use taskchampion_sync_server.Core.Server.Tested.{
  Fixture, eq_bytes, eq_urgency, eq_added, assert, unwrap, is_none, index, setup, verify,
  the_client,
}

-- `existing_versions.last().cloned().unwrap_or_else(Uuid::nil)`
abbrev pub last_or_nil : List Uuid → Uuid
last_or_nil [] = nil_version_id
last_or_nil (v ∷ []) = v
last_or_nil (v ∷ w ∷ vs) = last_or_nil (w ∷ vs)

abbrev pub days_or_zero : Option ℕ → ℕ
days_or_zero none = 0
days_or_zero (some n) = n

module _ {S T : Type 0} (st : Storage S T) (fix : Fixture) where
  -- the `if Some(vnum) == snapshot_version` of `av_setup`
  abbrev pub take_snapshot : ℕ → Option ℕ → Option ℕ → Txn T ServerError (Unit {0})
  take_snapshot vnum snapshot_version snapshot_days_ago =
      let snapshot : Snapshot = record {
        version_id = fix.fresh vnum;
        versions_since = 0;
        timestamp = fix.days_ago (days_or_zero snapshot_days_ago);
      } in
      if is_same vnum snapshot_version
      then other? (st.set_snapshot snapshot (vnum % 256 ∷ []))
      else pure tt

  -- the loop of `av_setup`, with so many rounds to go
  abbrev pub add_versions : ℕ → ℕ → Uuid → Option ℕ → Option ℕ → Txn T ServerError (List Uuid)
  add_versions zero vnum parent_version_id snapshot_version snapshot_days_ago = pure []
  add_versions (suc n) vnum parent_version_id snapshot_version snapshot_days_ago = do
    other? (st.add_version (fix.fresh vnum) parent_version_id (0 ∷ 0 ∷ vnum % 256 ∷ []))
    take_snapshot vnum snapshot_version snapshot_days_ago
    versions ← add_versions n (suc vnum) (fix.fresh vnum) snapshot_version snapshot_days_ago
    pure (fix.fresh vnum ∷ versions)

  abbrev pub av_setup : ℕ → Option ℕ → Option ℕ → Txn S ServerError (List Uuid)
  av_setup num_versions snapshot_version snapshot_days_ago = setup st fix do
    other? (st.new_client nil_version_id)
    add_versions num_versions 0 nil_version_id snapshot_version snapshot_days_ago

  -- the assertions of `av_success_check` on a version that was added
  abbrev pub stored_check : List Uuid → Uuid → Bytes → Txn T ServerError (Unit {0})
  stored_check existing_versions new_version_id expected_history = do
    client ← the_client st fix
    assert (client.latest_version_id == new_version_id)
    found ← other? (st.get_version new_version_id)
    version ← unwrap found
    assert (version.version_id == new_version_id)
    assert (version.parent_version_id == last_or_nil existing_versions)
    assert (eq_bytes version.history_segment expected_history)

  abbrev pub av_success_check :
      List Uuid
      → AddVersionResult × SnapshotUrgency
      → Bytes
      → SnapshotUrgency
      → Txn S ServerError (Unit {0})
  av_success_check existing_versions (AddVersionResult.ok v, urgency) expected expected_urgency = do
    assert (not (contains existing_versions v))
    verify st fix (stored_check existing_versions v expected)
    assert (eq_urgency urgency expected_urgency)
  av_success_check existing_versions (AddVersionResult.expected_parent_version v, urgency) expected
        expected_urgency =
      crash

  -- the tests that add a child of the last version and expect it to be stored
  abbrev pub add_to :
      ServerConfig
      → List Uuid
      → Uuid
      → Uuid
      → Bytes
      → SnapshotUrgency
      → Txn S ServerError (Unit {0})
  add_to config versions parent_version_id id bytes expected_urgency = do
    result ← add_version st config (fix.env id) fix.client_id parent_version_id bytes
    av_success_check versions result bytes expected_urgency

  abbrev pub add_version_conflict : Txn S ServerError (Unit {0})
  add_version_conflict = do
    versions ← av_setup 3 none none
    parent ← index versions 1
    latest ← index versions 2
    result ←
        add_version st default_config (fix.env (fix.fresh 3)) fix.client_id parent (3 ∷ 6 ∷ 9 ∷ [])
    assert (eq_added result.0 (AddVersionResult.expected_parent_version latest))
    verify st fix (do
      client ← the_client st fix
      assert (client.latest_version_id == latest)
      child ← other? (st.get_version_by_parent latest)
      is_none child)

  abbrev pub add_version_with_existing_history : Txn S ServerError (Unit {0})
  add_version_with_existing_history = do
    versions ← av_setup 1 none none
    parent ← index versions 0
    add_to default_config versions parent (fix.fresh 1) (3 ∷ 6 ∷ 9 ∷ []) SnapshotUrgency.high

  abbrev pub add_version_with_no_history : Txn S ServerError (Unit {0})
  add_version_with_no_history = do
    versions ← av_setup 0 none none
    add_to default_config versions nil_version_id (fix.fresh 0) (3 ∷ 6 ∷ 9 ∷ [])
        SnapshotUrgency.high

  abbrev pub add_version_success_recent_snapshot : Txn S ServerError (Unit {0})
  add_version_success_recent_snapshot = do
    versions ← av_setup 1 (some 0) none
    parent ← index versions 0
    add_to default_config versions parent (fix.fresh 1) (1 ∷ 2 ∷ 3 ∷ []) SnapshotUrgency.none

  abbrev pub add_version_success_aged_snapshot : Txn S ServerError (Unit {0})
  add_version_success_aged_snapshot = do
    versions ← av_setup 1 (some 0) (some 50)
    parent ← index versions 0
    add_to default_config versions parent (fix.fresh 1) (1 ∷ 2 ∷ 3 ∷ []) SnapshotUrgency.high

  abbrev pub add_version_success_snapshot_many_versions_ago : Txn S ServerError (Unit {0})
  add_version_success_snapshot_many_versions_ago =
      let config : ServerConfig = record default_config { snapshot_versions = 30 } in
      do
        versions ← av_setup 50 (some 0) none
        parent ← index versions 49
        add_to config versions parent (fix.fresh 50) (1 ∷ 2 ∷ 3 ∷ []) SnapshotUrgency.high
