-- ===== src/Core/Server.antt =====
-- `Server` of core/src/server.rs, over any storage. A method takes the state of the storage and
-- returns the new one with its result.
pub mod Runs
pub mod GetChildVersion
pub mod GetSnapshot
pub mod AddSnapshot
pub mod AddVersion
pub mod Tested
use taskchampion_sync_server.Prelude.{
  ℕ, zero, suc, ◌==◌, not, ◌&&◌, ◌||◌, Bool, true, false, Option, none, some, if◌then◌else◌,
}
use taskchampion_sync_server.Prelude.Int.{ℤ}
use taskchampion_sync_server.Core.Types.{
  Uuid, Bytes, DateTime, ClientId, VersionId, HistorySegment, nil_version_id, Client, Snapshot,
  Version, StorageError, ServerError, GetVersionResult, AddVersionResult, SnapshotUrgency,
  ServerConfig,
}
use taskchampion_sync_server.Core.Txn.{Outcome, Txn, pure, ok_or, ◌>>=◌, ◌>>◌, other?}
use taskchampion_sync_server.Core.Storage.{Storage, with_txn}
use taskchampion_sync_server.Core.Urgency.{for_days, for_versions_since, max_urgency}

-- What a call gets from outside: a fresh identifier (`Uuid::new_v4()`), the time (`Utc::now()`),
-- and the whole days from the second instant to the first (`(a - b).num_days()`).
pub record Env : Type 0 where
  pub new_v4 : Uuid
  pub now : DateTime
  pub num_days : DateTime → DateTime → ℤ

-- `Some(a) == b`
abbrev pub is_same : Uuid → Option Uuid → Bool
is_same a none = false
is_same a (some b) = a == b

abbrev pub snapshot_version : Option Snapshot → Option Uuid
snapshot_version none = none
snapshot_version (some snap) = some snap.version_id

-- `const SNAPSHOT_SEARCH_LEN`
abbrev pub snapshot_search_len : ℕ
snapshot_search_len = 5

module _ (config : ServerConfig) (env : Env) where
  -- the two `match client.snapshot` of `add_version` and the larger of their results
  unfoldable pub urgency : Option Snapshot → SnapshotUrgency
  urgency none = max_urgency SnapshotUrgency.high SnapshotUrgency.high
  urgency (some snap) =
      max_urgency (for_days config (env.num_days env.now snap.timestamp))
        (for_versions_since config snap.versions_since)

-- The answer of `get_child_version` where no version has the parent that was asked for.
abbrev pub missing_child : Client → VersionId → GetVersionResult
missing_child client parent_version_id =
    if client.latest_version_id == parent_version_id || client.latest_version_id == nil_version_id
    then GetVersionResult.not_found
    else GetVersionResult.gone

abbrev pub child_result : Client → VersionId → Option Version → GetVersionResult
child_result client parent_version_id none = missing_child client parent_version_id
child_result client parent_version_id (some version) =
    GetVersionResult.success version.version_id version.parent_version_id version.history_segment

-- The test of `add_version`: there is a latest version, and it is not the parent.
abbrev pub is_mismatch : Client → VersionId → Bool
is_mismatch client parent_version_id =
    not (client.latest_version_id == nil_version_id)
    && not (parent_version_id == client.latest_version_id)

abbrev pub conflict : Client → AddVersionResult × SnapshotUrgency
conflict client =
    (AddVersionResult.expected_parent_version client.latest_version_id, SnapshotUrgency.none)

abbrev pub new_snapshot : Env → VersionId → Snapshot
new_snapshot env version_id = record {
  version_id = version_id;
  timestamp = env.now;
  versions_since = 0;
}

abbrev pub snapshot_answer : Uuid → Option Bytes → Option (Uuid × Bytes)
snapshot_answer version_id none = none
snapshot_answer version_id (some bytes) = some (version_id, bytes)

-- Each method opens a transaction, runs the body here named `_in` in it, and drops it.
module _ {S T : Type 0} (st : Storage S T) where
  -- `txn.get_client()?.ok_or(ServerError::NoSuchClient)?`
  abbrev pub existing_client : Txn T ServerError Client
  existing_client = do found ← other? st.get_client; ok_or found ServerError.no_such_client

  unfoldable pub get_child_version_in : VersionId → Txn T ServerError GetVersionResult
  get_child_version_in parent_version_id = do
    client ← existing_client
    version ← other? (st.get_version_by_parent parent_version_id)
    pure (child_result client parent_version_id version)

  unfoldable pub get_child_version :
      ClientId → VersionId → S → Outcome ServerError GetVersionResult × S
  get_child_version client_id parent_version_id s =
      with_txn st s client_id (get_child_version_in parent_version_id)

  unfoldable pub add_version_in :
      ServerConfig
      → Env
      → VersionId
      → HistorySegment
      → Txn T ServerError (AddVersionResult × SnapshotUrgency)
  add_version_in config env parent_version_id history_segment = do
    client ← existing_client
    if is_mismatch client parent_version_id then pure (conflict client) else do
      other? (st.add_version env.new_v4 parent_version_id history_segment)
      other? st.commit
      pure (AddVersionResult.ok env.new_v4, urgency config env client.snapshot)

  unfoldable pub add_version :
      ServerConfig
      → Env
      → ClientId
      → VersionId
      → HistorySegment
      → S
      → Outcome ServerError (AddVersionResult × SnapshotUrgency) × S
  add_version config env client_id parent_version_id history_segment s =
      with_txn st s client_id (add_version_in config env parent_version_id history_segment)

  -- The loop of `add_snapshot`, from the version `vid` with the counter `search_len`. It ends with
  -- `true` where the loop breaks, and with `false` where the function returns.
  unfoldable pub search : VersionId → Option Uuid → ℕ → VersionId → Txn T ServerError Bool
  search version_id last_snapshot zero vid =
      pure (vid == version_id && not (version_id == nil_version_id))
  search version_id last_snapshot (suc search_len) vid =
      let rest : Option Version → Txn T ServerError Bool = elim [
        | none ↦ pure false
        | some parent ↦ search version_id last_snapshot search_len parent.parent_version_id
      ] in
      if vid == version_id && not (version_id == nil_version_id)
      then pure true
      else if is_same vid last_snapshot
      then pure false
      else if search_len == 0 || vid == nil_version_id
      then pure false
      else do parent ← other? (st.get_version vid); rest parent

  -- what `add_snapshot` does after the loop
  unfoldable pub store_snapshot : Env → VersionId → Bytes → Bool → Txn T ServerError (Unit {0})
  store_snapshot env version_id body false = pure tt
  store_snapshot env version_id body true = do
    other? (st.set_snapshot (new_snapshot env version_id) body)
    other? st.commit
    pure tt

  unfoldable pub add_snapshot_in : Env → VersionId → Bytes → Txn T ServerError (Unit {0})
  add_snapshot_in env version_id body = do
    client ← existing_client
    let last_snapshot = snapshot_version client.snapshot
    if is_same version_id last_snapshot then pure tt else do
      found ← search version_id last_snapshot snapshot_search_len client.latest_version_id
      store_snapshot env version_id body found

  unfoldable pub add_snapshot :
      Env → ClientId → VersionId → Bytes → S → Outcome ServerError (Unit {0}) × S
  add_snapshot env client_id version_id body s =
      with_txn st s client_id (add_snapshot_in env version_id body)

  abbrev pub read_snapshot : Option Snapshot → Txn T ServerError (Option (Uuid × Bytes))
  read_snapshot none = pure none
  read_snapshot (some snap) = do
    found ← other? (st.get_snapshot_data snap.version_id)
    pure (snapshot_answer snap.version_id found)

  unfoldable pub get_snapshot_in : Txn T ServerError (Option (Uuid × Bytes))
  get_snapshot_in = do client ← existing_client; read_snapshot client.snapshot

  unfoldable pub get_snapshot : ClientId → S → Outcome ServerError (Option (Uuid × Bytes)) × S
  get_snapshot client_id s = with_txn st s client_id get_snapshot_in
