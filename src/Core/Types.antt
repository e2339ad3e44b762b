-- ===== src/Core/Types.antt =====
-- core/src/storage.rs, core/src/error.rs and the types of core/src/server.rs.
use Prim.Native.String.{String}
use taskchampion_sync_server.Prelude.{ℕ, List, Option}
use taskchampion_sync_server.Prelude.Int.{ℤ}

-- A 128-bit identifier of the crate uuid. The program compares identifiers and passes them on.
abbrev pub Uuid : Type 0
Uuid = ℕ

-- `Vec<u8>`
abbrev pub Bytes : Type 0
Bytes = List ℕ

-- An instant of the crate chrono. All that is done with one is an argument of the model.
abbrev pub DateTime : Type 0
DateTime = ℕ

abbrev pub ClientId : Type 0
ClientId = Uuid

abbrev pub VersionId : Type 0
VersionId = Uuid

abbrev pub HistorySegment : Type 0
HistorySegment = Bytes

-- `Uuid::nil()`, the identifier with all bits zero.
abbrev pub nil_version_id : VersionId
nil_version_id = 0

pub record Snapshot : Type 0 where
  pub version_id : Uuid
  pub timestamp : DateTime
  pub versions_since : ℕ

pub record Client : Type 0 where
  pub latest_version_id : Uuid
  pub snapshot : Option Snapshot

pub record Version : Type 0 where
  pub version_id : Uuid
  pub parent_version_id : Uuid
  pub history_segment : Bytes

-- The errors that a storage reports, `anyhow::Error`: those that the storage in memory makes
-- itself, and `backend` for what a database or the system reports.
pub data StorageError : Type 0 where
  client_already_exists : Uuid → StorageError
  no_such_client : StorageError
  unexpected_snapshot_version_id : StorageError
  client_does_not_exist : Uuid → StorageError
  already_has_child : Uuid → Uuid → StorageError
  already_has_version : Uuid → Uuid → StorageError
  backend : String → StorageError

pub data ServerError : Type 0 where
  no_such_client : ServerError
  other : StorageError → ServerError

-- Response to get_child_version
pub data GetVersionResult : Type 0 where
  not_found : GetVersionResult
  gone : GetVersionResult
  success : Uuid → Uuid → HistorySegment → GetVersionResult

-- Response to add_version
pub data AddVersionResult : Type 0 where
  ok : VersionId → AddVersionResult
  expected_parent_version : VersionId → AddVersionResult

pub data SnapshotUrgency : Type 0 where
  none low high : SnapshotUrgency

pub record ServerConfig : Type 0 where
  pub snapshot_days : ℤ
  pub snapshot_versions : ℕ
