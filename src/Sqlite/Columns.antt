-- ===== src/Sqlite/Columns.antt =====
-- How sqlite/src/lib.rs reads the columns of a row.
use Prim.Native.String.{String}
use text.Mathlib.Text.{◌==◌ as str_eq}
use taskchampion_sync_server.Prelude.{
  ℕ, ◌^◌, ◌==◌, ltb, ◌&&◌, not, Bool, Option, none, some, if◌then◌else◌,
}
use taskchampion_sync_server.Prelude.Int.{ℤ, pos, negsuc}
use taskchampion_sync_server.Core.Types.{
  Uuid, Bytes, DateTime, Client, Snapshot, Version, StorageError,
}
use taskchampion_sync_server.Core.Txn.{Outcome, ok, err, panic, and_then}
use taskchampion_sync_server.Sqlite.Tables.{ClientRow, VersionRow}

-- What the crates uuid and chrono do: an identifier as text and back, and a time as seconds since 1970
-- and back.
pub record Crates : Type 0 where
  pub to_string : Uuid → String
  pub parse_str : String → Option Uuid
  pub timestamp : DateTime → ℤ
  pub timestamp_opt : ℤ → Option DateTime

abbrev pub failed : {A : Type 0} → String → Outcome StorageError A
failed message = err (StorageError.backend message)

-- a column that must not be NULL
abbrev pub not_null : {A : Type 0} → Option A → Outcome StorageError A
not_null none = failed "InvalidColumnType"
not_null (some a) = ok a

-- a column that is read as an `Option`
abbrev pub nullable :
    {A B : Type 0} → (A → Outcome StorageError B) → Option A → Outcome StorageError (Option B)
nullable read none = ok none
nullable read (some a) = and_then (read a) λ b. ok (some b)

-- an INTEGER that is read as a `u32`
abbrev pub read_u32 : ℤ → Outcome StorageError ℕ
read_u32 (pos n) = if ltb n (2 ^ 32) then ok n else failed "IntegralValueOutOfRange"
read_u32 (negsuc n) = failed "IntegralValueOutOfRange"

-- `query_row(…).optional()`
abbrev pub optional :
    {R A : Type 0} → (R → Outcome StorageError A) → Option R → Outcome StorageError (Option A)
optional read none = ok none
optional read (some row) = and_then (read row) λ a. ok (some a)

module _ (crates : Crates) where
  abbrev pub parsed : Option Uuid → Outcome StorageError Uuid
  parsed none = failed "InvalidType"
  parsed (some id) = ok id

  -- `column_result` of `StoredUuid`
  abbrev pub column_result : String → Outcome StorageError Uuid
  column_result text = parsed (crates.parse_str text)

  -- `Utc.timestamp_opt(ts, 0).unwrap()`
  abbrev pub unwrap : Option DateTime → Outcome StorageError DateTime
  unwrap none = panic
  unwrap (some time) = ok time

  abbrev pub snapshot_columns :
      Option ℤ → Option ℕ → Option Uuid → Outcome StorageError (Option Snapshot)
  snapshot_columns (some ts) (some vs) (some v) =
      and_then (unwrap (crates.timestamp_opt ts))
        λ time. ok (some (record { version_id = v; timestamp = time; versions_since = vs }))
  snapshot_columns (some ts) (some vs) none = ok none
  snapshot_columns (some ts) none v = ok none
  snapshot_columns none vs v = ok none

  abbrev pub read_client : ClientRow → Outcome StorageError Client
  read_client row = and_then (and_then (not_null row.latest_version_id) column_result) λ latest.
      and_then (nullable read_u32 row.versions_since_snapshot) λ vs.
        and_then (nullable column_result row.snapshot_version_id) λ v.
          and_then (snapshot_columns row.snapshot_timestamp vs v)
            λ snapshot. ok (record { latest_version_id = latest; snapshot = snapshot })

  abbrev pub read_snapshot_data : ClientRow → Outcome StorageError (Uuid × Bytes)
  read_snapshot_data row =
      and_then (and_then (not_null row.snapshot_version_id) column_result)
        λ v. and_then (not_null row.snapshot) λ d. ok (v, d)

  abbrev pub checked : Uuid → Option (Uuid × Bytes) → Outcome StorageError (Option Bytes)
  checked version_id none = ok none
  checked version_id (some (v, d)) =
      if not (v == version_id) then err StorageError.unexpected_snapshot_version_id else ok (some d)

  abbrev pub read_version : VersionRow → Outcome StorageError Version
  read_version row = and_then (column_result row.version_id) λ v.
      and_then (column_result row.parent_version_id) λ p.
        ok (record { version_id = v; parent_version_id = p; history_segment = row.history_segment })

  -- the queries of `get_version_impl`, which differ in the column that is compared
  abbrev pub matches : (VersionRow → String) → Uuid → Uuid → VersionRow → Bool
  matches column client_id version_id_arg row =
      str_eq (column row) (crates.to_string version_id_arg)
      && str_eq row.client_id (crates.to_string client_id)
