-- ===== src/Sqlite/Rows.antt =====
-- The rows that sqlite/src/lib.rs writes, and what it reads from them.
use Prim.Native.String.{String}
use text.Mathlib.Text.{◌==◌ as str_eq}
use text.Mathlib.TextEquality.{eq_iff}
use taskchampion_sync_server.Prelude.{◌+◌, ◌^◌, ◌<◌, ◌==◌, ◌≡◌, refl, Option, none, some, arith}
use taskchampion_sync_server.Prelude.Int.{pos}
use taskchampion_sync_server.Core.Types.{Uuid, Bytes, DateTime, Snapshot, Version}
use taskchampion_sync_server.Core.Txn.{ok}
use taskchampion_sync_server.Core.Storage.Contract.{count_version, CanCount}
use taskchampion_sync_server.Sqlite.Tables.{ClientRow, VersionRow, set_latest, set_snapshot_columns}
use taskchampion_sync_server.Sqlite.Columns.{Crates, read_client, read_version}

-- What is relied on: an identifier is read back from its text, and a time from its seconds, up to a
-- precision.
pub record Lawful (crates : Crates) : Type 0 where
  pub parse_str-to_string : (u : Uuid) → crates.parse_str (crates.to_string u) ≡ some u
  pub kept : DateTime → DateTime
  pub timestamp_opt-timestamp :
      (t : DateTime) → crates.timestamp_opt (crates.timestamp t) ≡ some (kept t)

module _ (crates : Crates) where
  -- the row of a client with a snapshot and its data, or with none
  abbrev pub client_row : String → Uuid → Option (Snapshot × Bytes) → ClientRow
  client_row id latest none = record {
    client_id = id;
    latest_version_id = some (crates.to_string latest);
    snapshot_version_id = none;
    versions_since_snapshot = none;
    snapshot_timestamp = none;
    snapshot = none;
  }
  client_row id latest (some (snap, bytes)) = record {
    client_id = id;
    latest_version_id = some (crates.to_string latest);
    snapshot_version_id = some (crates.to_string snap.version_id);
    versions_since_snapshot = some (pos snap.versions_since);
    snapshot_timestamp = some (crates.timestamp snap.timestamp);
    snapshot = some bytes;
  }

  abbrev pub version_row : Uuid → Version → VersionRow
  version_row c ver = record {
    version_id = crates.to_string ver.version_id;
    client_id = crates.to_string c;
    parent_version_id = crates.to_string ver.parent_version_id;
    history_segment = ver.history_segment;
  }

  -- the counter of the snapshot is a `u32`
  abbrev pub Fits : Option (Snapshot × Bytes) → Type 0
  Fits none = Unit
  Fits (some (snap, bytes)) = snap.versions_since < 2 ^ 32

  abbrev pub IsClientRow : ClientRow → Type 0
  IsClientRow row =
      (id : String) × (latest : Uuid) × (kept : Option (Snapshot × Bytes)) × (row
        ≡ client_row id latest kept)
      × Fits kept

  abbrev pub IsVersionRow : VersionRow → Type 0
  IsVersionRow row = (c : Uuid) × (ver : Version) × (row ≡ version_row c ver)

  module _ (laws : Lawful crates) where
    abbrev pub snapshot_of : Option (Snapshot × Bytes) → Option Snapshot
    snapshot_of none = none
    snapshot_of (some (snap, bytes)) = some (record snap { timestamp = laws.kept snap.timestamp })

    -- Texts of identifiers are equal if the identifiers are.
    pub text-eq : (a b : Uuid) → str_eq (crates.to_string a) (crates.to_string b) ≡ (a == b)
    text-eq a b = ground (
      arith,
      eq_iff (crates.to_string a) (crates.to_string b),
      laws.parse_str-to_string a,
      laws.parse_str-to_string b,
    )

    pub read_client-client_row :
        (id : String) (latest : Uuid) (kept : Option (Snapshot × Bytes))
        → Fits kept
        → read_client crates (client_row id latest kept)
          ≡ ok (record { latest_version_id = latest; snapshot = snapshot_of kept })
    read_client-client_row id latest none fits = ground (arith, laws.parse_str-to_string latest)
    read_client-client_row id latest (some (snap, bytes)) fits = ground (
      arith,
      laws.parse_str-to_string latest,
      laws.parse_str-to_string snap.version_id,
      laws.timestamp_opt-timestamp snap.timestamp,
    )

    pub read_version-version_row :
        (c : Uuid) (ver : Version) → read_version crates (version_row c ver) ≡ ok ver
    read_version-version_row c ver =
        rw (laws.parse_str-to_string ver.version_id, laws.parse_str-to_string ver.parent_version_id)

    -- A counted version keeps a row in form.
    pub set_latest-client_row :
        (v : Uuid) (id : String) (latest : Uuid) (kept : Option (Snapshot × Bytes))
        → CanCount (snapshot_of kept)
        → (kept' : Option (Snapshot × Bytes)) × (set_latest
              (crates.to_string v)
              (client_row id latest kept)
            ≡ client_row id v kept')
          × Fits kept'
          × (snapshot_of kept' ≡ count_version (snapshot_of kept))
    set_latest-client_row v id latest none fits = (none, refl, tt, refl)
    set_latest-client_row v id latest (some (snap, bytes)) fits =
        (some (record snap { versions_since = snap.versions_since + 1 }, bytes), refl, fits, refl)

    pub set_snapshot_columns-client_row :
        (snap : Snapshot) (new : Bytes) (id : String) (latest : Uuid)
        (kept : Option (Snapshot × Bytes))
        → set_snapshot_columns
            (crates.to_string snap.version_id)
            (crates.timestamp snap.timestamp)
            (pos snap.versions_since)
            new
            (client_row id latest kept)
          ≡ client_row id latest (some (snap, new))
    set_snapshot_columns-client_row snap new id latest none = refl
    set_snapshot_columns-client_row snap new id latest (some (old, bytes)) = refl
