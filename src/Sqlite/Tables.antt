-- ===== src/Sqlite/Tables.antt =====
-- The tables of sqlite/src/lib.rs, and its SQL statements as functions on their rows. A column that
-- can be NULL is an `Option`. A column declared STRING keeps an identifier's text as it is, since the
-- hyphens in it make it no number.
use Prim.Native.String.{String}
use text.Mathlib.Text.{◌==◌ as str_eq}
use taskchampion_sync_server.Prelude.{
  Bool, Option, none, some, is_some, List, [], ◌∷◌, ◌++◌, map, if◌then◌else◌,
}
use taskchampion_sync_server.Prelude.Int.{ℤ, succ_ℤ}
use taskchampion_sync_server.Core.Types.{Bytes}

-- CREATE TABLE clients
pub record ClientRow : Type 0 where
  pub client_id : String
  pub latest_version_id : Option String
  pub snapshot_version_id : Option String
  pub versions_since_snapshot : Option ℤ
  pub snapshot_timestamp : Option ℤ
  pub snapshot : Option Bytes

-- CREATE TABLE versions; the only INSERT fills each column.
pub record VersionRow : Type 0 where
  pub version_id : String
  pub client_id : String
  pub parent_version_id : String
  pub history_segment : Bytes

pub record Database : Type 0 where
  pub clients : List ClientRow
  pub versions : List VersionRow

-- CREATE TABLE IF NOT EXISTS on a new file
abbrev pub no_rows : Database
no_rows = record { clients = []; versions = [] }

module _ {A : Type 0} where
  -- SELECT … WHERE, of which `query_row` takes the first row
  abbrev pub select : (A → Bool) → List A → Option A
  select where_ [] = none
  select where_ (row ∷ rows) = if where_ row then some row else select where_ rows

  -- the rows that are left when those in the way are deleted
  abbrev pub remove : (A → Bool) → List A → List A
  remove where_ [] = []
  remove where_ (row ∷ rows) =
      let rest = remove where_ rows in if where_ row then rest else row ∷ rest

  -- UPDATE … SET … WHERE
  abbrev pub update : (A → Bool) → (A → A) → List A → List A
  update where_ set rows = map (λ row. if where_ row then set row else row) rows

-- WHERE client_id = ?
abbrev pub of_client : String → ClientRow → Bool
of_client client_id row = str_eq row.client_id client_id

-- INSERT OR REPLACE INTO clients (client_id, latest_version_id) VALUES (?, ?)
abbrev pub replace_client : String → String → List ClientRow → List ClientRow
replace_client client_id latest_version_id rows =
    remove (of_client client_id) rows
    ++ (record {
      client_id = client_id;
      latest_version_id = some latest_version_id;
      snapshot_version_id = none;
      versions_since_snapshot = none;
      snapshot_timestamp = none;
      snapshot = none;
    }
        ∷ [])

-- INSERT INTO versions, which fails if the PRIMARY KEY is taken
abbrev pub insert_version : VersionRow → List VersionRow → Option (List VersionRow)
insert_version new rows =
    if is_some (select (λ row. str_eq row.version_id new.version_id) rows)
    then none
    else some (rows ++ (new ∷ []))

-- versions_since_snapshot + 1, which is NULL if the column is
abbrev pub plus_one : Option ℤ → Option ℤ
plus_one none = none
plus_one (some n) = some (succ_ℤ n)

-- SET latest_version_id = ?, versions_since_snapshot = versions_since_snapshot + 1
abbrev pub set_latest : String → ClientRow → ClientRow
set_latest version_id row = record row {
  latest_version_id = some version_id;
  versions_since_snapshot = plus_one row.versions_since_snapshot;
}

-- SET snapshot_version_id = ?, snapshot_timestamp = ?, versions_since_snapshot = ?, snapshot = ?
abbrev pub set_snapshot_columns : String → ℤ → ℤ → Bytes → ClientRow → ClientRow
set_snapshot_columns version_id timestamp versions_since bytes row = record row {
  snapshot_version_id = some version_id;
  snapshot_timestamp = some timestamp;
  versions_since_snapshot = some versions_since;
  snapshot = some bytes;
}
