-- ===== src/Sqlite/Tested.antt =====
-- The tests of sqlite/src/lib.rs, each on a new file.
use taskchampion_sync_server.Core.Types.{DateTime, ServerError}
use taskchampion_sync_server.Core.Txn.{Outcome}
use taskchampion_sync_server.Core.Server.Tested.{Fixture}
use taskchampion_sync_server.Core.Storage.Tested.{
  left, get_client_empty, gvbp_empty, client_storage, add_version_and_get_version,
  add_version_exists, snapshots,
}
use taskchampion_sync_server.Prelude.{none}
use taskchampion_sync_server.Sqlite.Columns.{Crates}
use taskchampion_sync_server.Sqlite.{sqlite, new}

module _ (crates : Crates) (fix : Fixture) (timestamp later : DateTime) where
  abbrev pub test_emtpy_dir : Outcome ServerError (Unit {0})
  test_emtpy_dir =
      (left (sqlite crates) fix timestamp later
        (get_client_empty (sqlite crates) fix timestamp later) (new none)).0

  abbrev pub test_get_client_empty : Outcome ServerError (Unit {0})
  test_get_client_empty =
      (left (sqlite crates) fix timestamp later
        (get_client_empty (sqlite crates) fix timestamp later) (new none)).0

  abbrev pub test_client_storage : Outcome ServerError (Unit {0})
  test_client_storage =
      (left (sqlite crates) fix timestamp later (client_storage (sqlite crates) fix timestamp later)
        (new none)).0

  abbrev pub test_gvbp_empty : Outcome ServerError (Unit {0})
  test_gvbp_empty =
      (left (sqlite crates) fix timestamp later (gvbp_empty (sqlite crates) fix timestamp later)
        (new none)).0

  abbrev pub test_add_version_and_get_version : Outcome ServerError (Unit {0})
  test_add_version_and_get_version =
      (left (sqlite crates) fix timestamp later
        (add_version_and_get_version (sqlite crates) fix timestamp later) (new none)).0

  abbrev pub test_add_version_exists : Outcome ServerError (Unit {0})
  test_add_version_exists =
      (left (sqlite crates) fix timestamp later
        (add_version_exists (sqlite crates) fix timestamp later) (new none)).0

  abbrev pub test_snapshots : Outcome ServerError (Unit {0})
  test_snapshots =
      (left (sqlite crates) fix timestamp later (snapshots (sqlite crates) fix timestamp later)
        (new none)).0
