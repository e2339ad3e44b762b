-- ===== src/Core/InMemory/Tested.antt =====
-- The tests of core/src/inmemory.rs.
use taskchampion_sync_server.Core.Types.{DateTime, ServerError}
use taskchampion_sync_server.Core.Txn.{Outcome}
use taskchampion_sync_server.Core.Server.Tested.{Fixture}
use taskchampion_sync_server.Core.Storage.Tested.{
  left, committed, get_client_empty, gvbp_empty, client_storage, add_version_and_get_version,
  add_version_exists, snapshots, after_client,
}
use taskchampion_sync_server.Core.InMemory.{in_memory, new}

module _ (fix : Fixture) (timestamp later : DateTime) where
  abbrev pub test_get_client_empty : Outcome ServerError (Unit {0})
  test_get_client_empty =
      (left in_memory fix timestamp later (get_client_empty in_memory fix timestamp later) new).0

  abbrev pub test_client_storage : Outcome ServerError (Unit {0})
  test_client_storage =
      (committed in_memory fix timestamp later (client_storage in_memory fix timestamp later) new).0

  abbrev pub test_gvbp_empty : Outcome ServerError (Unit {0})
  test_gvbp_empty =
      (left in_memory fix timestamp later (gvbp_empty in_memory fix timestamp later) new).0

  abbrev pub test_add_version_and_get_version : Outcome ServerError (Unit {0})
  test_add_version_and_get_version =
      (committed in_memory fix timestamp later
        (after_client in_memory fix timestamp later
          (add_version_and_get_version in_memory fix timestamp later))
        new).0

  abbrev pub test_add_version_exists : Outcome ServerError (Unit {0})
  test_add_version_exists =
      (committed in_memory fix timestamp later
        (after_client in_memory fix timestamp later
          (add_version_exists in_memory fix timestamp later))
        new).0

  abbrev pub test_snapshots : Outcome ServerError (Unit {0})
  test_snapshots =
      (committed in_memory fix timestamp later (snapshots in_memory fix timestamp later) new).0
