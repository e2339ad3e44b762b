-- ===== src/Web/Tested/GetSnapshot.antt =====
-- The tests of server/src/api/get_snapshot.rs.
use taskchampion_sync_server.Prelude.{[], ◌∷◌}
use taskchampion_sync_server.Core.Types.{Bytes, DateTime, ServerError}
use taskchampion_sync_server.Core.Txn.{Txn, other?, ◌>>=◌, ◌>>◌}
use taskchampion_sync_server.Core.InMemory.{InMemoryStorage, in_memory}
use taskchampion_sync_server.Core.Server.Tested.{Fixture, eq_bytes, assert, setup}
use taskchampion_sync_server.Api.Http.{TextOps}
use taskchampion_sync_server.Web.{Actix, Method, WebResponse}
use taskchampion_sync_server.Web.Tested.{status_is, request, call_service}

module _ (actix : Actix) (version : Bytes) (ops : TextOps) (fix : Fixture) where
  abbrev pub get_snapshot : Txn InMemoryStorage ServerError WebResponse
  get_snapshot =
      call_service actix version ops fix
        (request actix version ops fix Method.get "/v1/client/snapshot" "" [])

  abbrev pub test_not_found : Txn InMemoryStorage ServerError (Unit {0})
  test_not_found = do
    setup in_memory fix (other? (in_memory.new_client (fix.fresh 0)))
    response ← get_snapshot
    status_is 404 response

  -- with `Utc.with_ymd_and_hms(2001, 9, 9, 1, 46, 40)`
  abbrev pub test_success : DateTime → Txn InMemoryStorage ServerError (Unit {0})
  test_success timestamp = do
    setup in_memory fix (do
      other? (in_memory.new_client (fix.fresh 0))
      other? (
          in_memory.set_snapshot
            (record { version_id = fix.fresh 1; versions_since = 3; timestamp = timestamp })
            (1 ∷ 2 ∷ 3 ∷ 4 ∷ [])))
    response ← get_snapshot
    status_is 200 response
    assert (eq_bytes response.body (1 ∷ 2 ∷ 3 ∷ 4 ∷ []))
