-- ===== src/Web/Tested/GetChildVersion.antt =====
-- The tests of server/src/api/get_child_version.rs.
use taskchampion_sync_server.Prelude.{[], ◌∷◌}
use taskchampion_sync_server.Core.Types.{Uuid, Bytes, nil_version_id, ServerError}
use taskchampion_sync_server.Core.Txn.{Txn, other?, ◌>>=◌, ◌>>◌}
use taskchampion_sync_server.Core.InMemory.{InMemoryStorage, in_memory}
use taskchampion_sync_server.Core.Server.Tested.{Fixture, eq_bytes, assert, unwrap, setup}
use text.Mathlib.Text.{◌==◌ as str_eq}
use taskchampion_sync_server.Api.Http.{TextOps}
use taskchampion_sync_server.Web.{Actix, Method, WebResponse}
use taskchampion_sync_server.Web.Tested.{
  ends_with, abcd, status_is, header_is, no_header, request, call_service,
}

module _ (actix : Actix) (version : Bytes) (ops : TextOps) (fix : Fixture) where
  abbrev pub get_child : Uuid → Txn InMemoryStorage ServerError WebResponse
  get_child parent_version_id = call_service actix version ops fix (
      request actix version ops fix Method.get
        (ends_with "/v1/client/get-child-version/" (ops.to_string parent_version_id)) "" [])

  abbrev pub no_version : WebResponse → Txn InMemoryStorage ServerError (Unit {0})
  no_version response = do
    no_header "X-Version-Id" response
    no_header "X-Parent-Version-Id" response

  abbrev pub test_success : Txn InMemoryStorage ServerError (Unit {0})
  test_success = do
    setup in_memory fix (do
      other? (in_memory.new_client (fix.fresh 0))
      other? (in_memory.add_version (fix.fresh 1) (fix.fresh 2) abcd))
    response ← get_child (fix.fresh 2)
    status_is 200 response
    header_is "X-Version-Id" (ops.to_string (fix.fresh 1)) response
    header_is "X-Parent-Version-Id" (ops.to_string (fix.fresh 2)) response
    content_type ← unwrap response.content_type
    assert (str_eq content_type "application/vnd.taskchampion.history-segment")
    assert (eq_bytes response.body abcd)

  abbrev pub test_client_not_found : Txn InMemoryStorage ServerError (Unit {0})
  test_client_not_found = do
    response ← get_child (fix.fresh 0)
    status_is 404 response
    no_version response

  abbrev pub test_version_not_found_and_gone : Txn InMemoryStorage ServerError (Unit {0})
  test_version_not_found_and_gone = do
    setup in_memory fix (do
      other? (in_memory.new_client (fix.fresh 0))
      other? (in_memory.add_version (fix.fresh 1) nil_version_id (118 ∷ 101 ∷ 114 ∷ 115 ∷ [])))
    response ← get_child nil_version_id
    status_is 200 response
    header_is "X-Version-Id" (ops.to_string (fix.fresh 1)) response
    header_is "X-Parent-Version-Id" (ops.to_string nil_version_id) response
    response ← get_child (fix.fresh 2)
    status_is 410 response
    no_version response
    response ← get_child (fix.fresh 1)
    status_is 404 response
    no_version response
