-- ===== src/Web/Tested/AddVersion.antt =====
-- The tests of server/src/api/add_version.rs.
use Prim.Native.String.{String}
use taskchampion_sync_server.Prelude.{◌==◌, not, List, [], ◌∷◌}
use taskchampion_sync_server.Core.Types.{Uuid, Bytes, nil_version_id, ServerError}
use taskchampion_sync_server.Core.Txn.{Txn, pure, other?, ◌>>=◌, ◌>>◌}
use taskchampion_sync_server.Core.InMemory.{InMemoryStorage, in_memory}
use taskchampion_sync_server.Core.Server.Tested.{
  Fixture, assert, unwrap, is_none, setup, verify, the_client,
}
use text.Mathlib.Text.{◌==◌ as str_eq}
use taskchampion_sync_server.Api.Http.{TextOps}
use taskchampion_sync_server.Api.Body.{Chunk, chunk}
use taskchampion_sync_server.Web.{Actix, Method, WebResponse, header}
use taskchampion_sync_server.Web.Tested.{
  ends_with, abcd, status_is, header_is, no_header, request, call_service,
}

module _ (actix : Actix) (version : Bytes) (ops : TextOps) (fix : Fixture) where
  abbrev pub post : String → List Chunk → Uuid → Txn InMemoryStorage ServerError WebResponse
  post content_type payload parent_version_id = call_service actix version ops fix (
      request actix version ops fix Method.post
        (ends_with "/v1/client/add-version/" (ops.to_string parent_version_id)) content_type
        payload)

  abbrev pub segment : String
  segment = "application/vnd.taskchampion.history-segment"

  -- the checks of a version that was accepted, of which `other` is not the identifier
  abbrev pub accepted : Uuid → WebResponse → Txn InMemoryStorage ServerError String
  accepted other response = do
    status_is 200 response
    new_version_id ← unwrap (header "X-Version-Id" response.headers)
    assert (not (str_eq new_version_id (ops.to_string other)))
    header_is "X-Snapshot-Request" "urgency=high" response
    no_header "X-Parent-Version-Id" response
    pure new_version_id

  abbrev pub test_success : Txn InMemoryStorage ServerError (Unit {0})
  test_success = do
    setup in_memory fix (other? (in_memory.new_client nil_version_id))
    response ← post segment (chunk abcd ∷ []) (fix.fresh 1)
    new_version_id ← accepted (fix.fresh 0) response
    pure tt

  abbrev pub test_auto_add_client : Txn InMemoryStorage ServerError (Unit {0})
  test_auto_add_client = do
    response ← post segment (chunk abcd ∷ []) (fix.fresh 1)
    text ← accepted (fix.fresh 0) response
    new_version_id ← unwrap (ops.parse_str text)
    verify in_memory fix (do
      client ← the_client in_memory fix
      assert (client.latest_version_id == new_version_id)
      is_none client.snapshot)

  abbrev pub test_conflict : Txn InMemoryStorage ServerError (Unit {0})
  test_conflict = do
    setup in_memory fix (other? (in_memory.new_client (fix.fresh 0)))
    response ← post segment (chunk abcd ∷ []) (fix.fresh 1)
    status_is 409 response
    no_header "X-Version-Id" response
    header_is "X-Parent-Version-Id" (ops.to_string (fix.fresh 0)) response

  abbrev pub test_bad_content_type : Txn InMemoryStorage ServerError (Unit {0})
  test_bad_content_type = do
    response ← post "not/correct" (chunk abcd ∷ []) (fix.fresh 0)
    status_is 400 response

  abbrev pub test_empty_body : Txn InMemoryStorage ServerError (Unit {0})
  test_empty_body = do response ← post segment [] (fix.fresh 0); status_is 400 response
