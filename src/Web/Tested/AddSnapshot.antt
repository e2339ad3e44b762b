-- ===== src/Web/Tested/AddSnapshot.antt =====
-- The tests of server/src/api/add_snapshot.rs.
use Prim.Native.String.{String}
use taskchampion_sync_server.Prelude.{List, [], ◌∷◌}
use taskchampion_sync_server.Core.Types.{Uuid, Bytes, nil_version_id, ServerError}
use taskchampion_sync_server.Core.Txn.{Txn, other?, ◌>>=◌, ◌>>◌}
use taskchampion_sync_server.Core.InMemory.{InMemoryStorage, in_memory}
use taskchampion_sync_server.Core.Server.Tested.{Fixture, eq_bytes, assert, setup}
use taskchampion_sync_server.Api.Http.{TextOps}
use taskchampion_sync_server.Api.Body.{Chunk, chunk}
use taskchampion_sync_server.Web.{Actix, Method, WebResponse}
use taskchampion_sync_server.Web.Tested.{ends_with, abcd, status_is, request, call_service}

module _ (actix : Actix) (version : Bytes) (ops : TextOps) (fix : Fixture) where
  abbrev pub post : String → List Chunk → Uuid → Txn InMemoryStorage ServerError WebResponse
  post content_type payload version_id = call_service actix version ops fix (
      request actix version ops fix Method.post
        (ends_with "/v1/client/add-snapshot/" (ops.to_string version_id)) content_type payload)

  abbrev pub read_back : Txn InMemoryStorage ServerError WebResponse
  read_back =
      call_service actix version ops fix
        (request actix version ops fix Method.get "/v1/client/snapshot" "" [])

  abbrev pub test_success : Txn InMemoryStorage ServerError (Unit {0})
  test_success = do
    setup in_memory fix (do
      other? (in_memory.new_client (fix.fresh 0))
      other? (in_memory.add_version (fix.fresh 0) nil_version_id []))
    response ← post "application/vnd.taskchampion.snapshot" (chunk abcd ∷ []) (fix.fresh 0)
    status_is 200 response
    response ← read_back
    status_is 200 response
    assert (eq_bytes response.body abcd)

  abbrev pub test_not_added_200 : Txn InMemoryStorage ServerError (Unit {0})
  test_not_added_200 = do
    setup in_memory fix (other? (in_memory.new_client nil_version_id))
    response ← post "application/vnd.taskchampion.snapshot" (chunk abcd ∷ []) (fix.fresh 0)
    status_is 200 response
    response ← read_back
    status_is 404 response

  abbrev pub test_bad_content_type : Txn InMemoryStorage ServerError (Unit {0})
  test_bad_content_type = do
    response ← post "not/correct" (chunk abcd ∷ []) (fix.fresh 0)
    status_is 400 response

  -- It sends the content type of a version, so the answer is about that.
  abbrev pub test_empty_body : Txn InMemoryStorage ServerError (Unit {0})
  test_empty_body = do
    response ← post "application/vnd.taskchampion.history-segment" [] (fix.fresh 0)
    status_is 400 response
