-- ===== src/Web/Tested.antt =====
-- The tests of server/src: programs that set up a storage in memory, send requests to the server and look at
-- the responses. They pass where they end with `ok`.
pub mod GetChildVersion
pub mod AddVersion
pub mod AddSnapshot
pub mod GetSnapshot
use Prim.Native.String.{String}
use text.Mathlib.Text.{◌==◌ as str_eq}
use taskchampion_sync_server.Prelude.{
  ℕ, ◌+◌, ◌==◌, Bool, Option, none, some, List, [], ◌∷◌, if◌then◌else◌,
}
use taskchampion_sync_server.Core.Types.{Uuid, Bytes, ServerError}
use taskchampion_sync_server.Core.Txn.{Outcome, ok, err, panic, Txn, pure, ◌>>=◌, ◌>>◌}
use taskchampion_sync_server.Core.Urgency.{default_config}
use taskchampion_sync_server.Core.InMemory.{InMemoryStorage, InnerTxn, in_memory}
use taskchampion_sync_server.Core.Server.Tested.{Fixture, eq_bytes, assert, unwrap, is_none}
use taskchampion_sync_server.Api.Http.{
  TextOps, HttpRequest, HttpError, client_id_header, client_id_header_name,
}
use taskchampion_sync_server.Api.Body.{Chunk, chunk}
use taskchampion_sync_server.Api.Handlers.{ServerState}
use taskchampion_sync_server.Web.{
  Actix, Method, WebRequest, WebResponse, header, codes, respond, new as web_server,
}

abbrev pub ends_with : String → String → String
ends_with String.[] rest = rest
ends_with (String.◌∷◌ c text) rest = String.◌∷◌ c (ends_with text rest)

-- `b"abcd"`
abbrev pub abcd : Bytes
abcd = 97 ∷ 98 ∷ 99 ∷ 100 ∷ []

abbrev pub served :
    {S : Type 0} → S → Option (Option WebResponse × S) → Outcome ServerError WebResponse × S
served s none = (panic, s)
served s (some (none, s')) = (panic, s')
served s (some (some response, s')) = (ok response, s')

module _ {S : Type 0} where
  -- assertions on a response
  abbrev pub status_is : ℕ → WebResponse → Txn S ServerError (Unit {0})
  status_is status response = assert (response.status == status)

  abbrev pub header_is : String → String → WebResponse → Txn S ServerError (Unit {0})
  header_is name value response = do
    found ← unwrap (header name response.headers)
    assert (str_eq found value)

  abbrev pub no_header : String → WebResponse → Txn S ServerError (Unit {0})
  no_header name response = is_none (header name response.headers)

module _ (actix : Actix) (version : Bytes) (ops : TextOps) (fix : Fixture) where
  -- a request with the client's identifier
  abbrev pub client_request : String → Uuid → HttpRequest
  client_request content_type client_id = record {
    header = λ name.
        if str_eq name client_id_header_name then some (codes (ops.to_string client_id)) else none;
    content_type = content_type;
  }

  abbrev pub request : Method → String → String → List Chunk → WebRequest
  request method path content_type payload = record {
    method = method;
    path = path;
    http = client_request content_type fix.client_id;
    payload = payload;
  }

  -- `WebServer::new(Default::default(), None, storage)`
  abbrev pub server : ServerState InMemoryStorage InnerTxn
  server = web_server default_config none in_memory

  abbrev pub call_service : WebRequest → Txn InMemoryStorage ServerError WebResponse
  call_service req s =
      served s (respond actix version ops server 2 (λ i. fix.env (fix.fresh (20 + i))) req s)

  -- server/src/lib.rs
  abbrev pub test_cache_control : Txn InMemoryStorage ServerError (Unit {0})
  test_cache_control = do
    response ← call_service (request Method.get "/" "" [])
    status_is 200 response
    header_is "Cache-Control" "no-store, max-age=0" response

  -- server/src/bin/taskchampion-sync-server.rs
  abbrev pub test_index_get : Txn InMemoryStorage ServerError (Unit {0})
  test_index_get = do response ← call_service (request Method.get "/" "" []); status_is 200 response

  -- server/src/api/mod.rs
  abbrev pub is_client : Uuid → Outcome HttpError Uuid → Bool
  is_client client_id (ok found) = found == client_id
  is_client client_id (err e) = Bool.false
  is_client client_id panic = Bool.false

  abbrev pub has_status : ℕ → Outcome HttpError Uuid → Bool
  has_status status (err e) = (actix.error_response e).status == status
  has_status status (ok found) = Bool.false
  has_status status panic = Bool.false

  abbrev pub client_id_header_allow_all : Txn InMemoryStorage ServerError (Unit {0})
  client_id_header_allow_all =
      assert (is_client fix.client_id (client_id_header ops none (client_request "" fix.client_id)))

  abbrev pub client_id_header_allow_list : Txn InMemoryStorage ServerError (Unit {0})
  client_id_header_allow_list = do
    assert (
        is_client (fix.fresh 0)
          (client_id_header ops (some (fix.fresh 0 ∷ [])) (client_request "" (fix.fresh 0))))
    assert (
        has_status 403
          (client_id_header ops (some (fix.fresh 0 ∷ [])) (client_request "" (fix.fresh 1))))
