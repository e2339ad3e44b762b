-- ===== src/Web.antt =====
-- server/src/lib.rs, `api_scope` of server/src/api/mod.rs and the routes named above the handlers: which
-- handler answers a request, and the headers that every response has. The crate actix-web matches paths;
-- it tries the services in the order in which they were given.
pub mod Plain
pub mod Headers
pub mod Safe
pub mod Tested
use Prim.Native.Char.{code}
use Prim.Native.String.{String}
use text.Mathlib.Text.{◌==◌ as str_eq}
use taskchampion_sync_server.Prelude.{
  ℕ, Bool, true, false, Option, none, some, List, [], ◌∷◌, ◌++◌, if◌then◌else◌,
}
use taskchampion_sync_server.Core.Types.{Uuid, Bytes}
use taskchampion_sync_server.Core.Txn.{Outcome, ok, err, panic}
use taskchampion_sync_server.Core.Server.{Env}
use taskchampion_sync_server.Core.Storage.{Storage}
use taskchampion_sync_server.Core.Types.{ServerConfig}
use taskchampion_sync_server.Api.Http.{
  TextOps, Allowlist, HttpRequest, HttpResponse, HttpError, Status,
}
use taskchampion_sync_server.Api.Body.{Chunk}
use taskchampion_sync_server.Api.Handlers.{
  ServerState, get_snapshot_service, get_child_version_service, add_snapshot_service,
  add_version_service,
}

-- `WebServer::new`: the state that the handlers share.
abbrev pub new : {S T : Type 0} → ServerConfig → Allowlist → Storage S T → ServerState S T
new config client_id_allowlist storage = record {
  config = config;
  storage = storage;
  client_id_allowlist = client_id_allowlist;
}

pub data Method : Type 0 where
  get post : Method
  other : String → Method

abbrev pub is_method : Method → Method → Bool
is_method Method.get Method.get = true
is_method Method.post Method.post = true
is_method a b = false

-- The bytes of a text in ASCII.
abbrev codes : String → Bytes
codes String.[] = []
codes (String.◌∷◌ c rest) = code c ∷ codes rest

-- The functions that are services.
pub data Endpoint : Type 0 where
  index get_child_version add_version get_snapshot add_snapshot : Endpoint

pub record Route : Type 0 where
  pub method : Method
  pub path : String
  pub endpoint : Endpoint

abbrev pub api_scope : List Route
api_scope =
    record {
      method = Method.get;
      path = "/v1/client/get-child-version/{parent_version_id}";
      endpoint = get_child_version;
    }
    ∷ record {
      method = Method.post;
      path = "/v1/client/add-version/{parent_version_id}";
      endpoint = add_version;
    }
    ∷ record { method = Method.get; path = "/v1/client/snapshot"; endpoint = get_snapshot }
    ∷ record {
      method = Method.post;
      path = "/v1/client/add-snapshot/{version_id}";
      endpoint = add_snapshot;
    }
    ∷ []

-- the services of `WebServer::config`
abbrev pub services : List Route
services = record { method = Method.get; path = "/"; endpoint = index } ∷ api_scope

pub record WebRequest : Type 0 where
  pub method : Method
  pub path : String
  pub http : HttpRequest
  pub payload : List Chunk

pub record WebResponse : Type 0 where
  pub status : ℕ
  pub content_type : Option String
  pub headers : List (String × String)
  pub body : Bytes

-- What the crate actix-web does: whether a path has the form of a route's, and then the text in the place
-- of the name in braces (empty, where there is none); and the response it makes of an error.
pub record Actix : Type 0 where
  pub match_path : String → String → Option String
  pub error_response : HttpError → WebResponse

abbrev pub header : String → List (String × String) → Option String
header name [] = none
header name ((n, value) ∷ rest) = if str_eq n name then some value else header name rest

-- `DefaultHeaders::new().add(…)`, which adds a header that the response does not have.
abbrev pub default_header : String × String → WebResponse → WebResponse
default_header (name, value) response = elim (header name response.headers) [
  | none ↦ record response { headers = response.headers ++ ((name, value) ∷ []) }
  | some old ↦ response
]

abbrev pub cache_control : String × String
cache_control = ("Cache-Control", "no-store, max-age=0")

module _ (actix : Actix) (version : Bytes) where
  abbrev pub status_code : Status → ℕ
  status_code Status.ok = 200
  status_code Status.conflict = 409

  abbrev pub from_response : HttpResponse → WebResponse
  from_response response = record {
    status = status_code response.status;
    content_type = response.content_type;
    headers = response.headers;
    body = response.body;
  }

  -- A panic answers nothing.
  abbrev pub to_web : Outcome HttpError HttpResponse → Option WebResponse
  to_web (ok response) = some (from_response response)
  to_web (err e) = some (actix.error_response e)
  to_web panic = none

  abbrev pub with_default_headers : Option WebResponse → Option WebResponse
  with_default_headers none = none
  with_default_headers (some response) = some (default_header cache_control response)

  -- the response of `index`, whose text ends with the version of the server
  abbrev pub index_response : HttpResponse
  index_response = record {
    status = Status.ok;
    content_type = some "text/plain; charset=utf-8";
    headers = [];
    body = codes "TaskChampion sync server v" ++ version;
  }

  -- The first route that the request's method and path fit, with the text in the path.
  unfoldable pub find_route : List Route → WebRequest → Option (Endpoint × String)
  find_route [] req = none
  find_route (route ∷ rest) req =
      let later = find_route rest req in
      if is_method route.method req.method
      then elim (actix.match_path route.path req.path) [
        | none ↦ later
        | some text ↦ some (route.endpoint, text)
      ]
      else later

  module _ {S T : Type 0} (ops : TextOps) (state : ServerState S T) (fuel : ℕ)
      (envs : ℕ → Env) where
    -- a handler with an identifier in its path, `web::Path<VersionId>`
    abbrev pub with_id :
        (Uuid → S → Option (Outcome HttpError HttpResponse × S))
        → Option Uuid
        → S
        → Option (Outcome HttpError HttpResponse × S)
    with_id service none s = some (err (HttpError.not_found "path"), s)
    with_id service (some id) s = service id s

    unfoldable pub serve :
        Endpoint → String → WebRequest → S → Option (Outcome HttpError HttpResponse × S)
    serve index text req s = some (ok index_response, s)
    serve get_child_version text req s =
        with_id (λ id s. some (get_child_version_service ops state req.http id s))
          (ops.parse_str text) s
    serve add_version text req s =
        with_id (λ id. add_version_service ops state fuel envs req.http id req.payload)
          (ops.parse_str text) s
    serve get_snapshot text req s = some (get_snapshot_service ops state req.http s)
    serve add_snapshot text req s =
        with_id (λ id s. some (add_snapshot_service ops state (envs 0) req.http id req.payload s))
          (ops.parse_str text) s

    abbrev pub answer :
        Option (Outcome HttpError HttpResponse × S) → Option (Option WebResponse × S)
    answer none = none
    answer (some (r, s)) = some (with_default_headers (to_web r), s)

    abbrev pub dispatch :
        Option (Endpoint × String) → WebRequest → S → Option (Option WebResponse × S)
    dispatch none req s = answer (some (err (HttpError.not_found ""), s))
    dispatch (some (endpoint, text)) req s = answer (serve endpoint text req s)

    -- One request to the server. The outer `none` means that the fuel of `add_version` ran out, and the
    -- inner one that the handler panicked.
    unfoldable pub respond : WebRequest → S → Option (Option WebResponse × S)
    respond req = dispatch (find_route services req) req
