-- ===== src/Api/Http.antt =====
-- server/src/api/mod.rs, and the requests and responses of the crate actix-web as far as the
-- handlers read and build them.
use Prim.Native.String.{String}
use taskchampion_sync_server.Prelude.{
  ℕ, Bool, not, Option, none, some, List, contains, if◌then◌else◌,
}
use taskchampion_sync_server.Core.Types.{Uuid, Bytes, ClientId, StorageError, ServerError}
use taskchampion_sync_server.Core.Txn.{Outcome}

abbrev pub history_segment_content_type : String
history_segment_content_type = "application/vnd.taskchampion.history-segment"

abbrev pub snapshot_content_type : String
snapshot_content_type = "application/vnd.taskchampion.snapshot"

abbrev pub version_id_header : String
version_id_header = "X-Version-Id"

abbrev pub client_id_header_name : String
client_id_header_name = "X-Client-Id"

abbrev pub parent_version_id_header : String
parent_version_id_header = "X-Parent-Version-Id"

abbrev pub snapshot_request_header : String
snapshot_request_header = "X-Snapshot-Request"

-- What the crates actix-web and uuid do with text: a header's bytes as text, a text as an
-- identifier, and an identifier as text.
pub record TextOps : Type 0 where
  pub to_str : Bytes → Option String
  pub parse_str : String → Option Uuid
  pub to_string : Uuid → String

-- `req.headers().get(…)` and `req.content_type()`
pub record HttpRequest : Type 0 where
  pub header : String → Option Bytes
  pub content_type : String

pub data Status : Type 0 where
  ok conflict : Status

pub record HttpResponse : Type 0 where
  pub status : Status
  pub content_type : Option String
  pub headers : List (String × String)
  pub body : Bytes

-- The errors of actix-web that the handlers return: `ErrorBadRequest` and so on with the text or
-- the error that they carry, and `payload` for a request body that cannot be read.
pub data HttpError : Type 0 where
  bad_request forbidden not_found gone : String → HttpError
  internal_server_error : StorageError → HttpError
  payload : ℕ → HttpError

abbrev pub Allowlist : Type 0
Allowlist = Option (List Uuid)

abbrev pub is_allowed : Allowlist → Uuid → Bool
is_allowed none client_id = Bool.true
is_allowed (some allow_list) client_id = contains allow_list client_id

abbrev pub badrequest : HttpError
badrequest = HttpError.bad_request "bad x-client-id"

abbrev pub check_allowed : Allowlist → Uuid → Outcome HttpError ClientId
check_allowed allowlist client_id =
    if not (is_allowed allowlist client_id)
    then Outcome.err (HttpError.forbidden "unknown x-client-id")
    else Outcome.ok client_id

abbrev pub parse_client_id : TextOps → Allowlist → Option String → Outcome HttpError ClientId
parse_client_id ops allowlist none = Outcome.err badrequest
parse_client_id ops allowlist (some text) = elim (ops.parse_str text) [
  | none ↦ Outcome.err badrequest
  | some client_id ↦ check_allowed allowlist client_id
]

unfoldable pub client_id_header : TextOps → Allowlist → HttpRequest → Outcome HttpError ClientId
client_id_header ops allowlist req = elim (req.header client_id_header_name) [
  | none ↦ Outcome.err badrequest
  | some value ↦ parse_client_id ops allowlist (ops.to_str value)
]

-- `ErrorNotFound(err)` shows the error's own text.
unfoldable pub server_error_to_actix : ServerError → HttpError
server_error_to_actix ServerError.no_such_client = HttpError.not_found "No such client"
server_error_to_actix (ServerError.other e) = HttpError.internal_server_error e
