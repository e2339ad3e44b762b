-- ===== src/Api/Handlers.antt =====
-- The handlers `service` of server/src/api: get_snapshot.rs, get_child_version.rs, add_snapshot.rs
-- and add_version.rs.
use Prim.Native.String.{String}
use text.Mathlib.Text.{◌==◌ as str_eq}
use taskchampion_sync_server.Prelude.{
  ℕ, zero, suc, not, Option, none, some, List, [], ◌∷◌, if◌then◌else◌,
}
use taskchampion_sync_server.Core.Types.{
  Uuid, Bytes, ClientId, VersionId, nil_version_id, ServerError, GetVersionResult, AddVersionResult,
  SnapshotUrgency, ServerConfig,
}
use taskchampion_sync_server.Core.Txn.{
  Outcome, ok, err, panic, Txn, pure, fail, crash, map_err, and_then, ◌>>=◌, ◌>>◌, other?,
}
use taskchampion_sync_server.Core.Storage.{Storage, with_txn}
use taskchampion_sync_server.Core.Server.{
  Env, get_child_version, add_version, add_snapshot, get_snapshot,
}
use taskchampion_sync_server.Api.Http.{
  history_segment_content_type, snapshot_content_type, version_id_header, parent_version_id_header,
  snapshot_request_header, TextOps, HttpRequest, Status, HttpResponse, HttpError, Allowlist,
  client_id_header, server_error_to_actix,
}
use taskchampion_sync_server.Api.Body.{Chunk, read_history_segment, read_snapshot_body}

-- A result that needs no storage.
abbrev pub lift : {S A : Type 0} → Outcome HttpError A → Txn S HttpError A
lift r s = (r, s)

-- `.map_err(server_error_to_actix)?`
abbrev pub served : {S A : Type 0} → Txn S ServerError A → Txn S HttpError A
served m s = let (r, s') = m s in (map_err server_error_to_actix r, s')

-- `if req.content_type() != … { return Err(…) }`
abbrev pub check_content_type : String → HttpRequest → Outcome HttpError (Unit {0})
check_content_type expected req =
    if not (str_eq req.content_type expected)
    then err (HttpError.bad_request "Bad content-type")
    else ok tt

-- `ServerState`: the server's configuration and storage, and the clients that are allowed.
pub record ServerState (S T : Type 0) : Type 0 where
  pub config : ServerConfig
  pub storage : Storage S T
  pub client_id_allowlist : Allowlist

module _ (ops : TextOps) where
  abbrev pub snapshot_response : Option (Uuid × Bytes) → Outcome HttpError HttpResponse
  snapshot_response none = err (HttpError.not_found "no snapshot")
  snapshot_response (some (version_id, bytes)) = ok (record {
    status = Status.ok;
    content_type = some snapshot_content_type;
    headers = (version_id_header, ops.to_string version_id) ∷ [];
    body = bytes;
  })

  -- the `match` on what `get_child_version` returns
  abbrev pub child_response : Outcome ServerError GetVersionResult → Outcome HttpError HttpResponse
  child_response (ok (GetVersionResult.success version_id parent_version_id history_segment)) =
      ok (record {
        status = Status.ok;
        content_type = some history_segment_content_type;
        headers =
            (version_id_header, ops.to_string version_id)
            ∷ (parent_version_id_header, ops.to_string parent_version_id)
            ∷ [];
        body = history_segment;
      })
  child_response (ok GetVersionResult.not_found) = err (HttpError.not_found "no such version")
  child_response (ok GetVersionResult.gone) = err (HttpError.gone "version has been deleted")
  child_response (err ServerError.no_such_client) = err (HttpError.not_found "no such client")
  child_response (err (ServerError.other e)) = err (server_error_to_actix (ServerError.other e))
  child_response panic = panic

  abbrev pub urgency_headers : SnapshotUrgency → List (String × String)
  urgency_headers SnapshotUrgency.none = []
  urgency_headers SnapshotUrgency.low = (snapshot_request_header, "urgency=low") ∷ []
  urgency_headers SnapshotUrgency.high = (snapshot_request_header, "urgency=high") ∷ []

  abbrev pub add_version_response : AddVersionResult → SnapshotUrgency → HttpResponse
  add_version_response (AddVersionResult.ok version_id) snap_urgency = record {
    status = Status.ok;
    content_type = none;
    headers = (version_id_header, ops.to_string version_id) ∷ urgency_headers snap_urgency;
    body = [];
  }
  add_version_response (AddVersionResult.expected_parent_version parent_version_id) snap_urgency =
      record {
        status = Status.conflict;
        content_type = none;
        headers = (parent_version_id_header, ops.to_string parent_version_id) ∷ [];
        body = [];
      }

  module _ {S T : Type 0} (state : ServerState S T) where
    unfoldable pub get_snapshot_service : HttpRequest → Txn S HttpError HttpResponse
    get_snapshot_service req = do
      client_id ← lift (client_id_header ops state.client_id_allowlist req)
      found ← served (get_snapshot state.storage client_id)
      lift (snapshot_response found)

    abbrev pub respond_child : Txn S ServerError GetVersionResult → Txn S HttpError HttpResponse
    respond_child m s = let (r, s') = m s in (child_response r, s')

    unfoldable pub get_child_version_service :
        HttpRequest → VersionId → Txn S HttpError HttpResponse
    get_child_version_service req parent_version_id = do
      client_id ← lift (client_id_header ops state.client_id_allowlist req)
      respond_child (get_child_version state.storage client_id parent_version_id)

    unfoldable pub add_snapshot_service :
        Env → HttpRequest → VersionId → List Chunk → Txn S HttpError HttpResponse
    add_snapshot_service env req version_id payload = do
      lift (check_content_type snapshot_content_type req)
      client_id ← lift (client_id_header ops state.client_id_allowlist req)
      body ← lift (read_snapshot_body payload)
      served (add_snapshot state.storage env client_id version_id body)
      pure (record { status = Status.ok; content_type = none; headers = []; body = [] })

    -- the new client of `add_version`; an error of each step becomes an internal server error
    unfoldable pub create_client : ClientId → Txn S HttpError (Unit {0})
    create_client client_id = served λ s.
        with_txn state.storage s client_id
          do other? (state.storage.new_client nil_version_id); other? state.storage.commit

    -- one round of the loop of `add_version`; `none` is its `continue`
    abbrev pub react :
        ClientId
        → Outcome ServerError (AddVersionResult × SnapshotUrgency)
        → Txn S HttpError (Option HttpResponse)
    react client_id (ok (result, snap_urgency)) =
        pure (some (add_version_response result snap_urgency))
    react client_id (err ServerError.no_such_client) = do create_client client_id; pure none
    react client_id (err (ServerError.other e)) = fail (server_error_to_actix (ServerError.other e))
    react client_id panic = crash

    unfoldable pub attempt :
        Env → ClientId → VersionId → Bytes → Txn S HttpError (Option HttpResponse)
    attempt env client_id parent_version_id body s =
        let (r, s') =
          add_version state.storage state.config env client_id parent_version_id body s in
        react client_id r s'

    -- The loop, on fuel; `none` means that the fuel ran out. Each round has its own identifier and
    -- time.
    unfoldable pub add_version_loop :
        ℕ
        → (ℕ → Env)
        → ClientId
        → VersionId
        → Bytes
        → S
        → Option (Outcome HttpError HttpResponse × S)
    add_version_loop zero envs client_id parent_version_id body s = none
    add_version_loop (suc fuel) envs client_id parent_version_id body s =
        let (r, s') = attempt (envs fuel) client_id parent_version_id body s in
        elim r [
          | ok none ↦ add_version_loop fuel envs client_id parent_version_id body s'
          | ok (some response) ↦ some (ok response, s')
          | err e ↦ some (err e, s')
          | panic ↦ some (panic, s')
        ]

    -- what stands before the loop
    unfoldable pub add_version_request :
        HttpRequest → List Chunk → Outcome HttpError (ClientId × Bytes)
    add_version_request req payload =
        and_then (check_content_type history_segment_content_type req) λ _.
          and_then (client_id_header ops state.client_id_allowlist req)
            λ client_id. and_then (read_history_segment payload) λ body. ok (client_id, body)

    unfoldable pub add_version_service :
        ℕ
        → (ℕ → Env)
        → HttpRequest
        → VersionId
        → List Chunk
        → S
        → Option (Outcome HttpError HttpResponse × S)
    add_version_service fuel envs req parent_version_id payload s =
        elim (add_version_request req payload) [
          | err e ↦ some (err e, s)
          | panic ↦ some (panic, s)
          | ok (client_id, body) ↦ add_version_loop fuel envs client_id parent_version_id body s
        ]
