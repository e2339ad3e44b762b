-- ===== src/Api/Access.antt =====
-- Who may call: the header `X-Client-Id` and the list of allowed clients.
use text.Mathlib.Text.{◌==◌ as str_eq}
use taskchampion_sync_server.Prelude.{
  ℕ, ◌≡◌, Bool-cases, true, false, contains, Option, none, some, List, arith, if◌then◌else◌, inl,
  inr,
}
use taskchampion_sync_server.Core.Types.{Uuid, VersionId}
use taskchampion_sync_server.Core.Txn.{Outcome, ok, err}
use taskchampion_sync_server.Core.Server.{Env}
use taskchampion_sync_server.Api.Http.{
  TextOps, HttpRequest, HttpError, Allowlist, client_id_header_name, client_id_header,
  history_segment_content_type, snapshot_content_type,
}
use taskchampion_sync_server.Api.Body.{Chunk}
use taskchampion_sync_server.Api.Handlers.{
  ServerState, get_snapshot_service, get_child_version_service, add_snapshot_service,
  add_version_request, add_version_service,
}

-- What the header says: a client's identifier, if it is there, is text, and is an identifier.
abbrev pub named : TextOps → HttpRequest → Option Uuid
named ops req = elim (req.header client_id_header_name) [
  | none ↦ none
  | some value ↦ elim (ops.to_str value) [ none ↦ none | some text ↦ ops.parse_str text ]
]

abbrev pub admit : Allowlist → Option Uuid → Outcome HttpError Uuid
admit allowlist none = err (HttpError.bad_request "bad x-client-id")
admit none (some c) = ok c
admit (some l) (some c) =
    if contains l c then ok c else err (HttpError.forbidden "unknown x-client-id")

-- A request is let through exactly if its header names a client, and the list, if there is one,
-- has that client.
pub client_id_header-eq-admit :
    (ops : TextOps) (allowlist : Allowlist) (req : HttpRequest)
    → client_id_header ops allowlist req ≡ admit allowlist (named ops req)
unfolding client_id_header
client_id_header-eq-admit ops none req = ground arith
client_id_header-eq-admit ops (some l) req = ground arith

module _ {S T : Type 0} (ops : TextOps) (state : ServerState S T) (req : HttpRequest)
    (e : HttpError) (refused : client_id_header ops state.client_id_allowlist req ≡ err e) where
  request_refused :
      (payload : List Chunk)
      → str_eq req.content_type history_segment_content_type ≡ true
      → add_version_request ops state req payload ≡ err e
  unfolding add_version_request
  request_refused payload typed = rw (typed, refused)

  request_mistyped :
      (payload : List Chunk)
      → str_eq req.content_type history_segment_content_type ≡ false
      → add_version_request ops state req payload ≡ err (HttpError.bad_request "Bad content-type")
  unfolding add_version_request
  request_mistyped payload other = rw other

  -- A request that is not let through is answered with that error by every handler, or with a bad
  -- content type, and the storage is not touched.
  pub refused_untouched :
      (env : Env) (envs : ℕ → Env) (v : VersionId) (payload : List Chunk) (n : ℕ) (s : S)
      → (get_snapshot_service ops state req s ≡ (err e, s))
        × (get_child_version_service ops state req v s ≡ (err e, s))
        × (add_snapshot_service ops state env req v payload s ≡ (
            if str_eq req.content_type snapshot_content_type
            then (err e, s)
            else (err (HttpError.bad_request "Bad content-type"), s)))
        × (add_version_service ops state n envs req v payload s ≡ (
            if str_eq req.content_type history_segment_content_type
            then some (err e, s)
            else some (err (HttpError.bad_request "Bad content-type"), s)))
  unfolding get_snapshot_service get_child_version_service add_snapshot_service add_version_service
  refused_untouched env envs v payload n s = (
    rw refused,
    rw refused,
    elim (Bool-cases (str_eq req.content_type snapshot_content_type)) [
      | inl typed ↦ rw (typed, refused)
      | inr other ↦ rw other
    ],
    elim (Bool-cases (str_eq req.content_type history_segment_content_type)) [
      | inl typed ↦ rw (request_refused payload typed, add_version_service, typed)
      | inr other ↦ rw (request_mistyped payload other, add_version_service, other)
    ],
  )
