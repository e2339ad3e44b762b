-- ===== src/Web/Plain.antt =====
-- The responses of the handlers in server/src/api do not have the header Cache-Control.
use Prim.Native.String.{String}
use taskchampion_sync_server.Prelude.{ℕ, zero, suc, ◌≡◌, refl, Option, none, some, List, []}
use taskchampion_sync_server.Core.Types.{
  Uuid, Bytes, ClientId, ServerError, GetVersionResult, AddVersionResult, SnapshotUrgency,
}
use taskchampion_sync_server.Core.Txn.{Outcome, ok, err, panic, Txn, continue, pure, ◌>>=◌, ◌>>◌}
use taskchampion_sync_server.Core.Server.{Env, add_version, add_snapshot}
use taskchampion_sync_server.Api.Http.{
  snapshot_content_type, TextOps, HttpRequest, Status, HttpResponse, HttpError, client_id_header,
}
use taskchampion_sync_server.Api.Body.{Chunk, read_snapshot_body}
use taskchampion_sync_server.Api.Handlers.{
  ServerState, get_snapshot_service, get_child_version_service, add_snapshot_service,
  add_version_service, add_version_loop, add_version_request, add_version_response, react, attempt,
  child_response, snapshot_response, lift, served, check_content_type, create_client,
}
use taskchampion_sync_server.Web.{header}

abbrev pub name : String
name = "Cache-Control"

-- The response of a handler does not have the header.
abbrev pub IsPlain : Outcome HttpError HttpResponse → Type 0
IsPlain (ok response) = header name response.headers ≡ none
IsPlain (err e) = Unit
IsPlain panic = Unit

abbrev IsPlainRound : Outcome HttpError (Option HttpResponse) → Type 0
IsPlainRound (ok none) = Unit
IsPlainRound (ok (some response)) = header name response.headers ≡ none
IsPlainRound (err e) = Unit
IsPlainRound panic = Unit

abbrev pub IsPlainEnd : {S : Type 0} → Option (Outcome HttpError HttpResponse × S) → Type 0
IsPlainEnd none = Unit
IsPlainEnd (some (r, s)) = IsPlain r

continue-IsPlain :
    {S A : Type 0} (r : Outcome HttpError A) (f : A → Txn S HttpError HttpResponse) (s : S)
    → ((x : A) (s' : S) → IsPlain (f x s').0)
    → IsPlain (continue r f s).0
continue-IsPlain (ok x) f s plain = plain x s
continue-IsPlain (err e) f s plain = tt
continue-IsPlain panic f s plain = tt

-- what `add_snapshot` answers
abbrev empty_response : HttpResponse
empty_response = record { status = Status.ok; content_type = none; headers = []; body = [] }

then-IsPlain :
    {S A : Type 0} (m : Txn S HttpError A) (s : S) → IsPlain ((m >> pure empty_response) s).0
then-IsPlain m s = continue-IsPlain (m s).0 (λ done. pure empty_response) (m s).1 λ done s'. refl

continue-IsPlainRound :
    {S A : Type 0} (r : Outcome HttpError A) (s : S)
    → IsPlainRound (continue r (λ done. pure none) s).0
continue-IsPlainRound (ok x) s = tt
continue-IsPlainRound (err e) s = tt
continue-IsPlainRound panic s = tt

module _ (ops : TextOps) where
  add_version_response-IsPlain :
      (result : AddVersionResult) (urgency : SnapshotUrgency)
      → IsPlain (ok (add_version_response ops result urgency))
  add_version_response-IsPlain (AddVersionResult.ok v) SnapshotUrgency.none = refl
  add_version_response-IsPlain (AddVersionResult.ok v) SnapshotUrgency.low = refl
  add_version_response-IsPlain (AddVersionResult.ok v) SnapshotUrgency.high = refl
  add_version_response-IsPlain (AddVersionResult.expected_parent_version v) urgency = refl

  child_response-IsPlain :
      (r : Outcome ServerError GetVersionResult) → IsPlain (child_response ops r)
  child_response-IsPlain (ok (GetVersionResult.success v p segment)) = refl
  child_response-IsPlain (ok GetVersionResult.not_found) = tt
  child_response-IsPlain (ok GetVersionResult.gone) = tt
  child_response-IsPlain (err ServerError.no_such_client) = tt
  child_response-IsPlain (err (ServerError.other e)) = tt
  child_response-IsPlain panic = tt

  snapshot_response-IsPlain :
      (found : Option (Uuid × Bytes)) → IsPlain (snapshot_response ops found)
  snapshot_response-IsPlain none = tt
  snapshot_response-IsPlain (some (v, bytes)) = refl

  module _ {S T : Type 0} (state : ServerState S T) where
    pub get_snapshot-IsPlain :
        (req : HttpRequest) (s : S) → IsPlain (get_snapshot_service ops state req s).0
    unfolding get_snapshot_service
    get_snapshot-IsPlain req s =
        continue-IsPlain (client_id_header ops state.client_id_allowlist req) _ s
          λ c s'. continue-IsPlain _ _ _ λ found s''. snapshot_response-IsPlain found

    pub get_child_version-IsPlain :
        (req : HttpRequest) (p : Uuid) (s : S)
        → IsPlain (get_child_version_service ops state req p s).0
    unfolding get_child_version_service
    get_child_version-IsPlain req p s =
        continue-IsPlain (client_id_header ops state.client_id_allowlist req) _ s
          λ c s'. child_response-IsPlain _

    module _ (env : Env) (v : Uuid) where
      abbrev store : Uuid → Bytes → Txn S HttpError HttpResponse
      store c body = served (add_snapshot state.storage env c v body) >> pure empty_response

      store-IsPlain :
          (r : Outcome HttpError Bytes) (c : Uuid) (s : S) → IsPlain (continue r (store c) s).0
      store-IsPlain r c s =
          continue-IsPlain r (store c) s
            λ body s'. then-IsPlain (served (add_snapshot state.storage env c v body)) s'

      read-IsPlain :
          (r : Outcome HttpError ClientId) (body : Outcome HttpError Bytes) (s : S)
          → IsPlain (continue r (λ c. lift body >>= store c) s).0
      read-IsPlain r body s =
          continue-IsPlain r (λ c. lift body >>= store c) s λ c s'. store-IsPlain body c s'

      pub add_snapshot-IsPlain :
          (req : HttpRequest) (payload : List Chunk) (s : S)
          → IsPlain (add_snapshot_service ops state env req v payload s).0
      unfolding add_snapshot_service
      add_snapshot-IsPlain req payload s =
          continue-IsPlain (check_content_type snapshot_content_type req)
            (λ checked. lift (client_id_header ops state.client_id_allowlist req) >>= λ c.
              lift (read_snapshot_body payload) >>= store c)
            s
            λ checked s'.
              read-IsPlain (client_id_header ops state.client_id_allowlist req)
                (read_snapshot_body payload) s'

    react-IsPlainRound :
        (c : Uuid) (r : Outcome ServerError (AddVersionResult × SnapshotUrgency)) (s : S)
        → IsPlainRound (react ops state c r s).0
    react-IsPlainRound c (ok (result, urgency)) s = add_version_response-IsPlain result urgency
    react-IsPlainRound c (err ServerError.no_such_client) s =
        continue-IsPlainRound (create_client ops state c s).0 (create_client ops state c s).1
    react-IsPlainRound c (err (ServerError.other e)) s = tt
    react-IsPlainRound c panic s = tt

    round-IsPlainEnd :
        (round : Outcome HttpError (Option HttpResponse) × S)
        (later : S → Option (Outcome HttpError HttpResponse × S))
        → IsPlainRound round.0
        → ((s : S) → IsPlainEnd (later s))
        → IsPlainEnd (elim round.0 [
          | ok none ↦ later round.1
          | ok (some response) ↦ some (ok response, round.1)
          | err e ↦ some (err e, round.1)
          | panic ↦ some (panic, round.1)
        ])
    round-IsPlainEnd (ok none, s) later plain rest = rest s
    round-IsPlainEnd (ok (some response), s) later plain rest = plain
    round-IsPlainEnd (err e, s) later plain rest = tt
    round-IsPlainEnd (panic, s) later plain rest = tt

    loop-IsPlainEnd :
        (fuel : ℕ) (envs : ℕ → Env) (c p : Uuid) (body : Bytes) (s : S)
        → IsPlainEnd (add_version_loop ops state fuel envs c p body s)
    unfolding add_version_loop attempt
    loop-IsPlainEnd zero envs c p body s = tt
    loop-IsPlainEnd (suc fuel) envs c p body s =
        let called = add_version state.storage state.config (envs fuel) c p body s in
        round-IsPlainEnd (react ops state c called.0 called.1)
          (add_version_loop ops state fuel envs c p body) (react-IsPlainRound c called.0 called.1)
          (loop-IsPlainEnd fuel envs c p body)

    pub add_version-IsPlainEnd :
        (fuel : ℕ) (envs : ℕ → Env) (req : HttpRequest) (p : Uuid) (payload : List Chunk) (s : S)
        → IsPlainEnd (add_version_service ops state fuel envs req p payload s)
    unfolding add_version_service
    add_version-IsPlainEnd fuel envs req p payload s =
        go (add_version_request ops state req payload)
      where
        go :
            (r : Outcome HttpError (ClientId × Bytes))
            → IsPlainEnd (elim r [
              | err e ↦ some (err e, s)
              | panic ↦ some (panic, s)
              | ok (client_id, body) ↦ add_version_loop ops state fuel envs client_id p body s
            ])
        go (ok (c, body)) = loop-IsPlainEnd fuel envs c p body s
        go (err e) = tt
        go panic = tt
