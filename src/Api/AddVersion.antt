-- ===== src/Api/AddVersion.antt =====
-- The handler of `add_version` creates an unknown client and answers in at most two rounds.
use taskchampion_sync_server.Prelude.{
  ℕ, suc, ◌≡◌, refl, ◌∙◌, Option, none, some, List, [], arith, Bool-cases, inl, inr,
}
use taskchampion_sync_server.Core.Types.{
  Uuid, Bytes, nil_version_id, ServerError, AddVersionResult, SnapshotUrgency, ServerConfig,
}
use taskchampion_sync_server.Core.Txn.{Outcome, ok, err, panic, other?, ◌>>◌}
use taskchampion_sync_server.Core.Storage.Contract.{Db, Contract}
use taskchampion_sync_server.Core.Server.{Env, add_version, urgency}
use taskchampion_sync_server.Core.Server.Runs.{Ends, with_txn-Ends}
use taskchampion_sync_server.Core.Server.AddVersion.{IsSmall, add_version-refines}
use taskchampion_sync_server.Core.History.Chain.{latest}
use taskchampion_sync_server.Core.History.Calls.{
  History, World, IsWorld, IsFresh, views, set_history, set_view-views, accepts, meta,
  add_version_to,
}
use taskchampion_sync_server.Core.History.Invariant.{set_history-IsWorld, set_history-IsNewTo}
use taskchampion_sync_server.Api.Http.{
  TextOps, HttpRequest, HttpResponse, HttpError, server_error_to_actix,
}
use taskchampion_sync_server.Api.Body.{Chunk}
use taskchampion_sync_server.Api.Handlers.{
  ServerState, add_version_response, create_client, attempt, add_version_loop, add_version_request,
  add_version_service,
}

-- A client with no versions.
abbrev pub new_history : History
new_history = record { versions = []; snapshot = none }

-- The HTTP answer to a result of the server.
abbrev pub to_response :
    TextOps
    → Outcome ServerError (AddVersionResult × SnapshotUrgency)
    → Outcome HttpError HttpResponse
to_response ops (ok (result, snap_urgency)) = ok (add_version_response ops result snap_urgency)
to_response ops (err e) = err (server_error_to_actix e)
to_response ops panic = panic

-- A client that exists gets an answer.
add_version_to-ok :
    (config : ServerConfig) (env : Env) (c p : Uuid) (bytes : Bytes) (w : World) (h : History)
    → (x : AddVersionResult × SnapshotUrgency) × ((add_version_to config env c p bytes w (some h)).0
        ≡ ok x)
add_version_to-ok config env c p bytes w h = elim (Bool-cases (accepts h.versions p)) [
  | inl accepted ↦
      ((AddVersionResult.ok env.new_v4, urgency config env (meta h.snapshot)), rw accepted)
  | inr refused ↦ (
    (AddVersionResult.expected_parent_version (latest h.versions), SnapshotUrgency.none),
    rw refused,
  )
]

-- A fresh identifier is fresh for a new client too.
pub IsFresh-after_create :
    (x p : Uuid) (w : World) (c : Uuid) → IsFresh x p w → IsFresh x p (set_history w c new_history)
IsFresh-after_create x p w c fresh =
    (fresh.0, fresh.1, set_history-IsNewTo x w c new_history fresh.0 fresh.2)

module _ {S T : Type 0} (ops : TextOps) (state : ServerState S T) (k : Contract state.storage) where
  -- The handler ended with `r`, and left a storage that is ready and holds `db`.
  abbrev pub Serves :
      Option (Outcome HttpError HttpResponse × S) → Outcome HttpError HttpResponse → Db → Type 0
  Serves o r db =
      (out : Outcome HttpError HttpResponse × S) × (o ≡ some out)
      × (out.0 ≡ r)
      × k.Ready out.1
      × (k.stored out.1 ≡ db)

  module _ (s : S) (w : World) (c : Uuid) (ready : k.Ready s) (same : k.stored s ≡ views w) where
    -- The new client has no versions and no snapshot.
    pub create_client-Ends :
        w c ≡ none
        → let (r, s') = create_client ops state c s in
          (r ≡ ok tt) × k.Ready s' × (k.stored s' ≡ views (set_history w c new_history))
    unfolding create_client
    create_client-Ends e =
        let law =
          k.new_client_lem nil_version_id (k.begin s c) (k.begin-Open s c ready)
            (rw (k.db-begin s c ready, k.owner-begin s c ready, same, e)) in
        let committed =
          k.commit_lem (state.storage.new_client nil_version_id (k.begin s c)).1 law.1 in
        let ends =
          with_txn-Ends k s c ready
            (other? (state.storage.new_client nil_version_id) >> other? state.storage.commit)
            (
              ok tt,
              (state.storage.commit (state.storage.new_client nil_version_id (k.begin s c)).1).1,
            )
            (views (set_history w c new_history)) (rw (law.0, committed.0)) committed.1
            (committed.2
              ∙ law.2
              ∙ rw (k.db-begin s c ready, k.owner-begin s c ready, same)
                  (set_view-views w c new_history _ (rw e))) in
        (rw ends.0, ends.1, ends.2)

  module _ (envs : ℕ → Env) (n : ℕ) (c p : Uuid) (body : Bytes) (s : S) where
    abbrev result : Outcome ServerError (AddVersionResult × SnapshotUrgency) × S
    result = add_version state.storage state.config (envs n) c p body s

    attempt_done :
        (x : AddVersionResult × SnapshotUrgency)
        → result.0 ≡ ok x
        → attempt ops state (envs n) c p body s
          ≡ (ok (some (add_version_response ops x.0 x.1)), result.1)
    unfolding attempt
    attempt_done x e = rw (e, attempt)

    attempt_retry :
        result.0 ≡ err ServerError.no_such_client
        → (create_client ops state c result.1).0 ≡ ok tt
        → attempt ops state (envs n) c p body s ≡ (ok none, (create_client ops state c result.1).1)
    unfolding attempt
    attempt_retry e made = rw (e, attempt, made)

    -- A round that gets an answer ends the loop.
    loop_done :
        (x : AddVersionResult × SnapshotUrgency)
        → result.0 ≡ ok x
        → add_version_loop ops state (suc n) envs c p body s
          ≡ some (to_response ops (ok x), result.1)
    unfolding add_version_loop
    loop_done x e = rw (attempt_done x e, add_version_loop, attempt_done x e)

    -- A round that finds no client creates it, and the loop goes on.
    loop_retry :
        result.0 ≡ err ServerError.no_such_client
        → (create_client ops state c result.1).0 ≡ ok tt
        → add_version_loop ops state (suc n) envs c p body s
          ≡ add_version_loop ops state n envs c p body (create_client ops state c result.1).1
    unfolding add_version_loop
    loop_retry e made = rw (attempt_retry e made, add_version_loop, attempt_retry e made)

  -- A client's call is answered by what the protocol says of its line.
  answered :
      (envs : ℕ → Env) (n : ℕ) (c p : Uuid) (body : Bytes) (s : S) (w : World) (h : History)
      → k.Ready s
      → k.stored s ≡ views w
      → IsWorld w
      → w c ≡ some h
      → IsSmall (some h)
      → IsFresh (envs n).new_v4 p w
      → let (r, w') = add_version_to state.config (envs n) c p body w (some h) in
        Serves (add_version_loop ops state (suc n) envs c p body s) (to_response ops r) (views w')
  answered envs n c p body s w h ready same valid e small fresh =
      let ends : Ends k (result envs n c p body s)
          (add_version_to state.config (envs n) c p body w (some h)).0
          (views (add_version_to state.config (envs n) c p body w (some h)).1) =
        rw e at (
          add_version-refines k state.config (envs n) s w c p body ready same valid (rw e small)
            fresh) in
      let (x, is) = add_version_to-ok state.config (envs n) c p body w h in
      (
        (to_response ops (ok x), (result envs n c p body s).1),
        loop_done envs n c p body s x (ends.0 ∙ is),
        rw is,
        ends.1,
        ends.2,
      )

  -- what the handler comes to, by the client's history
  abbrev pub call :
      (ℕ → Env)
      → ℕ
      → Uuid
      → Uuid
      → Bytes
      → World
      → Option History
      → Outcome ServerError (AddVersionResult × SnapshotUrgency) × World
  call envs n c p body w none =
      add_version_to state.config (envs n) c p body (set_history w c new_history) (some new_history)
  call envs n c p body w (some h) = add_version_to state.config (envs (suc n)) c p body w (some h)

  loop-Serves :
      (envs : ℕ → Env) (n : ℕ) (c p : Uuid) (body : Bytes) (s : S) (w : World) (o : Option History)
      → k.Ready s
      → k.stored s ≡ views w
      → IsWorld w
      → w c ≡ o
      → IsSmall o
      → ((i : ℕ) → IsFresh (envs i).new_v4 p w)
      → let (r, w') = call envs n c p body w o in
        Serves
          (add_version_loop ops state (suc (suc n)) envs c p body s)
          (to_response ops r)
          (views w')
  loop-Serves envs n c p body s w (some h) ready same valid e small fresh =
      answered envs (suc n) c p body s w h ready same valid e small (fresh (suc n))
  loop-Serves envs n c p body s w none ready same valid e small fresh =
      let absent : Ends k (result envs (suc n) c p body s) (err ServerError.no_such_client)
          (views w) =
        rw e at (
          add_version-refines k state.config (envs (suc n)) s w c p body ready same valid (rw e tt)
            (fresh (suc n))) in
      let made = create_client-Ends (result envs (suc n) c p body s).1 w c absent.1 absent.2 e in
      rw (loop_retry envs (suc n) c p body s absent.0 made.0) (
        answered envs n c p body _ (set_history w c new_history) new_history made.1 made.2
          (set_history-IsWorld w c new_history valid (tt, tt)) (ground arith) (omega arith)
          (IsFresh-after_create (envs n).new_v4 p w c (fresh n)))

  -- For a request whose headers and body are accepted, on a storage that holds lines of versions, with
  -- fresh identifiers and fewer than 2 ^ 32 - 1 versions of the client: two rounds of the loop are
  -- enough. The answer is that of `add_version` on the client's line, with a client that is created
  -- empty if there was none, and the storage then holds what the protocol says.
  pub add_version_service-Serves :
      (envs : ℕ → Env) (n : ℕ) (req : HttpRequest) (p : Uuid) (payload : List Chunk) (c : Uuid)
      (body : Bytes) (s : S) (w : World)
      → k.Ready s
      → k.stored s ≡ views w
      → IsWorld w
      → add_version_request ops state req payload ≡ ok (c, body)
      → IsSmall (w c)
      → ((i : ℕ) → IsFresh (envs i).new_v4 p w)
      → let (r, w') = call envs n c p body w (w c) in
        Serves
          (add_version_service ops state (suc (suc n)) envs req p payload s)
          (to_response ops r)
          (views w')
  unfolding add_version_service
  add_version_service-Serves envs n req p payload c body s w ready same valid request small fresh =
      rw (request, add_version_service)
        (loop-Serves envs n c p body s w (w c) ready same valid refl small fresh)
