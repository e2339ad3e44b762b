-- ===== src/Api/Concurrent.antt =====
-- Handlers of server/src/api/add_version.rs at work at once. Between two transactions of a handler those
-- of others may run, so a handler is a state machine with one transaction a turn, and a schedule says
-- whose turn it is.
pub mod Spec
pub mod Refines
pub mod Kept
pub mod Finish
pub mod InMemory
use taskchampion_sync_server.Prelude.{ℕ, ◌==◌, List, [], ◌∷◌, if◌then◌else◌, Option, some, none}
use taskchampion_sync_server.Core.Types.{
  ClientId, VersionId, Bytes, ServerError, AddVersionResult, SnapshotUrgency,
}
use taskchampion_sync_server.Core.Txn.{Outcome, ok, err, panic}
use taskchampion_sync_server.Core.Server.{Env, add_version}
use taskchampion_sync_server.Api.Http.{TextOps, HttpError, server_error_to_actix}
use taskchampion_sync_server.Api.Handlers.{ServerState, create_client}

-- What a handler has read from its request when it comes to its loop.
pub record Job : Type 0 where
  pub client_id : ClientId
  pub parent_version_id : VersionId
  pub body : Bytes

-- Where a handler stands: about to call `add_version`, about to create the client that it has found
-- missing, or at its end.
pub data Stage : Type 0 where
  calling creating : Stage
  answered : AddVersionResult → SnapshotUrgency → Stage
  failed : HttpError → Stage
  crashed : Stage

-- the `match` on what `add_version` returns
abbrev pub after_call : Outcome ServerError (AddVersionResult × SnapshotUrgency) → Stage
after_call (ok (result, snap_urgency)) = answered result snap_urgency
after_call (err ServerError.no_such_client) = creating
after_call (err (ServerError.other e)) = failed (server_error_to_actix (ServerError.other e))
after_call panic = crashed

-- `continue`, where the client was created
abbrev pub after_create : Outcome HttpError (Unit {0}) → Stage
after_create (ok done) = calling
after_create (err e) = failed e
after_create panic = crashed

-- Whose turn it is, and what the call gets from outside.
abbrev pub Schedule : Type 0
Schedule = List (ℕ × Env)

-- the handlers with one of them at another stage
abbrev pub set_stage : (ℕ → Stage) → ℕ → Stage → ℕ → Stage
set_stage stages i stage j = if j == i then stage else stages j

module _ {S T : Type 0} (ops : TextOps) (state : ServerState S T) where
  -- one transaction of a handler
  unfoldable pub advance : Env → Job → Stage → S → Stage × S
  advance env job calling s =
      let (r, s') =
        add_version state.storage state.config env job.client_id job.parent_version_id job.body s in
      (after_call r, s')
  advance env job creating s =
      let (r, s') = create_client ops state job.client_id s in (after_create r, s')
  advance env job stage s = (stage, s)

  unfoldable pub run : (ℕ → Job) → Schedule → (ℕ → Stage) × S → (ℕ → Stage) × S
  run jobs [] sys = sys
  run jobs ((i, env) ∷ rest) (stages, s) =
      let (stage, s') = advance env (jobs i) (stages i) s in
      run jobs rest (set_stage stages i stage, s')
