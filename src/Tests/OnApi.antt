-- ===== src/Tests/OnApi.antt =====
-- The results about the handlers at a concrete input.
use taskchampion_sync_server.Prelude.{◌≡◌, refl, none, some, [], ◌∷◌, ◌++◌, map}
use taskchampion_sync_server.Core.Types.{StorageError}
use taskchampion_sync_server.Core.Txn.{err}
use taskchampion_sync_server.Core.Urgency.{default_config}
use taskchampion_sync_server.Core.Server.{
  add_version, add_snapshot, get_child_version, get_snapshot, urgency,
}
use taskchampion_sync_server.Core.InMemory.{
  in_memory, new, add_version as add_in_memory, txn, get_client, advance,
}
use taskchampion_sync_server.Core.InMemory
use taskchampion_sync_server.Api.NewClient.{on_memory, create_client_refused}
use taskchampion_sync_server.Api.Http.{HttpError, client_id_header, snapshot_content_type}
use taskchampion_sync_server.Api.Body.{chunk, broken, read_history_segment, read_snapshot_body}
use taskchampion_sync_server.Api.Body.Limit.{
  guarded, by_length, concat, read_body-chunks, read_body-broken,
}
use taskchampion_sync_server.Api.Handlers.{
  create_client, add_version_service, get_snapshot_service, get_child_version_service,
  add_snapshot_service,
}
use taskchampion_sync_server.Api.Access.{named, admit, client_id_header-eq-admit, refused_untouched}
use taskchampion_sync_server.Tests.Samples.{env_at, ops, closed_state, request, second}

client_id_header-eq-admit_example :
    client_id_header ops (some (8 ∷ [])) (request snapshot_content_type)
    ≡ admit (some (8 ∷ [])) (named ops (request snapshot_content_type))
client_id_header-eq-admit_example =
    client_id_header-eq-admit ops (some (8 ∷ [])) (request snapshot_content_type)

abbrev forbidden : HttpError
forbidden = HttpError.forbidden "unknown x-client-id"

refused_untouched_example :
    (get_snapshot_service ops closed_state (request "text/plain") second ≡ (err forbidden, second))
    × (get_child_version_service ops closed_state (request "text/plain") 1 second
        ≡ (err forbidden, second))
    × (add_snapshot_service ops closed_state (env_at 0 3) (request "text/plain") 1 [] second
        ≡ (err (HttpError.bad_request "Bad content-type"), second))
    × (add_version_service ops closed_state 2 (λ i. env_at i 0) (request "text/plain") 1 [] second
        ≡ some (err (HttpError.bad_request "Bad content-type"), second))
unfolding client_id_header
refused_untouched_example =
    refused_untouched ops closed_state (request "text/plain") forbidden refl (env_at 0 3)
      (λ i. env_at i 0) 1 [] 2 second

read_body-chunks_example :
    (read_history_segment (map chunk ((1 ∷ []) ∷ (2 ∷ []) ∷ []))
      ≡ by_length "overflow" "Empty body" (concat ((1 ∷ []) ∷ (2 ∷ []) ∷ [])))
    × (read_snapshot_body (map chunk ((1 ∷ []) ∷ (2 ∷ []) ∷ []))
        ≡ by_length "Snapshot over maximum allowed size" "No snapshot supplied"
            (concat ((1 ∷ []) ∷ (2 ∷ []) ∷ [])))
read_body-chunks_example = read_body-chunks ((1 ∷ []) ∷ (2 ∷ []) ∷ [])

read_body-broken_example :
    (read_history_segment (map chunk ((1 ∷ []) ∷ []) ++ broken 5 ∷ chunk (2 ∷ []) ∷ [])
      ≡ guarded "overflow" (λ body. err (HttpError.payload 5)) (concat ((1 ∷ []) ∷ [])))
    × (read_snapshot_body (map chunk ((1 ∷ []) ∷ []) ++ broken 5 ∷ chunk (2 ∷ []) ∷ [])
        ≡ guarded "Snapshot over maximum allowed size"
            (λ body. err (HttpError.payload 5))
            (concat ((1 ∷ []) ∷ [])))
read_body-broken_example = read_body-broken ((1 ∷ []) ∷ []) 5 (chunk (2 ∷ []) ∷ [])

create_client_refused_example :
    create_client ops (on_memory default_config none) 7 second
    ≡ (err (HttpError.internal_server_error (StorageError.client_already_exists 7)), second)
unfolding add_version txn create_client InMemory.drop InMemory.new_client InMemory.commit
    taskchampion_sync_server.Core.Server.add_version_in get_client add_in_memory
create_client_refused_example =
    create_client_refused ops default_config none second 7
      (record { latest_version_id = 2; snapshot = none }) refl refl
