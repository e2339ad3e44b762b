-- ===== src/Tests/Witnesses.antt =====
-- Each property at a concrete input at which its hypotheses hold.
use taskchampion_sync_server.Prelude.{
  ℕ, ◌+◌, ◌-◌, ◌*◌, ◌/◌, ◌≤◌, ◌≡◌, ◌↔◌, refl, leb, true, false, Option, none, some, [], ◌∷◌, arith,
  if◌then◌else◌,
}
use taskchampion_sync_server.Prelude.Int.{pos, leb_ℤ}
use taskchampion_sync_server.Core.Types.{
  ServerConfig, Snapshot, AddVersionResult, SnapshotUrgency, GetVersionResult, StorageError,
  ServerError,
}
use taskchampion_sync_server.Core.Txn.{ok, err, panic, other?}
use taskchampion_sync_server.Core.Storage.{with_txn}
use taskchampion_sync_server.Core.Urgency.{default_config, for_days, for_versions_since}
use taskchampion_sync_server.Core.Urgency.Thresholds.{
  rank, passed, AtMost, for_days-rank, for_versions_since-rank, for_versions_since_mono,
  for_versions_since-overflow, urgency-le_iff,
}
use taskchampion_sync_server.Core.Server.{
  add_version, add_snapshot, get_child_version, get_snapshot, urgency,
}
use taskchampion_sync_server.Core.Server.Runs.{Ends}
use taskchampion_sync_server.Core.Server.AddVersion.{add_version-refines}
use taskchampion_sync_server.Core.Server.AddSnapshot.{add_snapshot-refines}
use taskchampion_sync_server.Core.Server.GetChildVersion.{get_child_version-refines}
use taskchampion_sync_server.Core.Server.GetSnapshot.{get_snapshot-refines}
use taskchampion_sync_server.Core.History.Calls.{
  views, add_version_to, add_snapshot_to, child_of, snapshot_of, is_wanted,
}
use taskchampion_sync_server.Core.InMemory.{
  in_memory, new, add_version as add_in_memory, txn, get_client, advance,
}
use taskchampion_sync_server.Core.InMemory
use taskchampion_sync_server.Core.InMemory.Fulfils.{in_memory-Contract}
use taskchampion_sync_server.Core.InMemory.Failures.{failed_add_version_stays, opened_by}
use taskchampion_sync_server.Core.InMemory.Drops.{drop-after_calls}
use taskchampion_sync_server.Core.Storage.Call.{Call, run_calls}
use taskchampion_sync_server.Core.Protocol.{Holds}
use taskchampion_sync_server.Core.Protocol.Foreign.{get_snapshot-add_snapshot_of_parent}
use taskchampion_sync_server.Core.Protocol.Replies.{
  get_child_version-add_version, add_version-add_version, get_child_version-kept,
  get_snapshot-add_snapshot, get_snapshot-add_snapshot_newest,
}
use taskchampion_sync_server.Core.Protocol.Pull.{pull, pull-newer}
use taskchampion_sync_server.Api.Http.{client_id_header, history_segment_content_type}
use taskchampion_sync_server.Api.Body.{chunk, read_history_segment}
use taskchampion_sync_server.Api.Handlers.{
  create_client, add_version_service, get_snapshot_service, get_child_version_service,
  add_snapshot_service,
}
use taskchampion_sync_server.Api.AddVersion.{Serves, call, to_response, add_version_service-Serves}
use taskchampion_sync_server.Api.Sessions.{Reach}
use taskchampion_sync_server.Api.Sessions.InMemory.{reached_in_memory-Holds}
use taskchampion_sync_server.Api.Handlers.{create_client}
use taskchampion_sync_server.Tests.Samples.{
  made, made_world, made-Holds, IsFresh-first, env_at, ops, state, request, first, second,
  first_world, second_world, first_history, second_history, version_one, version_two, first-Holds,
  second-Holds, reach_second, IsFresh-second, IsFresh-third,
}

-- A client has two versions and is created again.
reached_in_memory-Holds_example :
    Holds in_memory-Contract (create_client ops state 7 second).1 second_world
reached_in_memory-Holds_example =
    reached_in_memory-Holds ops default_config none (Reach.client_again 7 reach_second refl refl)

add_version-refines_example :
    let (r, w') =
      add_version_to default_config (env_at 2 0) 7 1 (66 ∷ []) first_world (first_world 7) in
    Ends in_memory-Contract
      (add_version in_memory default_config (env_at 2 0) 7 1 (66 ∷ []) first)
      r
      (views w')
add_version-refines_example =
    add_version-refines in_memory-Contract default_config (env_at 2 0) first first_world 7 1
      (66 ∷ []) first-Holds.ready first-Holds.same first-Holds.valid (omega arith)
      (IsFresh-second 2 (omega arith) (omega arith))

add_snapshot-refines_example :
    let (r, w') =
      add_snapshot_to
        (in_memory-Contract.kept)
        (env_at 0 3)
        7
        1
        (90 ∷ [])
        second_world
        (second_world 7) in
    Ends in_memory-Contract (add_snapshot in_memory (env_at 0 3) 7 1 (90 ∷ []) second) r (views w')
add_snapshot-refines_example =
    add_snapshot-refines in_memory-Contract (env_at 0 3) second second_world 7 1 (90 ∷ [])
      second-Holds.ready second-Holds.same second-Holds.valid

get_child_version-refines_example :
    Ends in_memory-Contract
      (get_child_version in_memory 7 1 second)
      (child_of 1 (second_world 7))
      (views second_world)
get_child_version-refines_example =
    get_child_version-refines in_memory-Contract second second_world 7 1 second-Holds.ready
      second-Holds.same second-Holds.valid

get_snapshot-refines_example :
    Ends in_memory-Contract
      (get_snapshot in_memory 7 second)
      (snapshot_of (second_world 7))
      (views second_world)
get_snapshot-refines_example =
    get_snapshot-refines in_memory-Contract second second_world 7 second-Holds.ready
      second-Holds.same

add_version_service-Serves_example :
    let (r, w') =
      call ops state in_memory-Contract
        (λ i. env_at (3 + i) 0)
        0
        7
        2
        (67 ∷ [])
        second_world
        (second_world 7) in
    Serves ops state in_memory-Contract
      (add_version_service ops state 2
        (λ i. env_at (3 + i) 0)
        (request history_segment_content_type)
        2
        (chunk (67 ∷ []) ∷ [])
        second)
      (to_response ops r)
      (views w')
unfolding client_id_header read_history_segment
    taskchampion_sync_server.Api.Handlers.add_version_request
add_version_service-Serves_example =
    add_version_service-Serves ops state in_memory-Contract (λ i. env_at (3 + i) 0) 0
      (request history_segment_content_type) 2 (chunk (67 ∷ []) ∷ []) 7 (67 ∷ []) second
      second_world second-Holds.ready second-Holds.same second-Holds.valid refl (omega arith)
      (λ i. IsFresh-third (3 + i) 2 (omega arith) (omega arith) (omega arith) (omega arith))

get_child_version-add_version_example :
    (get_child_version in_memory 7 1
      (add_version in_memory default_config (env_at 2 0) 7 1 (66 ∷ []) first).1).0
    ≡ ok (GetVersionResult.success 2 1 (66 ∷ []))
get_child_version-add_version_example =
    get_child_version-add_version in_memory-Contract default_config (env_at 2 0) 7 1 (66 ∷ []) first
      first_world first-Holds (omega arith) (IsFresh-second 2 (omega arith) (omega arith))
      first_history refl refl

add_version-add_version_example :
    ((add_version in_memory default_config (env_at 3 0) 7 1 (67 ∷ []) second).0
      ≡ ok (AddVersionResult.expected_parent_version 2, SnapshotUrgency.none))
    × (in_memory-Contract.stored
          (add_version in_memory default_config (env_at 3 0) 7 1 (67 ∷ []) second).1
        ≡ in_memory-Contract.stored second)
add_version-add_version_example =
    add_version-add_version in_memory-Contract default_config (env_at 2 0) 7 1 (66 ∷ []) first
      first_world first-Holds (omega arith) (IsFresh-second 2 (omega arith) (omega arith))
      first_history refl refl (env_at 3 0) (67 ∷ []) (omega arith)
      (IsFresh-third 3 1 (omega arith) (omega arith) (omega arith) (omega arith))

get_child_version-kept_example :
    (get_child_version in_memory 7 0 second).0 ≡ (get_child_version in_memory 7 0 first).0
get_child_version-kept_example =
    get_child_version-kept in_memory-Contract default_config (env_at 2 0) 7 1 (66 ∷ []) first
      first_world first-Holds (omega arith) (IsFresh-second 2 (omega arith) (omega arith))
      first_history refl refl 0 version_one refl

get_snapshot-add_snapshot_example :
    (get_snapshot in_memory 7 (add_snapshot in_memory (env_at 0 3) 7 1 (90 ∷ []) second).1).0 ≡ (
      if is_wanted 1 second_history
      then ok (some (1, 90 ∷ []))
      else (get_snapshot in_memory 7 second).0)
get_snapshot-add_snapshot_example =
    get_snapshot-add_snapshot in_memory-Contract (env_at 0 3) 7 1 (90 ∷ []) second second_world
      second-Holds second_history refl

get_snapshot-add_snapshot_newest_example :
    (get_snapshot in_memory 7 (add_snapshot in_memory (env_at 0 3) 7 2 (90 ∷ []) second).1).0
    ≡ ok (some (2, 90 ∷ []))
get_snapshot-add_snapshot_newest_example =
    get_snapshot-add_snapshot_newest in_memory-Contract default_config (env_at 2 0) 7 1 (66 ∷ [])
      first first_world first-Holds (omega arith) (IsFresh-second 2 (omega arith) (omega arith))
      first_history refl refl (env_at 0 3) (90 ∷ []) refl

get_snapshot-add_snapshot_of_parent_example :
    let one = (add_version in_memory default_config (env_at 1 0) 7 5 (65 ∷ []) made).1 in
    let kept = (add_snapshot in_memory (env_at 0 3) 7 5 (90 ∷ []) one).1 in
    ((in_memory-Contract.stored one 7).by_id 5 ≡ none)
    × ((get_snapshot in_memory 7 kept).0 ≡ ok (some (5, 90 ∷ [])))
    × ((get_child_version in_memory 7 5 one).0 ≡ ok (GetVersionResult.success 1 5 (65 ∷ [])))
get_snapshot-add_snapshot_of_parent_example =
    get_snapshot-add_snapshot_of_parent in_memory-Contract default_config (env_at 1 0) 7 5 (65 ∷ [])
      made made_world made-Holds (IsFresh-first 1 5 (omega arith) (omega arith)) refl (env_at 0 3)
      (90 ∷ []) (omega arith)

pull-newer_example : pull in_memory 7 2 1 second ≡ (version_two ∷ [], true)
pull-newer_example =
    pull-newer in_memory-Contract 7 second_world second_history refl (version_two ∷ []) version_one
      [] second refl second-Holds

for_versions_since-rank_example :
    rank (for_versions_since default_config 120)
    ≡ passed (leb default_config.snapshot_versions 120)
      + passed (leb (default_config.snapshot_versions * 3) (2 * 120 + 1))
for_versions_since-rank_example = for_versions_since-rank default_config 120 (omega arith)

for_days-rank_example :
    rank (for_days default_config (pos 15))
    ≡ passed (leb_ℤ (pos 14) (pos 15)) + passed (leb_ℤ (pos (14 * 3 / 2)) (pos 15))
for_days-rank_example = for_days-rank default_config 14 (pos 15) refl (omega arith)

for_versions_since_mono_example :
    rank (for_versions_since default_config 99) ≤ rank (for_versions_since default_config 100)
for_versions_since_mono_example = for_versions_since_mono default_config 99 100 (omega arith)

abbrev huge : ServerConfig
huge = record { snapshot_days = pos 14; snapshot_versions = 2000000000 }

for_versions_since-overflow_example :
    for_versions_since huge (huge.snapshot_versions - 1) ≡ SnapshotUrgency.high
for_versions_since-overflow_example = for_versions_since-overflow huge (omega arith) (omega arith)

abbrev aged : Option Snapshot
aged = some (record { version_id = 1; timestamp = 0; versions_since = 120 })

urgency-le_iff_example :
    (rank (urgency default_config (env_at 2 15) aged) ≤ 1)
    ↔ AtMost default_config (env_at 2 15) aged 1
urgency-le_iff_example = urgency-le_iff default_config (env_at 2 15) aged 1

-- the client is new, and the transaction creates it
drop-after_calls_example :
    let calls = Call.call_get_client ∷ Call.call_new_client 0 ∷ [] in
    let left = run_calls in_memory calls (opened_by new 7) in
    let dropped = with_txn {A = ℕ} in_memory new 7 (λ t. (ok 5, run_calls in_memory calls t)) in
    let committed =
      with_txn in_memory new 7 (λ t. other? in_memory.commit (run_calls in_memory calls t)) in
    (committed ≡ (ok tt, record { inner = left.guard; poisoned = false }))
    × (dropped.0 ≡ panic)
    × (txn dropped.1 8 ≡ panic)
    × (dropped.1.inner ≡ left.guard)
unfolding InMemory.get_client InMemory.new_client
drop-after_calls_example =
    drop-after_calls new 7 8 (Call.call_get_client ∷ Call.call_new_client 0 ∷ []) refl (ok 5)
      (λ e. absurd (cc e))

failed_add_version_stays_example :
    let attempted = with_txn in_memory second 7 (other? (add_in_memory 9 1 [])) in
    (attempted.0 ≡ err (ServerError.other (StorageError.already_has_child 7 1)))
    × (txn attempted.1 7 ≡ ok (opened_by attempted.1 7))
    × ((get_client (opened_by attempted.1 7)).0
        ≡ ok (some (advance (record { latest_version_id = 2; snapshot = none }) 9)))
unfolding add_version taskchampion_sync_server.Core.Server.add_version_in create_client InMemory.txn
    InMemory.get_client InMemory.new_client InMemory.add_version InMemory.commit InMemory.drop
    urgency
failed_add_version_stays_example =
    failed_add_version_stays second 7 9 1 2 [] (record { latest_version_id = 2; snapshot = none })
      refl refl refl
