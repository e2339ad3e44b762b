-- ===== src/Tests/OnConcurrent.antt =====
-- The results about handlers and threads that are at work at once, at concrete inputs.
use taskchampion_sync_server.Prelude.{
  ℕ, ◌≡◌, refl, ◌≢◌, ◌+◌, true, none, some, List, [], ◌∷◌, arith, length,
}
use taskchampion_sync_server.Core.Types.{Uuid, AddVersionResult, GetVersionResult}
use taskchampion_sync_server.Core.Txn.{ok}
use taskchampion_sync_server.Core.Urgency.{default_config}
use taskchampion_sync_server.Core.Server.{urgency, get_child_version}
use taskchampion_sync_server.Core.History.Calls.{IsNewTo}
use taskchampion_sync_server.Core.Protocol.{Holds}
use taskchampion_sync_server.Core.InMemory.{InMemoryStorage, in_memory, new}
use taskchampion_sync_server.Core.InMemory.Fulfils.{in_memory-Contract, new-Holds}
use taskchampion_sync_server.Api.NewClient.{on_memory, taken}
use taskchampion_sync_server.Api.Handlers.{attempt}
use taskchampion_sync_server.Api.Concurrent.{Job, Schedule, calling, answered, run, advance}
use taskchampion_sync_server.Api.Concurrent.Spec.{spec_run, AllUnused, Distinct, HasRoom}
use taskchampion_sync_server.Api.Concurrent.Finish.{is_finished}
use taskchampion_sync_server.Api.Concurrent.InMemory.{
  all_calling, run-refines, acknowledged_served, three_turns_finish,
}
use taskchampion_sync_server.Sqlite.{sqlite}
use taskchampion_sync_server.Sqlite.{new as new_tables}
use taskchampion_sync_server.Sqlite.Agreement.{on_sqlite}
use taskchampion_sync_server.Sqlite.Fulfils.{new-Holds as tables-Holds}
use taskchampion_sync_server.Sqlite.Forks.{crossed, crossed_accepts_both, same_parent}
use taskchampion_sync_server.Sqlite.Threads.{interleave, count_versions}
use taskchampion_sync_server.Sqlite.Threads.Counts.{AllFresh, threads_lose_nothing}
use taskchampion_sync_server.Tests.Samples.{env_at, ops, nobody, made_world, IsFresh-first}
use taskchampion_sync_server.Tests.OnSqlite.{
  crates, laws, made as made_tables, made-Holds as made_tables-Holds,
}

-- Two clients' handlers; the first is interrupted twice.
abbrev jobs : ℕ → Job
jobs i = record { client_id = i; parent_version_id = 0; body = 65 ∷ [] }

abbrev turns : Schedule
turns =
    (8, env_at 11 0)
    ∷ (9, env_at 12 0)
    ∷ (8, env_at 13 0)
    ∷ (9, env_at 14 0)
    ∷ (8, env_at 15 0)
    ∷ []

distinct : Distinct turns
distinct = ground arith

unused : AllUnused jobs nobody turns
unused = ground arith

room : HasRoom (length turns) nobody
room c = omega arith

run-refines_example :
    let (stages, s') = run ops (on_memory default_config none) jobs turns (all_calling, new) in
    let (stages', w') = spec_run default_config taken jobs turns (all_calling, nobody) in
    (stages ≡ stages') × Holds in_memory-Contract s' w'
run-refines_example =
    run-refines ops default_config none jobs turns new nobody new-Holds distinct unused room

acknowledged_served_example :
    (get_child_version in_memory 8 0
      (run ops (on_memory default_config none) jobs turns (all_calling, new)).1).0
    ≡ ok (GetVersionResult.success 15 0 (65 ∷ []))
unfolding run advance taskchampion_sync_server.Core.Server.add_version
    taskchampion_sync_server.Core.InMemory.txn taskchampion_sync_server.Core.InMemory.drop
    taskchampion_sync_server.Core.Server.add_version_in
    taskchampion_sync_server.Core.InMemory.get_client
    taskchampion_sync_server.Api.Handlers.create_client
    taskchampion_sync_server.Core.InMemory.new_client taskchampion_sync_server.Core.InMemory.commit
    taskchampion_sync_server.Core.InMemory.add_version
acknowledged_served_example =
    acknowledged_served ops default_config none jobs turns new nobody new-Holds distinct unused room
      8 15 (urgency default_config (env_at 15 0) none) refl

three_turns_finish_example :
    is_finished ((run ops (on_memory default_config none) jobs turns (all_calling, new)).0 8) ≡ true
three_turns_finish_example =
    three_turns_finish ops default_config none jobs turns new nobody new-Holds distinct unused room
      8 (omega arith)

crossed_accepts_both_example :
    let (stages, s') =
      run ops
        (on_sqlite crates laws default_config none)
        (same_parent 7 0 (λ i. i ∷ []))
        (crossed (λ i. env_at (11 + i) 0))
        ((λ i. calling), new_tables none) in
    (stages 0 ≡ answered (AddVersionResult.ok 14) (urgency default_config (env_at 14 0) none))
    × (stages 1 ≡ answered (AddVersionResult.ok 16) (urgency default_config (env_at 16 0) none))
crossed_accepts_both_example =
    crossed_accepts_both crates laws ops default_config none (λ i. env_at (11 + i) 0) 7 0
      (λ i. i ∷ []) (new_tables none) nobody (tables-Holds crates laws) refl
      (λ i. (omega arith, omega arith, λ c. tt)) (omega arith)

-- Two threads with two transactions each.
abbrev order : List (ℕ × Uuid)
order = (0, 11) ∷ (1, 12) ∷ (1, 13) ∷ (0, 14) ∷ []

unseen : (x : ℕ) → x ≢ 0 → (c : Uuid) → IsNewTo x (made_world c)
unseen x ne = (IsFresh-first x 0 ne ne).2

order-AllFresh : AllFresh made_world order
order-AllFresh = (
  (omega arith, unseen 11 (omega arith), ground arith),
  (
    (omega arith, unseen 12 (omega arith), ground arith),
    (
      (omega arith, unseen 13 (omega arith), ground arith),
      ((omega arith, unseen 14 (omega arith), tt), tt),
    ),
  ),
)

threads_lose_nothing_example :
    (count_versions
      (sqlite crates)
      7
      5
      (interleave (sqlite crates) 7 order (λ i. true) made_tables)).0
    ≡ ok (some 4)
threads_lose_nothing_example =
    threads_lose_nothing crates laws 7 order made_tables made_world made_tables-Holds refl
      order-AllFresh (omega arith)
