-- ===== src/Tests/OnSqlite.antt =====
-- The results about SQLite, with crates that write an identifier as so many letters.
use Prim.Native.String.{String}
use taskchampion_sync_server.Prelude.{
  ℕ, zero, suc, ◌≡◌, refl, ap, Bool, false, none, some, [], ◌∷◌, arith, if◌then◌else◌,
}
use taskchampion_sync_server.Prelude.Int.{pos, negsuc}
use taskchampion_sync_server.Core.Types.{
  AddVersionResult, StorageError, ServerError, nil_version_id,
}
use taskchampion_sync_server.Core.Txn.{ok, err, other?}
use taskchampion_sync_server.Core.Storage.{with_txn}
use taskchampion_sync_server.Core.Urgency.{default_config}
use taskchampion_sync_server.Core.Server.{
  add_version, add_snapshot, get_child_version, get_snapshot, urgency,
}
use taskchampion_sync_server.Core.Protocol.{Holds}
use taskchampion_sync_server.Core.InMemory.{in_memory}
use taskchampion_sync_server.Api.Handlers.{create_client}
use taskchampion_sync_server.Api.Sessions.{Reach}
use taskchampion_sync_server.Sqlite.Tables.{Database}
use taskchampion_sync_server.Sqlite.Rows.{Lawful, client_row, version_row}
use taskchampion_sync_server.Sqlite.Views.{view, IsValid}
use taskchampion_sync_server.Sqlite.Fulfils.{sqlite-Contract, new-Holds}
use taskchampion_sync_server.Sqlite.Agreement.{on_sqlite, reached_sqlite-Holds, same_replies}
use taskchampion_sync_server.Sqlite.Races.{create_client_resets}
use taskchampion_sync_server.Core.Storage.Call.{Call, run_calls}
use taskchampion_sync_server.Sqlite.Rollback.{uncommitted_rolls_back, committed_stays}
use taskchampion_sync_server.Sqlite.Columns.{Crates}
use taskchampion_sync_server.Sqlite.{sqlite, new, commit, current}
use taskchampion_sync_server.Sqlite.Calls.{in_txn}
use taskchampion_sync_server.Sqlite.Faults.{Plan, faulty_sqlite}
use taskchampion_sync_server.Sqlite.Faults.Runs.{IsAllOrNothing}
use taskchampion_sync_server.Sqlite.Faults.Atomic.{server-IsAllOrNothing}
use taskchampion_sync_server.Tests.Samples.{
  env_at, count, ops, made_world, first_world, first, version_one, first-Holds, IsFresh-first,
  IsFresh-second,
}

abbrev pub spell : ℕ → String
spell zero = String.[]
spell (suc n) = String.◌∷◌ "x" (spell n)

abbrev pub crates : Crates
crates = record {
  to_string = spell;
  parse_str = λ text. some (count text);
  timestamp = λ t. pos t;
  timestamp_opt = λ n. elim n [ pos t ↦ some t | negsuc t ↦ none ];
}

pub count-spell : (n : ℕ) → count (spell n) ≡ n
count-spell zero = refl
count-spell (suc n) = ap (λ k. suc k) (count-spell n)

abbrev pub laws : Lawful crates
laws = record {
  parse_str-to_string = λ n. ap (λ k. some k) (count-spell n);
  kept = λ t. t;
  timestamp_opt-timestamp = λ t. refl;
}

abbrev pub made : Database
made = (create_client ops (on_sqlite crates laws default_config none) 7 (new none)).1

abbrev one_version : Database
one_version =
    (add_version (sqlite crates) default_config (env_at 1 0) 7 nil_version_id (65 ∷ []) made).1

reach_made :
    Reach ops
      (on_sqlite crates laws default_config none)
      (sqlite-Contract crates laws)
      false
      made
      made_world
reach_made =
    Reach.client 7
      (Reach.start (new none) (new-Holds crates laws).ready (new-Holds crates laws).same) refl

pub made-Holds : Holds (sqlite-Contract crates laws) made made_world
made-Holds = reached_sqlite-Holds crates laws ops default_config none reach_made

reach_one :
    Reach ops
      (on_sqlite crates laws default_config none)
      (sqlite-Contract crates laws)
      false
      one_version
      first_world
reach_one =
    Reach.new_version (env_at 1 0) 7 0 (65 ∷ []) reach_made (omega arith)
      (IsFresh-first 1 0 (omega arith) (omega arith))

reached_sqlite-Holds_example : Holds (sqlite-Contract crates laws) one_version first_world
reached_sqlite-Holds_example = reached_sqlite-Holds crates laws ops default_config none reach_one

same_replies_example :
    ((get_child_version (sqlite crates) 7 1 one_version).0
      ≡ (get_child_version in_memory 7 1 first).0)
    × ((get_snapshot (sqlite crates) 7 one_version).0 ≡ (get_snapshot in_memory 7 first).0)
    × ((add_version (sqlite crates) default_config (env_at 2 0) 7 1 (66 ∷ []) one_version).0
        ≡ (add_version in_memory default_config (env_at 2 0) 7 1 (66 ∷ []) first).0)
same_replies_example =
    same_replies crates laws default_config (env_at 2 0) 7 1 (66 ∷ []) one_version first first_world
      (reached_sqlite-Holds crates laws ops default_config none reach_one) first-Holds (omega arith)
      (IsFresh-second 2 (omega arith) (omega arith))

uncommitted_rolls_back_example :
    with_txn {A = Unit {0}} (sqlite crates) one_version 7 (λ t. (
      err (ServerError.other (StorageError.backend "disk full")),
      run_calls
          (sqlite crates)
          (Call.call_new_client 0 ∷ Call.call_add_version 2 1 (66 ∷ []) ∷ [])
          t,
    ))
    ≡ (err (ServerError.other (StorageError.backend "disk full")), one_version)
uncommitted_rolls_back_example =
    uncommitted_rolls_back crates one_version 7
      (Call.call_new_client 0 ∷ Call.call_add_version 2 1 (66 ∷ []) ∷ [])
      (err (ServerError.other (StorageError.backend "disk full")))

-- a database with client 7 and its version 1
abbrev written : Database
written = record {
  clients = client_row crates (spell 7) 1 none ∷ [];
  versions = version_row crates 7 version_one ∷ [];
}

one_row : {A : Type 0} (b : Bool) (r row : A) → (if b then some r else none) ≡ some row → row ≡ r
one_row b r row e = ground arith

written-IsValid : IsValid crates written
written-IsValid = record {
  clients_valid = λ k row e. (spell 7, 1, none, one_row _ _ row e, tt);
  versions_valid = λ where_ row e. (7, version_one, one_row _ _ row e);
}

create_client_resets_example :
    ((create_client ops (on_sqlite crates laws default_config none) 7 written).0 ≡ ok tt)
    × ((view crates
          (create_client ops (on_sqlite crates laws default_config none) 7 written).1
          7).client
        ≡ some (record { latest_version_id = nil_version_id; snapshot = none }))
    × ((v : ℕ)
        → (view crates
              (create_client ops (on_sqlite crates laws default_config none) 7 written).1
              7).by_id
            v
          ≡ (view crates written 7).by_id v)
    × ((add_version
          (sqlite crates)
          default_config
          (env_at 2 0)
          7
          nil_version_id
          (66 ∷ [])
          (create_client ops (on_sqlite crates laws default_config none) 7 written).1).0
        ≡ ok (AddVersionResult.ok 2, urgency default_config (env_at 2 0) none))
create_client_resets_example =
    create_client_resets crates laws ops default_config none (env_at 2 0) 7 nil_version_id (66 ∷ [])
      written written-IsValid (λ d. refl)

committed_stays_example :
    with_txn (sqlite crates) one_version 7 (λ t. other? (commit crates) (
      run_calls
        (sqlite crates)
        (Call.call_new_client 0 ∷ Call.call_add_version 2 1 (66 ∷ []) ∷ [])
        t))
    ≡ (
      ok tt,
      current
          (run_calls
            (sqlite crates)
            (Call.call_new_client 0 ∷ Call.call_add_version 2 1 (66 ∷ []) ∷ [])
            (in_txn one_version one_version 7)).con,
    )
committed_stays_example =
    committed_stays crates one_version 7
      (Call.call_new_client 0 ∷ Call.call_add_version 2 1 (66 ∷ []) ∷ [])

-- The statements of `add_version` fail after the INSERT.
abbrev full_disk : Plan
full_disk = none ∷ none ∷ some (StorageError.backend "disk full", made) ∷ []

server-IsAllOrNothing_example :
    IsAllOrNothing full_disk one_version
      (add_version
        (faulty_sqlite crates)
        default_config
        (env_at 2 0)
        7
        1
        (66 ∷ [])
        (full_disk, one_version))
      (add_version (sqlite crates) default_config (env_at 2 0) 7 1 (66 ∷ []) one_version)
    × IsAllOrNothing full_disk one_version
        (add_snapshot (faulty_sqlite crates) (env_at 2 0) 7 1 (66 ∷ []) (full_disk, one_version))
        (add_snapshot (sqlite crates) (env_at 2 0) 7 1 (66 ∷ []) one_version)
    × IsAllOrNothing full_disk one_version
        (get_child_version (faulty_sqlite crates) 7 1 (full_disk, one_version))
        (get_child_version (sqlite crates) 7 1 one_version)
    × IsAllOrNothing full_disk one_version
        (get_snapshot (faulty_sqlite crates) 7 (full_disk, one_version))
        (get_snapshot (sqlite crates) 7 one_version)
server-IsAllOrNothing_example =
    server-IsAllOrNothing crates full_disk one_version 7 1 default_config (env_at 2 0) (66 ∷ [])
