-- ===== src/Tests/OnStorages.antt =====
-- The tests of core/src/inmemory.rs and sqlite/src/lib.rs pass.
use taskchampion_sync_server.Prelude.{◌≡◌, refl, none, [], ◌∷◌}
use taskchampion_sync_server.Core.Txn.{ok}
use taskchampion_sync_server.Sqlite.{sqlite, new}
use taskchampion_sync_server.Sqlite.Threads.{add_version_concurrency}
use taskchampion_sync_server.Core.InMemory.Tested as InMemoryTests
use taskchampion_sync_server.Sqlite.Tested as SqliteTests
use taskchampion_sync_server.Tests.OnSqlite.{crates}
use taskchampion_sync_server.Tests.OnServer.{fixture}

tested_in_memory :
    (InMemoryTests.test_get_client_empty fixture 5 6 ≡ ok tt)
    × (InMemoryTests.test_client_storage fixture 5 6 ≡ ok tt)
    × (InMemoryTests.test_gvbp_empty fixture 5 6 ≡ ok tt)
    × (InMemoryTests.test_add_version_and_get_version fixture 5 6 ≡ ok tt)
    × (InMemoryTests.test_add_version_exists fixture 5 6 ≡ ok tt)
    × (InMemoryTests.test_snapshots fixture 5 6 ≡ ok tt)
unfolding taskchampion_sync_server.Core.InMemory.txn taskchampion_sync_server.Core.InMemory.drop
    taskchampion_sync_server.Core.InMemory.get_client
    taskchampion_sync_server.Core.InMemory.new_client
    taskchampion_sync_server.Core.InMemory.add_version
    taskchampion_sync_server.Core.InMemory.set_snapshot
    taskchampion_sync_server.Core.InMemory.commit
    taskchampion_sync_server.Core.InMemory.get_version_by_parent
    taskchampion_sync_server.Core.InMemory.get_version
    taskchampion_sync_server.Core.InMemory.get_snapshot_data
tested_in_memory = (refl, refl, refl, refl, refl, refl)

tested_on_sqlite :
    (SqliteTests.test_emtpy_dir crates fixture 5 6 ≡ ok tt)
    × (SqliteTests.test_get_client_empty crates fixture 5 6 ≡ ok tt)
    × (SqliteTests.test_client_storage crates fixture 5 6 ≡ ok tt)
    × (SqliteTests.test_gvbp_empty crates fixture 5 6 ≡ ok tt)
    × (SqliteTests.test_add_version_and_get_version crates fixture 5 6 ≡ ok tt)
    × (SqliteTests.test_add_version_exists crates fixture 5 6 ≡ ok tt)
    × (SqliteTests.test_snapshots crates fixture 5 6 ≡ ok tt)
unfolding taskchampion_sync_server.Sqlite.txn taskchampion_sync_server.Sqlite.drop
    taskchampion_sync_server.Sqlite.get_client taskchampion_sync_server.Sqlite.new_client
    taskchampion_sync_server.Sqlite.add_version taskchampion_sync_server.Sqlite.set_snapshot
    taskchampion_sync_server.Sqlite.get_version_by_parent
    taskchampion_sync_server.Sqlite.get_version_impl taskchampion_sync_server.Sqlite.get_version
    taskchampion_sync_server.Sqlite.get_snapshot_data
tested_on_sqlite = (refl, refl, refl, refl, refl, refl, refl)

-- sqlite/tests/concurrency.rs with three threads of two transactions each
threads_pass :
    (add_version_concurrency
      (sqlite crates)
      7
      ((0, 11) ∷ (1, 12) ∷ (2, 13) ∷ (1, 14) ∷ (0, 15) ∷ (2, 16) ∷ [])
      (new none)).0
    ≡ ok tt
unfolding add_version_concurrency taskchampion_sync_server.Sqlite.Threads.set_up
    taskchampion_sync_server.Sqlite.txn taskchampion_sync_server.Sqlite.drop
    taskchampion_sync_server.Sqlite.new_client taskchampion_sync_server.Sqlite.commit
    taskchampion_sync_server.Sqlite.Threads.count_versions
    taskchampion_sync_server.Sqlite.Threads.count_versions_in
    taskchampion_sync_server.Sqlite.get_client taskchampion_sync_server.Sqlite.Threads.interleave
    taskchampion_sync_server.Sqlite.Threads.add_next
    taskchampion_sync_server.Sqlite.Threads.add_next_in taskchampion_sync_server.Sqlite.add_version
    taskchampion_sync_server.Sqlite.Threads.walk taskchampion_sync_server.Sqlite.get_version
    taskchampion_sync_server.Sqlite.get_version_impl
threads_pass = refl
