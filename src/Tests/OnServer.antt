-- ===== src/Tests/OnServer.antt =====
-- The tests of core/src/server.rs, run on the storage in memory, where the repository has them run, and on
-- SQLite.
use taskchampion_sync_server.Prelude.{◌+◌, ◌-◌, ◌≡◌, refl, none}
use taskchampion_sync_server.Core.Txn.{ok}
use taskchampion_sync_server.Core.InMemory.{in_memory, new}
use taskchampion_sync_server.Core.Server.Tested.{
  Fixture, get_child_version_not_found_initial_nil, get_child_version_not_found_initial_continuing,
  get_child_version_not_found_up_to_date, get_child_version_gone_not_latest,
  get_child_version_found,
}
use taskchampion_sync_server.Core.Server.Tested.Adding.{
  add_version_conflict, add_version_with_existing_history, add_version_with_no_history,
  add_version_success_recent_snapshot, add_version_success_aged_snapshot,
  add_version_success_snapshot_many_versions_ago,
}
use taskchampion_sync_server.Core.Server.Tested.Snapshots.{
  add_snapshot_success_latest, add_snapshot_success_older, add_snapshot_fails_no_such,
  add_snapshot_fails_too_old, add_snapshot_fails_newer_exists, add_snapshot_fails_nil_version,
  get_snapshot_found, get_snapshot_not_found,
}
use taskchampion_sync_server.Sqlite.{sqlite, new as new_tables}
use taskchampion_sync_server.Tests.Samples.{env_at}
use taskchampion_sync_server.Tests.OnSqlite.{crates}

-- Today is day 1000.
abbrev pub fixture : Fixture
fixture = record {
  client_id = 7;
  fresh = λ i. 10 + i;
  days_ago = λ n. 1000 - n;
  env = λ id. env_at id 1000;
}

child_versions_in_memory :
    ((get_child_version_not_found_initial_nil in_memory fixture new).0 ≡ ok tt)
    × ((get_child_version_not_found_initial_continuing in_memory fixture new).0 ≡ ok tt)
    × ((get_child_version_not_found_up_to_date in_memory fixture new).0 ≡ ok tt)
    × ((get_child_version_gone_not_latest in_memory fixture new).0 ≡ ok tt)
    × ((get_child_version_found in_memory fixture new).0 ≡ ok tt)
unfolding taskchampion_sync_server.Core.InMemory.txn taskchampion_sync_server.Core.InMemory.drop
    taskchampion_sync_server.Core.InMemory.new_client taskchampion_sync_server.Core.InMemory.commit
    taskchampion_sync_server.Core.Server.get_child_version
    taskchampion_sync_server.Core.Server.get_child_version_in
    taskchampion_sync_server.Core.InMemory.get_client
    taskchampion_sync_server.Core.InMemory.get_version_by_parent
    taskchampion_sync_server.Core.InMemory.add_version
child_versions_in_memory = (refl, refl, refl, refl, refl)

add_versions_in_memory :
    ((add_version_conflict in_memory fixture new).0 ≡ ok tt)
    × ((add_version_with_existing_history in_memory fixture new).0 ≡ ok tt)
    × ((add_version_with_no_history in_memory fixture new).0 ≡ ok tt)
    × ((add_version_success_recent_snapshot in_memory fixture new).0 ≡ ok tt)
    × ((add_version_success_aged_snapshot in_memory fixture new).0 ≡ ok tt)
unfolding taskchampion_sync_server.Core.InMemory.txn taskchampion_sync_server.Core.InMemory.drop
    taskchampion_sync_server.Core.InMemory.new_client
    taskchampion_sync_server.Core.InMemory.add_version taskchampion_sync_server.Core.InMemory.commit
    taskchampion_sync_server.Core.Server.add_version
    taskchampion_sync_server.Core.Server.add_version_in
    taskchampion_sync_server.Core.InMemory.get_client
    taskchampion_sync_server.Core.InMemory.get_version_by_parent
    taskchampion_sync_server.Core.InMemory.get_version taskchampion_sync_server.Core.Server.urgency
    taskchampion_sync_server.Core.Urgency.max_urgency
    taskchampion_sync_server.Core.InMemory.set_snapshot
    taskchampion_sync_server.Core.Urgency.for_days
    taskchampion_sync_server.Core.Urgency.for_versions_since
add_versions_in_memory = (refl, refl, refl, refl, refl)

snapshots_in_memory :
    ((add_snapshot_success_latest in_memory fixture new).0 ≡ ok tt)
    × ((add_snapshot_success_older in_memory fixture new).0 ≡ ok tt)
    × ((add_snapshot_fails_no_such in_memory fixture new).0 ≡ ok tt)
    × ((add_snapshot_fails_too_old in_memory fixture new).0 ≡ ok tt)
    × ((add_snapshot_fails_newer_exists in_memory fixture 500 new).0 ≡ ok tt)
    × ((add_snapshot_fails_nil_version in_memory fixture new).0 ≡ ok tt)
    × ((get_snapshot_found in_memory fixture 500 new).0 ≡ ok tt)
    × ((get_snapshot_not_found in_memory fixture new).0 ≡ ok tt)
unfolding taskchampion_sync_server.Core.InMemory.txn taskchampion_sync_server.Core.InMemory.drop
    taskchampion_sync_server.Core.InMemory.new_client
    taskchampion_sync_server.Core.InMemory.add_version taskchampion_sync_server.Core.InMemory.commit
    taskchampion_sync_server.Core.Server.add_snapshot
    taskchampion_sync_server.Core.Server.add_snapshot_in
    taskchampion_sync_server.Core.InMemory.get_client taskchampion_sync_server.Core.Server.search
    taskchampion_sync_server.Core.Server.store_snapshot
    taskchampion_sync_server.Core.InMemory.set_snapshot
    taskchampion_sync_server.Core.InMemory.get_snapshot_data
    taskchampion_sync_server.Core.InMemory.get_version
    taskchampion_sync_server.Core.Server.get_snapshot
    taskchampion_sync_server.Core.Server.get_snapshot_in
snapshots_in_memory = (refl, refl, refl, refl, refl, refl, refl, refl)

child_versions_on_sqlite :
    ((get_child_version_not_found_initial_nil (sqlite crates) fixture (new_tables none)).0 ≡ ok tt)
    × ((get_child_version_gone_not_latest (sqlite crates) fixture (new_tables none)).0 ≡ ok tt)
    × ((get_child_version_found (sqlite crates) fixture (new_tables none)).0 ≡ ok tt)
unfolding taskchampion_sync_server.Sqlite.txn taskchampion_sync_server.Sqlite.drop
    taskchampion_sync_server.Sqlite.new_client taskchampion_sync_server.Sqlite.commit
    taskchampion_sync_server.Core.Server.get_child_version
    taskchampion_sync_server.Core.Server.get_child_version_in
    taskchampion_sync_server.Sqlite.get_client taskchampion_sync_server.Sqlite.get_version_by_parent
    taskchampion_sync_server.Sqlite.get_version_impl taskchampion_sync_server.Sqlite.add_version
child_versions_on_sqlite = (refl, refl, refl)

add_versions_on_sqlite :
    ((add_version_conflict (sqlite crates) fixture (new_tables none)).0 ≡ ok tt)
    × ((add_version_success_aged_snapshot (sqlite crates) fixture (new_tables none)).0 ≡ ok tt)
unfolding taskchampion_sync_server.Sqlite.txn taskchampion_sync_server.Sqlite.drop
    taskchampion_sync_server.Sqlite.new_client taskchampion_sync_server.Sqlite.add_version
    taskchampion_sync_server.Sqlite.commit taskchampion_sync_server.Core.Server.add_version
    taskchampion_sync_server.Core.Server.add_version_in taskchampion_sync_server.Sqlite.get_client
    taskchampion_sync_server.Sqlite.get_version_by_parent
    taskchampion_sync_server.Sqlite.get_version_impl taskchampion_sync_server.Sqlite.set_snapshot
    taskchampion_sync_server.Sqlite.get_version taskchampion_sync_server.Core.Server.urgency
    taskchampion_sync_server.Core.Urgency.max_urgency taskchampion_sync_server.Core.Urgency.for_days
add_versions_on_sqlite = (refl, refl)

snapshots_on_sqlite :
    ((add_snapshot_success_older (sqlite crates) fixture (new_tables none)).0 ≡ ok tt)
    × ((add_snapshot_fails_no_such (sqlite crates) fixture (new_tables none)).0 ≡ ok tt)
    × ((get_snapshot_found (sqlite crates) fixture 500 (new_tables none)).0 ≡ ok tt)
unfolding taskchampion_sync_server.Sqlite.txn taskchampion_sync_server.Sqlite.drop
    taskchampion_sync_server.Sqlite.new_client taskchampion_sync_server.Sqlite.add_version
    taskchampion_sync_server.Sqlite.commit taskchampion_sync_server.Core.Server.add_snapshot
    taskchampion_sync_server.Core.Server.add_snapshot_in taskchampion_sync_server.Sqlite.get_client
    taskchampion_sync_server.Core.Server.search taskchampion_sync_server.Sqlite.get_version
    taskchampion_sync_server.Sqlite.get_version_impl
    taskchampion_sync_server.Core.Server.store_snapshot taskchampion_sync_server.Sqlite.set_snapshot
    taskchampion_sync_server.Sqlite.get_snapshot_data
    taskchampion_sync_server.Core.Server.get_snapshot
    taskchampion_sync_server.Core.Server.get_snapshot_in
snapshots_on_sqlite = (refl, refl, refl)

many_versions_ago_in_memory :
    (add_version_success_snapshot_many_versions_ago in_memory fixture new).0 ≡ ok tt
unfolding taskchampion_sync_server.Core.InMemory.txn taskchampion_sync_server.Core.InMemory.drop
    taskchampion_sync_server.Core.InMemory.new_client
    taskchampion_sync_server.Core.InMemory.add_version
    taskchampion_sync_server.Core.InMemory.set_snapshot
    taskchampion_sync_server.Core.InMemory.commit taskchampion_sync_server.Core.Server.add_version
    taskchampion_sync_server.Core.Server.add_version_in
    taskchampion_sync_server.Core.InMemory.get_client
    taskchampion_sync_server.Core.InMemory.get_version taskchampion_sync_server.Core.Server.urgency
    taskchampion_sync_server.Core.Urgency.max_urgency taskchampion_sync_server.Core.Urgency.for_days
    taskchampion_sync_server.Core.Urgency.for_versions_since
many_versions_ago_in_memory = refl
