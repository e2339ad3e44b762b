-- ===== src/Sqlite/Fulfils.antt =====
-- The storage in SQLite fulfils the contract of the storages.
use mathlib.Core.Option.{none-ne-some}
use taskchampion_sync_server.Prelude.{◌≡◌, refl, sym, ap, none}
use taskchampion_sync_server.Core.Txn.{ok}
use taskchampion_sync_server.Core.Storage.Contract.{Contract}
use taskchampion_sync_server.Core.History.Calls.{World, views}
use taskchampion_sync_server.Core.Protocol.{Holds}
use taskchampion_sync_server.Sqlite.Tables.{Database}
use taskchampion_sync_server.Sqlite.Rows.{Lawful}
use taskchampion_sync_server.Sqlite.Views.{view, IsValid}
use taskchampion_sync_server.Sqlite.Calls.{
  IsOpen, opened, in_txn, get_client_run, get_version_impl_run, new_client_run, set_snapshot_run,
  get_snapshot_data_run,
}
use taskchampion_sync_server.Sqlite.Insertion.{add_version_run}
use taskchampion_sync_server.Sqlite.Columns.{Crates}
use taskchampion_sync_server.Sqlite.{
  SqliteTxn, txn, get_version_by_parent, get_version, commit, drop, sqlite, current, new,
}

module _ (crates : Crates) (laws : Lawful crates) where
  abbrev IsClean : SqliteTxn → Type 0
  IsClean t = IsValid crates t.con.file × (current t.con ≡ t.con.file)

  commit_run :
      (t : SqliteTxn)
      → IsOpen crates laws t
      → ((commit crates t).0 ≡ ok tt)
        × IsClean (commit crates t).1
        × (view crates (current (commit crates t).1.con) ≡ view crates (current t.con))
  unfolding commit
  commit_run _ (opened file tables c valid) = (refl, (valid, refl), refl)

  -- SQLite keeps what it is asked to keep, with timestamps to the precision that is kept.
  pub sqlite-Contract : Contract (sqlite crates)
  unfolding txn get_version_by_parent get_version drop
  sqlite-Contract = record {
    stored = view crates;
    Ready = IsValid crates;
    db = λ t. view crates (current t.con);
    owner = λ t. t.client_id;
    Open = IsOpen crates laws;
    Clean = IsClean;
    kept = laws.kept;
    begin = λ s c. in_txn s s c;
    txn_lem = λ s c ready. refl;
    begin-Open = λ s c ready. opened s s c ready;
    begin-Clean = λ s c ready. (ready, refl);
    db-begin = λ s c ready. refl;
    owner-begin = λ s c ready. refl;
    get_client_lem = get_client_run crates laws;
    get_version_lem =
        λ v t is_open. get_version_impl_run crates laws (λ r. r.version_id) v t is_open;
    get_version_by_parent_lem =
        λ p t is_open. get_version_impl_run crates laws (λ r. r.parent_version_id) p t is_open;
    get_snapshot_data_lem = get_snapshot_data_run crates laws;
    new_client_lem = new_client_run crates laws;
    add_version_lem = add_version_run crates laws;
    set_snapshot_lem = set_snapshot_run crates laws;
    commit_lem = commit_run;
    drop_lem = λ t clean. (clean.0, refl, ap (view crates) (sym clean.1));
  }

  no_rows-IsValid : IsValid crates (new none)
  no_rows-IsValid = record {
    clients_valid = λ k row e. absurd (none-ne-some row e);
    versions_valid = λ where_ row e. absurd (none-ne-some row e);
  }

  -- A new database is ready and has no clients.
  pub new-Holds : Holds sqlite-Contract (new none) (λ c. none)
  unfolding sqlite-Contract
  new-Holds = record { ready = no_rows-IsValid; same = refl; valid = λ c. tt }

  -- What `Holds` says of the database itself.
  pub Holds-valid :
      (s : Database) (w : World)
      → Holds sqlite-Contract s w
      → IsValid crates s × (view crates s ≡ views w)
  unfolding sqlite-Contract
  Holds-valid s w holds = (holds.ready, holds.same)
