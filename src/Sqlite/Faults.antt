-- ===== src/Sqlite/Faults.antt =====
-- sqlite/src/lib.rs on a database whose statements may fail, as those of a disk that is full or a file
-- that is locked do. A plan says for each call whether it fails, with which error, and what the
-- transaction sees afterwards (a method has executed some of its statements, perhaps).
pub mod Runs
pub mod Atomic
use taskchampion_sync_server.Prelude.{Bool, Option, none, some, List, [], ◌∷◌}
use taskchampion_sync_server.Core.Types.{Uuid, StorageError}
use taskchampion_sync_server.Core.Txn.{Outcome, ok, err, panic, Txn}
use taskchampion_sync_server.Core.Storage.{Storage}
use taskchampion_sync_server.Sqlite.{
  SqliteTxn, txn, get_client, new_client, set_snapshot, get_snapshot_data, get_version_by_parent,
  get_version, add_version, commit, drop,
}
use taskchampion_sync_server.Sqlite.Columns.{Crates}
use taskchampion_sync_server.Sqlite.Tables.{Database}

-- After the end of a plan no call fails.
abbrev pub Plan : Type 0
Plan = List (Option (StorageError × Database))

-- The transaction sees other tables; the file is as it was.
abbrev pub spoil : Database → SqliteTxn → SqliteTxn
spoil tables t = record t { con = record { file = t.con.file; pending = some tables } }

-- a call with the next entry of the plan
abbrev pub faulty :
    {A : Type 0} → Txn SqliteTxn StorageError A → Txn (Plan × SqliteTxn) StorageError A
faulty call ([], t) = let (r, t') = call t in (r, ([], t'))
faulty call (none ∷ plan, t) = let (r, t') = call t in (r, (plan, t'))
faulty call (some (e, tables) ∷ plan, t) = (err e, (plan, spoil tables t))

abbrev pub begun : Plan → Outcome StorageError SqliteTxn → Outcome StorageError (Plan × SqliteTxn)
begun plan (ok t) = ok (plan, t)
begun plan (err e) = err e
begun plan panic = panic

abbrev pub faulty_txn : Plan × Database → Uuid → Outcome StorageError (Plan × SqliteTxn)
faulty_txn ([], file) client_id = begun [] (txn file client_id)
faulty_txn (none ∷ plan, file) client_id = begun plan (txn file client_id)
faulty_txn (some (e, tables) ∷ plan, file) client_id = err e

abbrev pub faulty_drop : Crates → Plan × SqliteTxn → (Plan × Database) × Bool
faulty_drop crates (plan, t) = let (file, panics) = drop crates t in ((plan, file), panics)

abbrev pub faulty_sqlite : Crates → Storage (Plan × Database) (Plan × SqliteTxn)
faulty_sqlite crates = record {
  txn = faulty_txn;
  get_client = faulty (get_client crates);
  new_client = λ v. faulty (new_client crates v);
  set_snapshot = λ snapshot bytes. faulty (set_snapshot crates snapshot bytes);
  get_snapshot_data = λ v. faulty (get_snapshot_data crates v);
  get_version_by_parent = λ p. faulty (get_version_by_parent crates p);
  get_version = λ v. faulty (get_version crates v);
  add_version = λ v p bytes. faulty (add_version crates v p bytes);
  commit = faulty (commit crates);
  drop = faulty_drop crates;
}

-- the error of the first call that fails
abbrev pub first_fault : Plan → Option StorageError
first_fault [] = none
first_fault (none ∷ plan) = first_fault plan
first_fault (some (e, tables) ∷ plan) = some e
