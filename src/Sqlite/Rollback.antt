-- ===== src/Sqlite/Rollback.antt =====
-- A transaction of sqlite/src/lib.rs as a whole: it is dropped uncommitted, or commits.
use taskchampion_sync_server.Prelude.{◌≡◌, refl, Option-cases, inl, inr, List, [], ◌∷◌}
use taskchampion_sync_server.Core.Types.{Uuid, ServerError}
use taskchampion_sync_server.Core.Txn.{Outcome, ok, other?}
use taskchampion_sync_server.Core.Storage.{with_txn}
use taskchampion_sync_server.Core.Storage.Call.{Call, run_call, run_calls}
use taskchampion_sync_server.Sqlite.Tables.{VersionRow, Database, insert_version, set_latest}
use taskchampion_sync_server.Sqlite.Calls.{in_txn}
use taskchampion_sync_server.Sqlite.Columns.{Crates}
use taskchampion_sync_server.Sqlite.{
  txn, get_client, new_client, set_snapshot, get_snapshot_data, get_version_by_parent, get_version,
  get_version_impl, add_version, drop, sqlite, commit, current, update_clients,
}

module _ (crates : Crates) where
  -- A call writes at most what the open transaction sees.
  pub run_call-in_txn :
      (call : Call) (file tables : Database) (c : Uuid)
      → (after : Database) × (run_call (sqlite crates) call (in_txn file tables c)
          ≡ in_txn file after c)
  unfolding get_client new_client set_snapshot get_snapshot_data get_version_by_parent get_version
      get_version_impl add_version
  run_call-in_txn Call.call_get_client file tables c = (tables, refl)
  run_call-in_txn (Call.call_new_client latest) file tables c = (_, refl)
  run_call-in_txn (Call.call_set_snapshot snap bytes) file tables c = (_, refl)
  run_call-in_txn (Call.call_get_snapshot_data v) file tables c = (tables, refl)
  run_call-in_txn (Call.call_get_version_by_parent p) file tables c = (tables, refl)
  run_call-in_txn (Call.call_get_version v) file tables c = (tables, refl)
  run_call-in_txn (Call.call_add_version v p h) file tables c =
      let row : VersionRow = record {
        version_id = crates.to_string v;
        client_id = crates.to_string c;
        parent_version_id = crates.to_string p;
        history_segment = h;
      } in
      elim (Option-cases (insert_version row tables.versions)) [
        | inl taken ↦ (tables, rw taken)
        | inr (rows, free) ↦ (
          update_clients (crates.to_string c) (set_latest (crates.to_string v))
              (record tables { versions = rows }),
          rw (free, add_version),
        )
      ]

  run_calls-in_txn :
      (calls : List Call) (file tables : Database) (c : Uuid)
      → (after : Database) × (run_calls (sqlite crates) calls (in_txn file tables c)
          ≡ in_txn file after c)
  run_calls-in_txn [] file tables c = (tables, refl)
  run_calls-in_txn (call ∷ calls) file tables c =
      let (next, e) = run_call-in_txn call file tables c in
      let (after, e') = run_calls-in_txn calls file next c in (after, rw e e')

  -- Whatever calls a transaction makes, and however it ends, if it does not commit then the database
  -- is left as it was.
  pub uncommitted_rolls_back :
      {A : Type 0} (s : Database) (c : Uuid) (calls : List Call) (r : Outcome ServerError A)
      → with_txn (sqlite crates) s c (λ t. (r, run_calls (sqlite crates) calls t)) ≡ (r, s)
  unfolding txn drop
  uncommitted_rolls_back s c calls r = let (after, e) = run_calls-in_txn calls s s c in rw e

  -- Whatever calls a transaction makes, if it then commits, the commit succeeds and the database is
  -- left as the transaction saw it.
  pub committed_stays :
      (s : Database) (c : Uuid) (calls : List Call)
      → with_txn
          (sqlite crates)
          s
          c
          (λ t. other? (commit crates) (run_calls (sqlite crates) calls t))
        ≡ (ok tt, current (run_calls (sqlite crates) calls (in_txn s s c)).con)
  unfolding txn drop commit
  committed_stays s c calls = let (after, e) = run_calls-in_txn calls s s c in rw e
