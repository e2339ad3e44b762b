-- ===== src/Sqlite/Races.antt =====
-- Two handlers of server/src/api/add_version.rs that find the same client unknown, on SQLite: each
-- creates it, and `new_client` of sqlite/src/lib.rs replaces the row that the other has made.
use taskchampion_sync_server.Prelude.{
  ◌≡◌, refl, ◌∙◌, ap, true, none, some, arith, ◌==◌, [], ◌∷◌, ◌++◌,
}
use taskchampion_sync_server.Core.Types.{
  Uuid, Bytes, ServerConfig, AddVersionResult, nil_version_id, Version,
}
use taskchampion_sync_server.Core.Txn.{ok}
use taskchampion_sync_server.Core.Server.{Env, add_version, add_version_in, urgency}
use taskchampion_sync_server.Api.Http.{TextOps, Allowlist}
use taskchampion_sync_server.Api.Handlers.{create_client}
use taskchampion_sync_server.Sqlite.Tables.{Database, set_latest}
use taskchampion_sync_server.Sqlite.Rows.{Lawful, version_row}
use taskchampion_sync_server.Sqlite.Views.{
  view, IsValid, with_client, view-with_client, with_client-IsValid,
}
use taskchampion_sync_server.Sqlite.Calls.{in_txn, opened, get_client_run}
use taskchampion_sync_server.Sqlite.Insertion.{add_version_inserts}
use taskchampion_sync_server.Sqlite.Updates.{insert_version-fresh}
use taskchampion_sync_server.Sqlite.Agreement.{on_sqlite}
use taskchampion_sync_server.Sqlite.Columns.{Crates}
use taskchampion_sync_server.Sqlite.{
  txn, new_client, commit, drop, sqlite, add_version as add_row, update_clients,
}

n-eq-n : (n : Uuid) → (n == n) ≡ true
n-eq-n n = ground arith

module _ (crates : Crates) (laws : Lawful crates) (ops : TextOps) (config : ServerConfig)
    (allowlist : Allowlist) (env : Env) (c p : Uuid) (bytes : Bytes) (s : Database)
    (valid : IsValid crates s) where
  -- the database after the handler has created the client
  abbrev pub remade : Database
  remade = (create_client ops (on_sqlite crates laws config allowlist) c s).1

  create_client_run :
      create_client ops (on_sqlite crates laws config allowlist) c s
      ≡ (ok tt, with_client crates s c nil_version_id)
  unfolding create_client txn new_client commit drop
  create_client_run = refl

  abbrev made : Database
  made = with_client crates s c nil_version_id

  client-made :
      (view crates made c).client
      ≡ some (record { latest_version_id = nil_version_id; snapshot = none })
  client-made =
      ap (λ db. (db c).client) (view-with_client crates laws s c nil_version_id) ∙ rw (n-eq-n c)

  abbrev version : Version
  version = record { version_id = env.new_v4; parent_version_id = p; history_segment = bytes }

  add_row-made :
      ((d : Uuid) → (view crates s d).by_id env.new_v4 ≡ none)
      → add_row crates env.new_v4 p bytes (in_txn made made c) ≡ (
        ok tt,
        in_txn made
            (update_clients
              (crates.to_string c)
              (set_latest (crates.to_string env.new_v4))
              (record made { versions = made.versions ++ (version_row crates c version ∷ []) }))
            c,
      )
  add_row-made fresh = add_version_inserts crates laws made made c version _ (
      insert_version-fresh crates laws made c
        (with_client-IsValid crates laws s c nil_version_id valid) version fresh)

  add_version-made :
      ((d : Uuid) → (view crates s d).by_id env.new_v4 ≡ none)
      → (add_version (sqlite crates) config env c p bytes made).0
        ≡ ok (AddVersionResult.ok env.new_v4, urgency config env none)
  unfolding add_version txn add_version_in commit drop
  add_version-made fresh =
      let valid' = with_client-IsValid crates laws s c nil_version_id valid in
      rw (get_client_run crates laws _ (opened made made c valid'), client-made, add_row-made fresh)
        refl

  -- For any database in form, with any versions and snapshot of the client, `create_client` succeeds:
  -- the client then has no latest version and no snapshot, while its versions stay; and an
  -- `add_version` under any parent, with a version identifier that is not taken, is accepted.
  pub create_client_resets :
      ((d : Uuid) → (view crates s d).by_id env.new_v4 ≡ none)
      → ((create_client ops (on_sqlite crates laws config allowlist) c s).0 ≡ ok tt)
        × ((view crates remade c).client
            ≡ some (record { latest_version_id = nil_version_id; snapshot = none }))
        × ((v : Uuid) → (view crates remade c).by_id v ≡ (view crates s c).by_id v)
        × ((add_version (sqlite crates) config env c p bytes remade).0
            ≡ ok (AddVersionResult.ok env.new_v4, urgency config env none))
  create_client_resets fresh = (
    ap (λ r. r.0) create_client_run,
    ap (λ r. (view crates r.1 c).client) create_client_run ∙ client-made,
    λ v. ap (λ r. (view crates r.1 c).by_id v) create_client_run,
    ap (λ r. (add_version (sqlite crates) config env c p bytes r.1).0) create_client_run
        ∙ add_version-made fresh,
  )
