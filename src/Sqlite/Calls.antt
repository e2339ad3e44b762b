-- ===== src/Sqlite/Calls.antt =====
-- What each call of sqlite/src/lib.rs does in an open transaction on tables in form.
use Prim.Native.String.{String}
use mathlib.Core.Option.{none-ne-some}
use taskchampion_sync_server.Prelude.{◌^◌, ◌<◌, ◌≡◌, refl, sym, ◌∙◌, ap, Option, none, some, arith}
use taskchampion_sync_server.Prelude.Int.{pos}
use taskchampion_sync_server.Core.Types.{Uuid, Bytes, Client, Snapshot}
use taskchampion_sync_server.Core.Txn.{ok, and_then}
use taskchampion_sync_server.Core.Storage.Contract.{set_view, created, snapped}
use taskchampion_sync_server.Sqlite.Tables.{VersionRow, Database, set_snapshot_columns}
use taskchampion_sync_server.Sqlite.Rows.{
  Lawful, client_row, snapshot_of, set_snapshot_columns-client_row,
}
use taskchampion_sync_server.Sqlite.Views.{
  client_of, version_of, by_column, data_of, view, IsValid, with_client, view-with_client,
  with_client-IsValid, client_of-client_row,
}
use taskchampion_sync_server.Sqlite.Updates.{updated, view-updated, updated-IsValid}
use taskchampion_sync_server.Sqlite.Reads.{row_of, no_row, read_found, read_found_version}
use taskchampion_sync_server.Sqlite.Columns.{Crates, read_snapshot_data, checked, optional}
use taskchampion_sync_server.Sqlite.{
  SqliteTxn, get_client, new_client, set_snapshot, get_snapshot_data, get_version_impl, current,
}

abbrev pub in_txn : Database → Database → Uuid → SqliteTxn
in_txn file tables c = record { con = record { file = file; pending = some tables }; client_id = c }

module _ (crates : Crates) (laws : Lawful crates) where
  -- a transaction is begun and not ended
  pub data IsOpen : SqliteTxn → Type 0 where
    opened :
        (file tables : Database) (c : Uuid) → IsValid crates tables → IsOpen (in_txn file tables c)

  pub get_client_run :
      (t : SqliteTxn)
      → IsOpen t
      → get_client crates t ≡ (ok (view crates (current t.con) t.client_id).client, t)
  unfolding get_client
  get_client_run _ (opened file tables c valid) =
      ap (λ r. (r, in_txn file tables c)) (read_found crates laws tables c valid)

  pub get_version_impl_run :
      (column : VersionRow → String) (j : Uuid) (t : SqliteTxn)
      → IsOpen t
      → get_version_impl crates column t.client_id j t
        ≡ (ok (version_of crates (by_column crates column (current t.con) t.client_id j)), t)
  unfolding get_version_impl
  get_version_impl_run column j _ (opened file tables c valid) =
      ap (λ r. (r, in_txn file tables c)) (read_found_version crates laws tables c valid column j)

  pub new_client_run :
      (latest : Uuid) (t : SqliteTxn)
      → IsOpen t
      → (view crates (current t.con) t.client_id).client ≡ none
      → ((new_client crates latest t).0 ≡ ok tt)
        × IsOpen (new_client crates latest t).1
        × (view crates (current (new_client crates latest t).1.con)
            ≡ set_view
                (view crates (current t.con))
                t.client_id
                (created latest (view crates (current t.con) t.client_id)))
  unfolding new_client
  new_client_run latest _ (opened file tables c valid) absent = (
    refl,
    opened file (with_client crates tables c latest) c
        (with_client-IsValid crates laws tables c latest valid),
    view-with_client crates laws tables c latest ∙ rw (no_row crates laws tables c valid absent),
  )

  pub set_snapshot_run :
      (snap : Snapshot) (bytes : Bytes) (t : SqliteTxn) (client : Client)
      → snap.versions_since < 2 ^ 32
      → IsOpen t
      → (view crates (current t.con) t.client_id).client ≡ some client
      → ((set_snapshot crates snap bytes t).0 ≡ ok tt)
        × IsOpen (set_snapshot crates snap bytes t).1
        × (view crates (current (set_snapshot crates snap bytes t).1.con)
            ≡ set_view (view crates (current t.con)) t.client_id (
                snapped
                  (record snap { timestamp = laws.kept snap.timestamp })
                  bytes
                  client
                  (view crates (current t.con) t.client_id)))
  unfolding set_snapshot
  set_snapshot_run snap bytes _ client small (opened file tables c valid) has =
      let (id, latest, kept, present, fits, same) = row_of crates laws tables c valid client has in
      let set =
        set_snapshot_columns (crates.to_string snap.version_id) (crates.timestamp snap.timestamp)
          (pos snap.versions_since) bytes in
      let now = set_snapshot_columns-client_row crates laws snap bytes id latest kept in
      (
        refl,
        opened file (updated crates laws tables c valid set (λ row. refl) _ present) c (
            updated-IsValid crates laws tables c valid set (λ row. refl) _ present
              (id, latest, some (snap, bytes), now, small)),
        view-updated crates laws tables c valid set (λ row. refl) _ present
            ∙ ap
                (λ (o : Option Client).
                  set_view (view crates tables) c
                    (record (view crates tables c) { client = o; snapshot_data = some bytes }))
                (ap (λ row. client_of crates (some row)) now
                  ∙ client_of-client_row crates laws tables c id latest (some (snap, bytes)) small
                  ∙ ap
                      (λ (cl : Client). some (record cl {
                        snapshot = some (record snap { timestamp = laws.kept snap.timestamp });
                      }))
                      (sym same)),
      )

  read_kept_data :
      (id : String) (latest : Uuid) (kept : Option (Snapshot × Bytes)) (snap : Snapshot)
      (bytes : Bytes)
      → snapshot_of crates laws kept ≡ some snap
      → (client_row crates id latest kept).snapshot ≡ some bytes
      → and_then
          (optional (read_snapshot_data crates) (some (client_row crates id latest kept)))
          (checked crates snap.version_id)
        ≡ ok (some bytes)
  read_kept_data id latest none snap bytes taken data_kept = absurd (none-ne-some snap taken)
  read_kept_data id latest (some (old, old_bytes)) snap bytes taken data_kept =
      ground (arith, laws.parse_str-to_string old.version_id)

  pub get_snapshot_data_run :
      (t : SqliteTxn) (client : Client) (snap : Snapshot) (bytes : Bytes)
      → IsOpen t
      → (view crates (current t.con) t.client_id).client ≡ some client
      → client.snapshot ≡ some snap
      → (view crates (current t.con) t.client_id).snapshot_data ≡ some bytes
      → get_snapshot_data crates snap.version_id t ≡ (ok (some bytes), t)
  unfolding get_snapshot_data
  get_snapshot_data_run _ client snap bytes (opened file tables c valid) has taken data_kept =
      let (id, latest, kept, present, fits, same) = row_of crates laws tables c valid client has in
      ap (λ r. (r, in_txn file tables c))
        (rw present (
          read_kept_data id latest kept snap bytes
            (ap (λ (cl : Client). cl.snapshot) (sym same) ∙ taken)
            (ap data_of (sym present) ∙ data_kept)))
