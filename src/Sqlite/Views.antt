-- ===== src/Sqlite/Views.antt =====
-- What can be read from the tables of sqlite/src/lib.rs, and how its statements change that.
use Prim.Native.String.{String}
use taskchampion_sync_server.Prelude.{
  ◌==◌, ◌≡◌, sym, ◌∙◌, ap, fun_ext, Bool, Bool-cases, eq_of_test, inl, inr, Option, none, some,
  arith, if◌then◌else◌,
}
use taskchampion_sync_server.HashMap.{uuid_eq}
use taskchampion_sync_server.Core.Types.{Uuid, Bytes, Client, Snapshot, Version, StorageError}
use taskchampion_sync_server.Core.Txn.{Outcome, ok, err, panic}
use taskchampion_sync_server.Core.Storage.Contract.{Db, View-ext, set_view, created}
use taskchampion_sync_server.Sqlite.Tables.{
  ClientRow, VersionRow, Database, select, of_client, replace_client,
}
use taskchampion_sync_server.Sqlite.Select.{
  select-append, select-append_cases, select-remove-some, select-remove,
}
use taskchampion_sync_server.Sqlite.Rows.{
  Lawful, client_row, Fits, IsClientRow, IsVersionRow, snapshot_of, text-eq, read_client-client_row,
}
use taskchampion_sync_server.Sqlite.Columns.{Crates, optional, read_client, read_version, matches}

abbrev pub value : {A : Type 0} → Outcome StorageError (Option A) → Option A
value (ok a) = a
value (err e) = none
value panic = none

abbrev pub data_of : Option ClientRow → Option Bytes
data_of none = none
data_of (some row) = row.snapshot

module _ (crates : Crates) where
  abbrev pub found : Database → Uuid → Option ClientRow
  found tables c = select (of_client (crates.to_string c)) tables.clients

  abbrev pub client_of : Option ClientRow → Option Client
  client_of row = value (optional (read_client crates) row)

  abbrev pub version_of : Option VersionRow → Option Version
  version_of row = value (optional (read_version crates) row)

  abbrev pub by_column : (VersionRow → String) → Database → Uuid → Uuid → Option VersionRow
  by_column column tables c v = select (matches crates column c v) tables.versions

  abbrev pub view : Database → Db
  view tables c = record {
    client = client_of (found tables c);
    snapshot_data = data_of (found tables c);
    by_id = λ v. version_of (by_column (λ row. row.version_id) tables c v);
    by_parent = λ p. version_of (by_column (λ row. row.parent_version_id) tables c p);
  }

  -- Every row that is found is in form.
  pub record IsValid (tables : Database) : Type 0 where
    pub clients_valid :
        (k : String) (row : ClientRow)
        → select (of_client k) tables.clients ≡ some row
        → IsClientRow crates row
    pub versions_valid :
        (where_ : VersionRow → Bool) (row : VersionRow)
        → select where_ tables.versions ≡ some row
        → IsVersionRow crates row

  abbrev pub with_client : Database → Uuid → Uuid → Database
  with_client tables c latest = record tables {
    clients = replace_client (crates.to_string c) (crates.to_string latest) tables.clients;
  }

  module _ (laws : Lawful crates) (tables : Database) (c : Uuid) where
    -- INSERT OR REPLACE puts a row without a snapshot where there may have been one with it.
    pub found-with_client :
        (latest d : Uuid)
        → found (with_client tables c latest) d ≡ (
            if d == c
            then some (client_row crates (crates.to_string c) latest none)
            else found tables d)
    found-with_client latest d =
        select-append (of_client (crates.to_string d)) _ _
        ∙ rw
            (
              select-remove (crates.to_string d) (crates.to_string c) tables.clients,
              text-eq crates laws d c,
              text-eq crates laws c d,
            )
            (ground (arith, Bool-cases (d == c)))

    pub client_of-client_row :
        (id : String) (latest : Uuid) (kept : Option (Snapshot × Bytes))
        → Fits crates kept
        → client_of (some (client_row crates id latest kept))
          ≡ some (record { latest_version_id = latest; snapshot = snapshot_of crates laws kept })
    client_of-client_row id latest kept fits =
        ap
          (λ o. value (optional (λ (row : ClientRow). o) (some (client_row crates id latest kept))))
          (read_client-client_row crates laws id latest kept fits)

    abbrev pub reset : Uuid → Db
    reset latest =
        set_view (view tables) c (record (created latest (view tables c)) { snapshot_data = none })

    pub view-with_client : (latest : Uuid) → view (with_client tables c latest) ≡ reset latest
    view-with_client latest = fun_ext λ d. elim (Bool-cases (d == c)) [
      | inl same ↦
          View-ext _ _
            (rw (found-with_client latest d, same)
              (client_of-client_row (crates.to_string c) latest none tt))
            (rw (found-with_client latest d, same))
            (λ v. rw same (ap (λ x. (view tables x).by_id v) (eq_of_test d c same)))
            (λ p. rw same (ap (λ x. (view tables x).by_parent p) (eq_of_test d c same)))
      | inr other ↦
          View-ext _ _ (rw (found-with_client latest d, other))
            (rw (found-with_client latest d, other)) (λ v. rw other) (λ p. rw other)
    ]

    pub with_client-IsValid :
        (latest : Uuid) → IsValid tables → IsValid (with_client tables c latest)
    with_client-IsValid latest valid = record {
      clients_valid = λ k row e. elim (select-append_cases (of_client k) _ _ row e) [
        | inl old ↦ valid.clients_valid k row (select-remove-some k _ tables.clients row old)
        | inr new ↦ (crates.to_string c, latest, none, sym new, tt)
      ];
      versions_valid = valid.versions_valid;
    }
