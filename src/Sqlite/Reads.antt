-- ===== src/Sqlite/Reads.antt =====
-- What the queries of sqlite/src/lib.rs return from tables in form.
use Prim.Native.String.{String}
use mathlib.Core.Option.{some-ne-none, some_inj}
use taskchampion_sync_server.Prelude.{
  ◌≡◌, refl, sym, ◌∙◌, ap, subst, inl, inr, Option, none, some, Option-cases,
}
use taskchampion_sync_server.Core.Types.{Uuid, Bytes, Client, Snapshot, StorageError}
use taskchampion_sync_server.Core.Txn.{Outcome, ok, and_then}
use taskchampion_sync_server.Sqlite.Tables.{ClientRow, VersionRow, Database}
use taskchampion_sync_server.Sqlite.Rows.{
  Lawful, client_row, Fits, read_client-client_row, read_version-version_row, snapshot_of,
}
use taskchampion_sync_server.Sqlite.Views.{
  found, client_of, version_of, by_column, value, view, IsValid, client_of-client_row,
}
use taskchampion_sync_server.Sqlite.Columns.{Crates, optional, read_client, read_version}

module _ (crates : Crates) (laws : Lawful crates) where
  value_of :
      {A : Type 0} (o : Outcome StorageError (Option A)) (a : Option A)
      → o ≡ ok a
      → o ≡ ok (value o)
  value_of o a e = e ∙ ap (λ x. ok (value x)) (sym e)

  module _ (tables : Database) (c : Uuid) (valid : IsValid crates tables) where
    -- the row of a client that can be read
    abbrev pub Present : Client → Type 0
    Present client =
        (id : String) × (latest : Uuid) × (kept : Option (Snapshot × Bytes)) × (found crates tables
            c
          ≡ some (client_row crates id latest kept))
        × Fits crates kept
        × (client ≡ record { latest_version_id = latest; snapshot = snapshot_of crates laws kept })

    form_of :
        (row : ClientRow)
        → found crates tables c ≡ some row
        → (client : Client) × ((view crates tables c).client ≡ some client) × Present client
    form_of row present =
        let (id, latest, kept, form, fits) = valid.clients_valid _ row present in
        let form' = present ∙ ap some form in
        (
          record { latest_version_id = latest; snapshot = snapshot_of crates laws kept },
          ap (client_of crates) form'
              ∙ client_of-client_row crates laws tables c id latest kept fits,
          (id, latest, kept, form', fits, refl),
        )

    pub row_of : (client : Client) → (view crates tables c).client ≡ some client → Present client
    row_of client e = elim (Option-cases (found crates tables c)) [
      | inl absent ↦ absurd (some-ne-none client (sym e ∙ ap (client_of crates) absent))
      | inr (row, present) ↦
          let (other, seen, has) = form_of row present in
          subst Present (some_inj.0 (sym seen ∙ e)) has
    ]

    pub no_row : (view crates tables c).client ≡ none → found crates tables c ≡ none
    no_row e = elim (Option-cases (found crates tables c)) [
      | inl absent ↦ absent
      | inr (row, present) ↦
          let (other, seen, has) = form_of row present in absurd (some-ne-none other (sym seen ∙ e))
    ]

    -- Whatever is found can be read.
    pub read_found :
        optional (read_client crates) (found crates tables c) ≡ ok (view crates tables c).client
    read_found = elim (Option-cases (found crates tables c)) [
      | inl absent ↦ rw absent
      | inr (row, present) ↦
          let (id, latest, kept, form, fits) = valid.clients_valid _ row present in
          rw (present ∙ ap some form) (
            value_of _ _ (
              ap (λ o. and_then o λ a. ok (some a))
                (read_client-client_row crates laws id latest kept fits)))
    ]

    pub read_found_version :
        (column : VersionRow → String) (j : Uuid)
        → optional (read_version crates) (by_column crates column tables c j)
          ≡ ok (version_of crates (by_column crates column tables c j))
    read_found_version column j = elim (Option-cases (by_column crates column tables c j)) [
      | inl absent ↦ rw absent
      | inr (row, present) ↦
          let (owner, ver, form) = valid.versions_valid _ row present in
          rw (present ∙ ap some form) (
            value_of _ _ (
              ap (λ o. and_then o λ a. ok (some a))
                (read_version-version_row crates laws owner ver)))
    ]
