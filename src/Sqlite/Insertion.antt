-- ===== src/Sqlite/Insertion.antt =====
-- What `add_version` of sqlite/src/lib.rs does in an open transaction on tables in form.
use taskchampion_sync_server.Prelude.{
  ◌==◌, ◌≡◌, refl, sym, ◌∙◌, ap, subst, fun_ext, true, Bool-cases, inl, inr, Option, none, some,
  arith, List,
}
use taskchampion_sync_server.Core.Types.{Uuid, Bytes, Client, Snapshot, Version}
use taskchampion_sync_server.Core.Txn.{ok}
use taskchampion_sync_server.Core.Storage.Contract.{
  View-ext, set_view, CanCount, count_version, added,
}
use taskchampion_sync_server.Sqlite.Tables.{
  ClientRow, VersionRow, Database, insert_version, set_latest,
}
use taskchampion_sync_server.Sqlite.Rows.{
  Lawful, version_row, client_row, Fits, snapshot_of, set_latest-client_row,
}
use taskchampion_sync_server.Sqlite.Views.{client_of, data_of, view, IsValid, client_of-client_row}
use taskchampion_sync_server.Sqlite.Updates.{
  updated, view-updated, updated-IsValid, with_version, insert_version-fresh, with_version-IsValid,
  version_of-with_version,
}
use taskchampion_sync_server.Sqlite.Reads.{Present, row_of}
use taskchampion_sync_server.Sqlite.Columns.{Crates}
use taskchampion_sync_server.Sqlite.{update_clients, SqliteTxn, add_version, current}
use taskchampion_sync_server.Sqlite.Calls.{IsOpen, opened, in_txn}

self : (c : Uuid) → (c == c) ≡ true
self c = ground arith

module _ (crates : Crates) (laws : Lawful crates) where
  -- Where the identifier is not taken, `add_version` inserts the row and updates the client.
  pub add_version_inserts :
      (file tables : Database) (c : Uuid) (ver : Version) (rows : List VersionRow)
      → insert_version (version_row crates c ver) tables.versions ≡ some rows
      → add_version crates ver.version_id ver.parent_version_id ver.history_segment
          (in_txn file tables c)
        ≡ (
          ok tt,
          in_txn file
              (update_clients
                (crates.to_string c)
                (set_latest (crates.to_string ver.version_id))
                (record tables { versions = rows }))
              c,
        )
  unfolding add_version
  add_version_inserts file tables c ver rows free = rw (free, add_version)

  module _ (file tables : Database) (c : Uuid) (valid : IsValid crates tables) (ver : Version)
      (client : Client) (has : (view crates tables c).client ≡ some client)
      (fits : CanCount client.snapshot)
      (fresh : (d : Uuid) → (view crates tables d).by_id ver.version_id ≡ none)
      (childless : (view crates tables c).by_parent ver.parent_version_id ≡ none) where
    abbrev inserted : Database
    inserted = with_version crates laws tables c valid ver fresh

    abbrev inserted-IsValid : IsValid crates inserted
    inserted-IsValid = with_version-IsValid crates laws tables c valid ver fresh

    abbrev set : ClientRow → ClientRow
    set = set_latest (crates.to_string ver.version_id)

    abbrev has_row : Present crates laws tables c valid client
    has_row = row_of crates laws tables c valid client has

    abbrev pub after_add : Database
    after_add = updated crates laws inserted c inserted-IsValid set (λ row. refl) _ has_row.3

    pub add_version_succeeds :
        add_version crates ver.version_id ver.parent_version_id ver.history_segment
          (in_txn file tables c)
        ≡ (ok tt, in_txn file after_add c)
    add_version_succeeds =
        add_version_inserts file tables c ver _
          (insert_version-fresh crates laws tables c valid ver fresh)

    -- the client's row with one more version counted
    abbrev counted :
        (kept' : Option (Snapshot × Bytes)) × (set (client_row crates has_row.0 has_row.1 has_row.2)
          ≡ client_row crates has_row.0 ver.version_id kept')
        × Fits crates kept'
        × (snapshot_of crates laws kept' ≡ count_version (snapshot_of crates laws has_row.2))
    counted =
        set_latest-client_row crates laws ver.version_id has_row.0 has_row.1 has_row.2
          (subst (λ (cl : Client). CanCount cl.snapshot) has_row.5 fits)

    pub after_add-IsValid : IsValid crates after_add
    after_add-IsValid =
        updated-IsValid crates laws inserted c inserted-IsValid set (λ row. refl) _ has_row.3
          (has_row.0, ver.version_id, counted.0, counted.1, counted.2)

    client_of-counted :
        client_of crates (some (set (client_row crates has_row.0 has_row.1 has_row.2)))
        ≡ (added ver client (view crates tables c)).client
    client_of-counted =
        ap (λ row. client_of crates (some row)) counted.1
        ∙ client_of-client_row crates laws tables c has_row.0 ver.version_id counted.0 counted.2
        ∙ ap
            (λ (o : Option Snapshot).
              some (record { latest_version_id = ver.version_id; snapshot = o }))
            (counted.3 ∙ ap (λ (cl : Client). count_version cl.snapshot) (sym has_row.5))

    inserted_id :
        (d j : Uuid)
        → (view crates inserted d).by_id j
          ≡ (set_view (view crates tables) c (added ver client (view crates tables c)) d).by_id j
    inserted_id d j =
        version_of-with_version crates laws tables c valid ver fresh (λ r. r.version_id)
          ver.version_id refl (fresh c) d j
        ∙ ground (arith, Bool-cases (d == c))

    inserted_parent :
        (d j : Uuid)
        → (view crates inserted d).by_parent j
          ≡ (set_view (view crates tables) c (added ver client (view crates tables c)) d).by_parent
              j
    inserted_parent d j =
        version_of-with_version crates laws tables c valid ver fresh (λ r. r.parent_version_id)
          ver.parent_version_id refl childless d j
        ∙ ground (arith, Bool-cases (d == c))

    pub view-after_add :
        view crates after_add
        ≡ set_view (view crates tables) c (added ver client (view crates tables c))
    view-after_add =
        view-updated crates laws inserted c inserted-IsValid set (λ row. refl) _ has_row.3
        ∙ fun_ext λ d. elim (Bool-cases (d == c)) [
          | inl own ↦
              View-ext _ _ (rw own client_of-counted) (rw own (ap data_of (sym has_row.3)))
                (λ j. rw own (inserted_id c j ∙ rw (self c)))
                (λ j. rw own (inserted_parent c j ∙ rw (self c)))
          | inr other ↦
              View-ext _ _ (rw other) (rw other) (λ j. rw other (inserted_id d j ∙ rw other))
                (λ j. rw other (inserted_parent d j ∙ rw other))
        ]

  pub add_version_run :
      (v p : Uuid) (h : Bytes) (t : SqliteTxn) (client : Client)
      → IsOpen crates laws t
      → (view crates (current t.con) t.client_id).client ≡ some client
      → CanCount client.snapshot
      → ((d : Uuid) → (view crates (current t.con) d).by_id v ≡ none)
      → (view crates (current t.con) t.client_id).by_parent p ≡ none
      → ((add_version crates v p h t).0 ≡ ok tt)
        × IsOpen crates laws (add_version crates v p h t).1
        × (view crates (current (add_version crates v p h t).1.con)
            ≡ set_view (view crates (current t.con)) t.client_id (
                added
                  (record { version_id = v; parent_version_id = p; history_segment = h })
                  client
                  (view crates (current t.con) t.client_id)))
  add_version_run v p h _ client (opened file tables c valid) has fits fresh childless =
      let ver : Version = record { version_id = v; parent_version_id = p; history_segment = h } in
      rw (add_version_succeeds file tables c valid ver client has fits fresh childless) (
        refl,
        opened file (after_add file tables c valid ver client has fits fresh childless) c
            (after_add-IsValid file tables c valid ver client has fits fresh childless),
        view-after_add file tables c valid ver client has fits fresh childless,
      )
