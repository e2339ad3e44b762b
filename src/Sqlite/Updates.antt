-- ===== src/Sqlite/Updates.antt =====
-- How the UPDATE and the INSERT INTO versions of sqlite/src/lib.rs change what can be read.
use Prim.Native.String.{String}
use text.Mathlib.Text.{◌==◌ as str_eq}
use text.Mathlib.TextEquality.{eq_iff}
use mathlib.Core.Bool.{true≢false}
use mathlib.Core.Option.{some-ne-none}
use taskchampion_sync_server.Prelude.{
  ◌==◌, ◌≡◌, subst, refl, sym, ◌∙◌, ap, fun_ext, Bool, true, false, Bool-cases, eq_of_test, inl,
  inr, none, some, Option-cases, [], ◌∷◌, ◌++◌, arith, if◌then◌else◌, ◌&&◌,
}
use taskchampion_sync_server.HashMap.{uuid_eq}
use taskchampion_sync_server.Core.Types.{Uuid, Version}
use taskchampion_sync_server.Core.Storage.Contract.{View-ext, set_view}
use taskchampion_sync_server.Sqlite.Tables.{
  ClientRow, VersionRow, Database, select, of_client, insert_version,
}
use taskchampion_sync_server.Sqlite.Select.{
  or_else-none, select-append, select-append_cases, select-update_cases, select-misses,
  select-holds, select-update,
}
use taskchampion_sync_server.Sqlite.Rows.{
  Lawful, version_row, IsClientRow, text-eq, read_version-version_row,
}
use taskchampion_sync_server.Sqlite.Views.{
  value, found, client_of, version_of, by_column, view, IsValid,
}
use taskchampion_sync_server.Sqlite.Columns.{Crates, optional, matches}
use taskchampion_sync_server.Sqlite.{update_clients}

and_false : (b : Bool) → (b && false) ≡ false
and_false true = refl
and_false false = refl

module _ (crates : Crates) (laws : Lawful crates) (tables : Database) (c : Uuid)
    (valid : IsValid crates tables) where
  module _ (set : ClientRow → ClientRow)
      (keeps : (row : ClientRow) → (set row).client_id ≡ row.client_id) (old : ClientRow)
      (present : found crates tables c ≡ some old) where
    abbrev pub updated : Database
    updated = update_clients (crates.to_string c) set tables

    found-updated :
        (d : Uuid)
        → found crates updated d ≡ (if d == c then some (set old) else found crates tables d)
    found-updated d =
        select-update (crates.to_string d) (crates.to_string c) set tables.clients keeps
        ∙ rw (text-eq crates laws d c) (ground (arith, present, eq_of_test d c))

    pub view-updated :
        view crates updated
        ≡ set_view (view crates tables) c (record (view crates tables c) {
          client = client_of crates (some (set old));
          snapshot_data = (set old).snapshot;
        })
    view-updated = fun_ext λ d. elim (Bool-cases (d == c)) [
      | inl same ↦
          View-ext _ _ (rw (found-updated d, same)) (rw (found-updated d, same))
            (λ v. rw same (ap (λ x. (view crates tables x).by_id v) (eq_of_test d c same)))
            (λ p. rw same (ap (λ x. (view crates tables x).by_parent p) (eq_of_test d c same)))
      | inr other ↦
          View-ext _ _ (rw (found-updated d, other)) (rw (found-updated d, other)) (λ v. rw other)
            (λ p. rw other)
    ]

    was_old :
        (k : String) (was : ClientRow)
        → k ≡ crates.to_string c
        → select (of_client k) tables.clients ≡ some was
        → was ≡ old
    was_old k was same there = cc

    pub updated-IsValid : IsClientRow crates (set old) → IsValid crates updated
    updated-IsValid good = record {
      clients_valid = λ k row e.
          let (was, there, now) =
            select-update_cases k (crates.to_string c) set tables.clients row keeps e in
          elim (Bool-cases (str_eq k (crates.to_string c))) [
            | inl same ↦
                subst (IsClientRow crates)
                  (sym (now ∙ rw same (ap set (was_old k was ((eq_iff _ _).0 same) there)))) good
            | inr other ↦
                subst (IsClientRow crates) (sym (now ∙ rw other)) (valid.clients_valid k was there)
          ];
      versions_valid = valid.versions_valid;
    }

  version_of-version_row :
      (owner : Uuid) (ver : Version)
      → version_of crates (some (version_row crates owner ver)) ≡ some ver
  version_of-version_row owner ver =
      ap (λ o. value (optional (λ (row : VersionRow). o) (some (version_row crates owner ver))))
        (read_version-version_row crates laws owner ver)

  -- What cannot be read is in no row.
  version_absent :
      (column : VersionRow → String) (d j : Uuid)
      → version_of crates (by_column crates column tables d j) ≡ none
      → by_column crates column tables d j ≡ none
  version_absent column d j e = elim (Option-cases (by_column crates column tables d j)) [
    | inl absent ↦ absent
    | inr (row, present) ↦
        let (owner, ver, form) = valid.versions_valid _ row present in
        absurd (
          some-ne-none ver (
            sym (version_of-version_row owner ver)
            ∙ ap (version_of crates) (sym (present ∙ ap some form))
            ∙ e))
  ]

  module _ (ver : Version)
      (fresh : (d : Uuid) → (view crates tables d).by_id ver.version_id ≡ none) where
    abbrev pub with_version : Database
    with_version = record tables { versions = tables.versions ++ (version_row crates c ver ∷ []) }

    -- An identifier that no client has a version of is no PRIMARY KEY that is taken.
    pub insert_version-fresh :
        insert_version (version_row crates c ver) tables.versions ≡ some with_version.versions
    insert_version-fresh =
        elim (Option-cases (
          select (λ row. str_eq row.version_id (crates.to_string ver.version_id))
            tables.versions)) [
              | inl absent ↦ rw absent
              | inr (row, present) ↦
                  let (owner, w, form) = valid.versions_valid _ row present in
                  let misses =
                    select-misses (matches crates (λ r. r.version_id) owner ver.version_id) _
                      tables.versions row
                      (version_absent (λ r. r.version_id) owner ver.version_id (fresh owner))
                      present in
                  let holds = select-holds _ tables.versions row present in
                  let owned =
                    (eq_iff row.client_id (crates.to_string owner)).1
                      (ap (λ (r : VersionRow). r.client_id) form) in
                  absurd (true≢false (sym (rw (holds, owned)) ∙ misses))
            ]

    matches-version_row :
        (column : VersionRow → String) (id : Uuid)
        → column (version_row crates c ver) ≡ crates.to_string id
        → (d j : Uuid) → matches crates column d j (version_row crates c ver) ≡ (j == id && d == c)
    matches-version_row column id agrees d j =
        rw (agrees, text-eq crates laws id j, text-eq crates laws c d) (ground arith)

    pub version_of-with_version :
        (column : VersionRow → String) (id : Uuid)
        → column (version_row crates c ver) ≡ crates.to_string id
        → version_of crates (by_column crates column tables c id) ≡ none
        → (d j : Uuid)
        → version_of crates (by_column crates column with_version d j) ≡ (
            if d == c
            then (if j == id
                then some ver
                else version_of crates (by_column crates column tables c j))
            else version_of crates (by_column crates column tables d j))
    version_of-with_version column id agrees absent d j =
        rw
          (
            select-append (matches crates column d j) tables.versions (version_row crates c ver),
            matches-version_row column id agrees d j,
          )
          (elim (Bool-cases (d == c)) [
            | inl own ↦ elim (Bool-cases (j == id)) [
              | inl hit ↦
                  rw
                    (
                      own,
                      hit,
                      version_absent column d j (
                          ap (λ x. version_of crates (by_column crates column tables x j))
                            (eq_of_test d c own)
                          ∙ ap (λ x. version_of crates (by_column crates column tables c x))
                              (eq_of_test j id hit)
                          ∙ absent),
                    )
                    (version_of-version_row c ver)
              | inr miss ↦
                  rw (own, miss, or_else-none (by_column crates column tables d j))
                    (ap (λ x. version_of crates (by_column crates column tables x j))
                      (eq_of_test d c own))
            ]
            | inr other ↦
                rw (other, and_false (j == id), or_else-none (by_column crates column tables d j))
          ])

    pub with_version-IsValid : IsValid crates with_version
    with_version-IsValid = record {
      clients_valid = valid.clients_valid;
      versions_valid = λ where_ row e.
          elim (select-append_cases where_ tables.versions (version_row crates c ver) row e) [
            | inl old ↦ valid.versions_valid where_ row old
            | inr new ↦ (c, ver, sym new)
          ];
    }
