-- ===== src/Sqlite/Forks.antt =====
-- Two handlers of server/src/api/add_version.rs at work at once on SQLite, for the same new client.
use taskchampion_sync_server.Prelude.{ℕ, ◌≡◌, ◌≢◌, refl, ◌∙◌, ap, none, some, arith, [], ◌∷◌}
use taskchampion_sync_server.Core.Types.{
  Uuid, Bytes, ServerConfig, AddVersionResult, ServerError, Version,
}
use taskchampion_sync_server.Core.Txn.{ok, err}
use taskchampion_sync_server.Core.Server.{Env, add_version, urgency}
use taskchampion_sync_server.Core.Server.AddVersion.{add_version-refines, unused_of_new}
use taskchampion_sync_server.Core.History.Calls.{World, IsFresh, set_history, extend}
use taskchampion_sync_server.Core.History.Invariant.{set_history-IsWorld, set_history-IsNewTo}
use taskchampion_sync_server.Core.Protocol.{Holds}
use taskchampion_sync_server.Core.Protocol.Replies.{add_version-Holds}
use taskchampion_sync_server.Api.Http.{TextOps, Allowlist}
use taskchampion_sync_server.Api.Handlers.{create_client}
use taskchampion_sync_server.Api.AddVersion.{new_history, create_client-Ends, IsFresh-after_create}
use taskchampion_sync_server.Api.Concurrent.{Job, calling, answered, Schedule, advance, run}
use taskchampion_sync_server.Sqlite.Tables.{Database}
use taskchampion_sync_server.Sqlite.Rows.{Lawful}
use taskchampion_sync_server.Sqlite.Columns.{Crates}
use taskchampion_sync_server.Sqlite.Views.{view}
use taskchampion_sync_server.Sqlite.Fulfils.{sqlite-Contract, Holds-valid}
use taskchampion_sync_server.Sqlite.Agreement.{on_sqlite}
use taskchampion_sync_server.Sqlite.Races.{create_client_resets}
use taskchampion_sync_server.Sqlite.{sqlite}

-- Both handlers find no client; the first one creates it and adds its version; then the second one
-- creates the client and adds its version.
abbrev pub crossed : (ℕ → Env) → Schedule
crossed envs =
    (0, envs 0) ∷ (1, envs 1) ∷ (0, envs 2) ∷ (0, envs 3) ∷ (1, envs 4) ∷ (1, envs 5) ∷ []

-- requests of one client, under the same parent
abbrev pub same_parent : Uuid → Uuid → (ℕ → Bytes) → ℕ → Job
same_parent c p bodies i = record { client_id = c; parent_version_id = p; body = bodies i }

module _ (crates : Crates) (laws : Lawful crates) (ops : TextOps) (config : ServerConfig)
    (allowlist : Allowlist) (envs : ℕ → Env) (c p : Uuid) (bodies : ℕ → Bytes) (s : Database)
    (w : World) (holds : Holds (sqlite-Contract crates laws) s w) (unknown : w c ≡ none)
    (fresh : (i : ℕ) → IsFresh (envs i).new_v4 p w) where
  abbrev called : ℕ → ℕ → Database → Database
  called i n db = (add_version (sqlite crates) config (envs n) c p (bodies i) db).1

  abbrev created : Database → Database
  created db = (create_client ops (on_sqlite crates laws config allowlist) c db).1

  -- A call that finds no client changes nothing.
  call_unknown :
      (i n : ℕ) (db : Database)
      → Holds (sqlite-Contract crates laws) db w
      → ((add_version (sqlite crates) config (envs n) c p (bodies i) db).0
          ≡ err ServerError.no_such_client)
        × Holds (sqlite-Contract crates laws) (called i n db) w
  call_unknown i n db held =
      let ends =
        add_version-refines (sqlite-Contract crates laws) config (envs n) db w c p (bodies i)
          held.ready held.same held.valid (rw unknown tt) (fresh n) in
      (
        ends.0 ∙ rw unknown,
        record { ready = ends.1; same = ends.2 ∙ rw unknown; valid = held.valid },
      )

  abbrev w_made : World
  w_made = set_history w c new_history

  made-Holds :
      (db : Database)
      → Holds (sqlite-Contract crates laws) db w
      → ((create_client ops (on_sqlite crates laws config allowlist) c db).0 ≡ ok tt)
        × Holds (sqlite-Contract crates laws) (created db) w_made
  made-Holds db held =
      let ends =
        create_client-Ends ops (on_sqlite crates laws config allowlist)
          (sqlite-Contract crates laws) db w c held.ready held.same unknown in
      (
        ends.0,
        record {
          ready = ends.1;
          same = ends.2;
          valid = set_history-IsWorld w c new_history held.valid (tt, tt);
        },
      )

  abbrev first_version : Version
  first_version = record {
    version_id = (envs 3).new_v4;
    parent_version_id = p;
    history_segment = bodies 0;
  }

  abbrev w_first : World
  w_first = set_history w_made c (extend first_version new_history)

  -- The first handler's version is accepted, and is the client's line.
  first-accepted :
      (db : Database)
      → Holds (sqlite-Contract crates laws) db w_made
      → ((add_version (sqlite crates) config (envs 3) c p (bodies 0) db).0
          ≡ ok (AddVersionResult.ok (envs 3).new_v4, urgency config (envs 3) none))
        × Holds (sqlite-Contract crates laws) (called 0 3 db) w_first
  first-accepted db held =
      let here : w_made c ≡ some new_history = ground arith in
      let fresh' = IsFresh-after_create (envs 3).new_v4 p w c (fresh 3) in
      let ends =
        add_version-refines (sqlite-Contract crates laws) config (envs 3) db w_made c p (bodies 0)
          held.ready held.same held.valid (rw here (omega arith)) fresh' in
      (
        ends.0 ∙ rw here,
        rw here at (
            add_version-Holds (sqlite-Contract crates laws) config (envs 3) c p (bodies 0) db w_made
              held (rw here (omega arith)) fresh'),
      )

  -- The second handler's identifier is of no version then.
  second-unused :
      (envs 5).new_v4 ≢ (envs 3).new_v4
      → (db : Database) → Holds (sqlite-Contract crates laws) db w_first
      → (d : Uuid) → (view crates db d).by_id (envs 5).new_v4 ≡ none
  second-unused other db held d =
      ap (λ v. (v d).by_id (envs 5).new_v4) (Holds-valid crates laws db w_first held).1
      ∙ unused_of_new (envs 5).new_v4 (w_first d) (
          set_history-IsNewTo (envs 5).new_v4 w_made c (extend first_version new_history)
            (other, (fresh 5).1, (fresh 5).0)
            (IsFresh-after_create (envs 5).new_v4 p w c (fresh 5)).2 d)

  -- Two handlers on SQLite find the same client unknown, where the database holds lines of versions and
  -- identifiers are fresh and different, and send versions under the same parent. In this order of
  -- their transactions both versions are accepted.
  pub crossed_accepts_both :
      (envs 5).new_v4 ≢ (envs 3).new_v4
      → let (stages, s') =
          run ops
            (on_sqlite crates laws config allowlist)
            (same_parent c p bodies)
            (crossed envs)
            ((λ i. calling), s) in
        (stages 0 ≡ answered (AddVersionResult.ok (envs 3).new_v4) (urgency config (envs 3) none))
        × (stages 1 ≡ answered (AddVersionResult.ok (envs 5).new_v4) (urgency config (envs 5) none))
  unfolding run advance
  crossed_accepts_both other =
      let one = call_unknown 0 0 s holds in
      let two = call_unknown 1 1 _ one.1 in
      let three = made-Holds _ two.1 in
      let four = first-accepted _ three.1 in
      let five =
        create_client_resets crates laws ops config allowlist (envs 5) c p (bodies 1) _
          (Holds-valid crates laws _ w_first four.1).0 (second-unused other _ four.1) in
      rw (one.0, two.0, three.0, four.0, five.0, five.3) (refl, refl)
