-- ===== src/Sqlite/Agreement.antt =====
-- The server on SQLite and the server on the storage in memory.
use taskchampion_sync_server.Prelude.{◌≡◌, ◌∙◌, sym, false}
use taskchampion_sync_server.Core.Types.{Uuid, Bytes, ServerConfig}
use taskchampion_sync_server.Core.Server.{Env, get_child_version, get_snapshot, add_version}
use taskchampion_sync_server.Core.Server.AddVersion.{IsSmall, add_version-refines}
use taskchampion_sync_server.Core.Server.GetChildVersion.{get_child_version-refines}
use taskchampion_sync_server.Core.Server.GetSnapshot.{get_snapshot-refines}
use taskchampion_sync_server.Core.History.Calls.{World, IsFresh}
use taskchampion_sync_server.Core.Protocol.{Holds}
use taskchampion_sync_server.Core.InMemory.{InMemoryStorage, in_memory}
use taskchampion_sync_server.Core.InMemory.Fulfils.{in_memory-Contract}
use taskchampion_sync_server.Api.Http.{TextOps, Allowlist}
use taskchampion_sync_server.Api.Handlers.{ServerState}
use taskchampion_sync_server.Api.NewClient.{taken}
use taskchampion_sync_server.Api.Sessions.{Reach, Reach-Holds}
use taskchampion_sync_server.Sqlite.Columns.{Crates}
use taskchampion_sync_server.Sqlite.{SqliteTxn, sqlite}
use taskchampion_sync_server.Sqlite.Tables.{Database}
use taskchampion_sync_server.Sqlite.Rows.{Lawful}
use taskchampion_sync_server.Sqlite.Fulfils.{sqlite-Contract}

module _ (crates : Crates) (laws : Lawful crates) where
  -- a server on SQLite
  abbrev pub on_sqlite : ServerConfig → Allowlist → ServerState Database SqliteTxn
  on_sqlite config allowlist = record {
    config = config;
    storage = sqlite crates;
    client_id_allowlist = allowlist;
  }

  -- From an empty SQLite database, where no client is created that exists already, which handlers at
  -- work at once do not ensure, and with fresh identifiers and fewer than 2 ^ 32 - 1 versions of a
  -- client: whatever transactions of the handlers follow one another under these conditions, the
  -- database stays in form and holds the lines of versions that the protocol says, timestamps to the
  -- precision that is kept.
  pub reached_sqlite-Holds :
      (ops : TextOps) (config : ServerConfig) (allowlist : Allowlist) {s : Database} {w : World}
      → Reach ops (on_sqlite config allowlist) (sqlite-Contract crates laws) false s w
      → Holds (sqlite-Contract crates laws) s w
  reached_sqlite-Holds ops config allowlist r =
      Reach-Holds ops (on_sqlite config allowlist) (sqlite-Contract crates laws) {taken = taken}
        (λ e. absurd (cc e)) r

  -- A database in SQLite and a storage in memory that hold the same lines of versions give the same
  -- replies to `get_child_version`, to `get_snapshot`, and to an `add_version` with a fresh
  -- identifier where the client has fewer than 2 ^ 32 - 1 versions.
  pub same_replies :
      (config : ServerConfig) (env : Env) (c p : Uuid) (bytes : Bytes) (s : Database)
      (m : InMemoryStorage) (w : World)
      → Holds (sqlite-Contract crates laws) s w
      → Holds in_memory-Contract m w
      → IsSmall (w c)
      → IsFresh env.new_v4 p w
      → ((get_child_version (sqlite crates) c p s).0 ≡ (get_child_version in_memory c p m).0)
        × ((get_snapshot (sqlite crates) c s).0 ≡ (get_snapshot in_memory c m).0)
        × ((add_version (sqlite crates) config env c p bytes s).0
            ≡ (add_version in_memory config env c p bytes m).0)
  same_replies config env c p bytes s m w a b small fresh =
      let k = sqlite-Contract crates laws in
      let k' = in_memory-Contract in
      (
        (get_child_version-refines k s w c p a.ready a.same a.valid).0
            ∙ sym (get_child_version-refines k' m w c p b.ready b.same b.valid).0,
        (get_snapshot-refines k s w c a.ready a.same).0
            ∙ sym (get_snapshot-refines k' m w c b.ready b.same).0,
        (add_version-refines k config env s w c p bytes a.ready a.same a.valid small fresh).0
            ∙ sym
                (add_version-refines k' config env m w c p bytes b.ready b.same b.valid small
                  fresh).0,
      )
