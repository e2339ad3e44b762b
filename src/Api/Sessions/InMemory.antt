-- ===== src/Api/Sessions/InMemory.antt =====
-- Any order of the transactions of the handlers on the storage in memory, also those in which handlers
-- create a client again.
use taskchampion_sync_server.Prelude.{◌∙◌, true}
use taskchampion_sync_server.Core.Types.{ServerConfig}
use taskchampion_sync_server.Core.History.Calls.{World, client_of}
use taskchampion_sync_server.Core.Protocol.{Holds}
use taskchampion_sync_server.Core.InMemory.{InMemoryStorage}
use taskchampion_sync_server.Core.InMemory.Fulfils.{in_memory-Contract, Holds-known}
use taskchampion_sync_server.Api.Http.{TextOps, Allowlist}
use taskchampion_sync_server.Api.NewClient.{on_memory, taken, create_client_refused}
use taskchampion_sync_server.Api.Sessions.{CreatesOnce, Reach, Reach-Holds}

module _ (ops : TextOps) (config : ServerConfig) (allowlist : Allowlist) where
  pub in_memory-CreatesOnce : CreatesOnce ops (on_memory config allowlist) in_memory-Contract taken
  in_memory-CreatesOnce m v c h held e =
      let known = Holds-known m v held in
      create_client_refused ops config allowlist m c (client_of h) known.0 (known.1 c ∙ rw e)

  -- From an empty storage in memory, whatever transactions of the handlers follow one another, those
  -- that create a client which exists included, with fresh identifiers and with fewer than 2 ^ 32 - 1
  -- versions of a client: the lock is not poisoned, the storage holds the lines of versions that the
  -- protocol says, and each client's versions are one line without forks.
  pub reached_in_memory-Holds :
      {s : InMemoryStorage} {w : World}
      → Reach ops (on_memory config allowlist) in_memory-Contract true s w
      → Holds in_memory-Contract s w
  reached_in_memory-Holds r =
      Reach-Holds ops (on_memory config allowlist) in_memory-Contract (λ e. in_memory-CreatesOnce) r
