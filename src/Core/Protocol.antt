-- ===== src/Core/Protocol.antt =====
-- What replicas can rely on: the calls of core/src/server.rs one after the other.
pub mod Replies
pub mod Pull
pub mod Foreign
use taskchampion_sync_server.Prelude.{◌≡◌}
use taskchampion_sync_server.Core.Storage.{Storage}
use taskchampion_sync_server.Core.Storage.Contract.{Contract}
use taskchampion_sync_server.Core.History.Calls.{World, IsWorld, views}

-- The storage is ready and holds the lines of versions `w`.
pub record Holds {S T : Type 0} {st : Storage S T} (k : Contract st) (s : S) (w : World)
    : Type 0 where
  pub ready : k.Ready s
  pub same : k.stored s ≡ views w
  pub valid : IsWorld w
