-- ===== src/Api/NewClient.antt =====
-- Two handlers of server/src/api/add_version.rs that find the same client unknown, on the storage in
-- memory: the second one to create it.
use taskchampion_sync_server.Prelude.{◌≡◌, false, some}
use taskchampion_sync_server.Core.Types.{Uuid, Client, StorageError, ServerConfig}
use taskchampion_sync_server.Core.Txn.{err}
use taskchampion_sync_server.Core.InMemory.{
  InMemoryStorage, InnerTxn, txn, new_client, commit, drop, in_memory,
}
use taskchampion_sync_server.Api.Http.{TextOps, Allowlist, HttpError, server_error_to_actix}
use taskchampion_sync_server.Api.Handlers.{ServerState, create_client}

-- a server on the storage in memory
abbrev pub on_memory : ServerConfig → Allowlist → ServerState InMemoryStorage InnerTxn
on_memory config allowlist = record {
  config = config;
  storage = in_memory;
  client_id_allowlist = allowlist;
}

-- the answer to the handler that creates a client which another has created
abbrev pub taken : Uuid → HttpError
taken c = HttpError.internal_server_error (StorageError.client_already_exists c)

-- In memory, where no transaction has panicked, creating a client that exists is an internal server
-- error, and the storage stays as it was.
pub create_client_refused :
    (ops : TextOps) (config : ServerConfig) (allowlist : Allowlist) (s : InMemoryStorage) (c : Uuid)
    (client : Client)
    → s.poisoned ≡ false
    → s.inner.clients c ≡ some client
    → create_client ops (on_memory config allowlist) c s
      ≡ (err (HttpError.internal_server_error (StorageError.client_already_exists c)), s)
unfolding create_client txn new_client commit drop server_error_to_actix
create_client_refused ops config allowlist s c client healthy has = rw (healthy, has)
