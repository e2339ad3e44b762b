-- ===== src/Core/InMemory/Failures.antt =====
-- What the storage in memory does where a transaction fails or is not committed.
use taskchampion_sync_server.Prelude.{◌≡◌, refl, false, some, arith}
use taskchampion_sync_server.HashMap.{insert, uuid_eq, pair_eq}
use taskchampion_sync_server.Core.Types.{Uuid, Bytes, Client, StorageError, ServerError}
use taskchampion_sync_server.Core.Txn.{Outcome, ok, err, other?}
use taskchampion_sync_server.Core.Storage.{with_txn}
use taskchampion_sync_server.Core.InMemory.{
  InMemoryStorage, InnerTxn, txn, get_client, add_version, drop, advance, in_memory,
}

-- the transaction that `txn` opens
abbrev pub opened_by : InMemoryStorage → Uuid → InnerTxn
opened_by s c = record { client_id = c; guard = s.inner; written = false; committed = false }

module _ (s : InMemoryStorage) (c v p old : Uuid) (bytes : Bytes) (client : Client)
    (healthy : s.poisoned ≡ false) (has : s.inner.clients c ≡ some client)
    (child : s.inner.children (c, p) ≡ some old) where
  abbrev pub attempted : Outcome ServerError (Unit {0}) × InMemoryStorage
  attempted = with_txn in_memory s c (other? (add_version v p bytes))

  abbrev left : InnerTxn
  left = record {
    client_id = c;
    guard = record s.inner {
      clients = insert s.inner.clients c (advance client v);
      children = insert {K = Uuid × Uuid} s.inner.children (c, p) v;
    };
    written = false;
    committed = false;
  }

  add_version_refused :
      add_version v p bytes (opened_by s c) ≡ (err (StorageError.already_has_child c p), left)
  unfolding add_version
  add_version_refused = rw (has, add_version, child)

  attempted_left : attempted ≡ (
    err (ServerError.other (StorageError.already_has_child c p)),
    record { inner = left.guard; poisoned = false },
  )
  unfolding txn drop
  attempted_left = rw (healthy, add_version_refused)

  -- An `add_version` under a parent that has a child fails, and what it wrote stays although it was
  -- never committed: the next transaction sees the refused version as the client's latest.
  pub failed_add_version_stays :
      (attempted.0 ≡ err (ServerError.other (StorageError.already_has_child c p)))
      × (txn attempted.1 c ≡ ok (opened_by attempted.1 c))
      × ((get_client (opened_by attempted.1 c)).0 ≡ ok (some (advance client v)))
  unfolding txn get_client
  failed_add_version_stays = rw attempted_left (refl, refl, ground arith)
