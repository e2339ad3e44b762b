-- ===== src/Core/Storage.antt =====
-- The traits of core/src/storage.rs, as a record of their methods: `S` is the state of a storage
-- and `T` that of a transaction, which holds the storage for itself while it is open.
pub mod Contract
pub mod Call
pub mod Tested
use taskchampion_sync_server.Prelude.{Bool, Option, if◌then◌else◌}
use taskchampion_sync_server.Core.Types.{
  Uuid, Bytes, Client, Snapshot, Version, StorageError, ServerError,
}
use taskchampion_sync_server.Core.Txn.{Outcome, ok, err, panic, Txn}

pub record Storage (S T : Type 0) : Type 0 where
  pub txn : S → Uuid → Outcome StorageError T
  pub get_client : Txn T StorageError (Option Client)
  pub new_client : Uuid → Txn T StorageError (Unit {0})
  pub set_snapshot : Snapshot → Bytes → Txn T StorageError (Unit {0})
  pub get_snapshot_data : Uuid → Txn T StorageError (Option Bytes)
  pub get_version_by_parent : Uuid → Txn T StorageError (Option Version)
  pub get_version : Uuid → Txn T StorageError (Option Version)
  pub add_version : Uuid → Uuid → Bytes → Txn T StorageError (Unit {0})
  pub commit : Txn T StorageError (Unit {0})
  -- the end of the transaction: the storage that it leaves, and whether the drop panics
  pub drop : T → S × Bool

module _ {S T A : Type 0} (st : Storage S T) where
  abbrev pub finish : Outcome ServerError A × T → Outcome ServerError A × S
  finish (r, t) = let (s, panics) = st.drop t in (if panics then panic else r, s)

  abbrev pub opened : S → Outcome StorageError T → Txn T ServerError A → Outcome ServerError A × S
  opened s (ok t) body = finish (body t)
  opened s (err e) body = (err (ServerError.other e), s)
  opened s panic body = (panic, s)

  -- `let mut txn = self.storage.txn(client_id)?;`, the rest of the function, and the drop of `txn`
  -- where the function returns
  abbrev pub with_txn : S → Uuid → Txn T ServerError A → Outcome ServerError A × S
  with_txn s client_id body = opened s (st.txn s client_id) body
