-- ===== src/Core/Server/Runs.antt =====
-- How a call of the server ends, over any storage that fulfils the contract.
use taskchampion_sync_server.Prelude.{◌≡◌, refl, ◌∙◌, none, some}
use taskchampion_sync_server.Core.Types.{Uuid, Bytes, Snapshot, ServerError, Client}
use taskchampion_sync_server.Core.Txn.{Outcome, ok, err, Txn}
use taskchampion_sync_server.Core.Storage.{Storage, with_txn}
use taskchampion_sync_server.Core.Storage.Contract.{Db, Contract}
use taskchampion_sync_server.Core.Server.{existing_client}

module _ {S T : Type 0} {st : Storage S T} (k : Contract st) where
  -- The call returned `r`, and left a storage that is ready and holds `db`.
  abbrev pub Ends : {A : Type 0} → Outcome ServerError A × S → Outcome ServerError A → Db → Type 0
  Ends o r db = (o.0 ≡ r) × k.Ready o.1 × (k.stored o.1 ≡ db)

  module _ {A : Type 0} (s : S) (c : Uuid) (ready : k.Ready s) where
    -- A transaction that ends clean leaves what it saw.
    pub with_txn-Ends :
        (body : Txn T ServerError A) (o : Outcome ServerError A × T) (db : Db)
        → body (k.begin s c) ≡ o
        → k.Clean o.1
        → k.db o.1 ≡ db
        → Ends (with_txn st s c body) o.0 db
    with_txn-Ends body o db run clean same =
        let dropped = k.drop_lem o.1 clean in
        rw (k.txn_lem s c ready, run, dropped.1) (refl, dropped.0, dropped.2 ∙ same)

    -- A call that only reads leaves the storage's contents alone.
    pub with_txn-reads :
        (body : Txn T ServerError A) (r : Outcome ServerError A)
        → body (k.begin s c) ≡ (r, k.begin s c)
        → Ends (with_txn st s c body) r (k.stored s)
    with_txn-reads body r run =
        with_txn-Ends body (r, k.begin s c) (k.stored s) run (k.begin-Clean s c ready)
          (k.db-begin s c ready)

  -- The first step of each call.
  module _ (s : S) (c : Uuid) (ready : k.Ready s) where
    pub client_seen : st.get_client (k.begin s c) ≡ (ok (k.stored s c).client, k.begin s c)
    client_seen = rw (
      k.get_client_lem (k.begin s c) (k.begin-Open s c ready),
      k.db-begin s c ready,
      k.owner-begin s c ready,
    )

    pub existing_client_absent :
        (k.stored s c).client ≡ none
        → existing_client st (k.begin s c) ≡ (err ServerError.no_such_client, k.begin s c)
    existing_client_absent e = rw (client_seen, e)

    pub existing_client_present :
        (client : Client)
        → (k.stored s c).client ≡ some client
        → existing_client st (k.begin s c) ≡ (ok client, k.begin s c)
    existing_client_present client e = rw (client_seen, e)

    pub children_seen :
        (p : Uuid)
        → st.get_version_by_parent p (k.begin s c) ≡ (ok ((k.stored s c).by_parent p), k.begin s c)
    children_seen p = rw (
      k.get_version_by_parent_lem p (k.begin s c) (k.begin-Open s c ready),
      k.db-begin s c ready,
      k.owner-begin s c ready,
    )

    pub version_seen :
        (v : Uuid) → st.get_version v (k.begin s c) ≡ (ok ((k.stored s c).by_id v), k.begin s c)
    version_seen v = rw (
      k.get_version_lem v (k.begin s c) (k.begin-Open s c ready),
      k.db-begin s c ready,
      k.owner-begin s c ready,
    )

    pub snapshot_seen :
        (client : Client) (snap : Snapshot) (bytes : Bytes)
        → (k.stored s c).client ≡ some client
        → client.snapshot ≡ some snap
        → (k.stored s c).snapshot_data ≡ some bytes
        → st.get_snapshot_data snap.version_id (k.begin s c) ≡ (ok (some bytes), k.begin s c)
    snapshot_seen client snap bytes has taken kept =
        k.get_snapshot_data_lem (k.begin s c) client snap bytes (k.begin-Open s c ready)
          (rw (k.db-begin s c ready, k.owner-begin s c ready) has) taken
          (rw (k.db-begin s c ready, k.owner-begin s c ready) kept)
