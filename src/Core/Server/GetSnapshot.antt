-- ===== src/Core/Server/GetSnapshot.antt =====
-- `get_snapshot` returns the snapshot of the client.
use taskchampion_sync_server.Prelude.{◌≡◌, refl, Option, none, some, List}
use taskchampion_sync_server.Core.Types.{Uuid, Bytes, Snapshot, Version}
use taskchampion_sync_server.Core.Storage.{Storage}
use taskchampion_sync_server.Core.Storage.Contract.{Contract}
use taskchampion_sync_server.Core.Server.{get_snapshot, get_snapshot_in}
use taskchampion_sync_server.Core.Server.Runs.{
  Ends, with_txn-reads, existing_client_absent, existing_client_present, snapshot_seen,
}
use taskchampion_sync_server.Core.History.Calls.{History, World, views, client_of, snapshot_of}

module _ {S T : Type 0} {st : Storage S T} (k : Contract st) (s : S) (w : World) (c : Uuid)
    (ready : k.Ready s) (same : k.stored s ≡ views w) where
  get_snapshot_in-run :
      (vs : List Version) (snapshot : Option (Snapshot × Bytes))
      → let h : History = record { versions = vs; snapshot = snapshot } in
        w c ≡ some h → get_snapshot_in st (k.begin s c) ≡ (snapshot_of (some h), k.begin s c)
  unfolding get_snapshot_in
  get_snapshot_in-run vs none e = rw (
      existing_client_present k s c ready (client_of (record { versions = vs; snapshot = none }))
        (rw (same, e)))
  get_snapshot_in-run vs (some (snap, bytes)) e =
      let h : History = record { versions = vs; snapshot = some (snap, bytes) } in
      rw (
        existing_client_present k s c ready (client_of h) (rw (same, e)),
        snapshot_seen k s c ready (client_of h) snap bytes (rw (same, e)) refl (rw (same, e)),
      )

  run :
      (o : Option History)
      → w c ≡ o
      → get_snapshot_in st (k.begin s c) ≡ (snapshot_of o, k.begin s c)
  run none e = unfold get_snapshot_in in rw (existing_client_absent k s c ready (rw (same, e)))
  run (some h) e = get_snapshot_in-run h.versions h.snapshot e

  -- `get_snapshot` returns the version and the bytes of the client's snapshot, `none` where there is
  -- none, and fails for an unknown client. It changes nothing.
  pub get_snapshot-refines : Ends k (get_snapshot st c s) (snapshot_of (w c)) (views w)
  unfolding get_snapshot
  get_snapshot-refines = rw (← same) (with_txn-reads k s c ready _ _ (run (w c) refl))
