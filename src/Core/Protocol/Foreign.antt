-- ===== src/Core/Protocol/Foreign.antt =====
-- `add_snapshot` of core/src/server.rs with an identifier that is no version of the client.
use taskchampion_sync_server.Prelude.{◌≡◌, refl, ◌≢◌, ◌∙◌, ap, none, some, [], arith}
use taskchampion_sync_server.Core.Types.{
  Uuid, Bytes, ServerConfig, nil_version_id, GetVersionResult,
}
use taskchampion_sync_server.Core.Txn.{ok}
use taskchampion_sync_server.Core.Storage.{Storage}
use taskchampion_sync_server.Core.Storage.Contract.{Contract}
use taskchampion_sync_server.Core.Server.{
  Env, add_version, get_child_version, add_snapshot, get_snapshot,
}
use taskchampion_sync_server.Core.Server.AddVersion.{IsSmall}
use taskchampion_sync_server.Core.History.Calls.{History, World, IsFresh}
use taskchampion_sync_server.Core.Protocol.{Holds}
use taskchampion_sync_server.Core.Protocol.Replies.{
  after-Holds, grown_here, get_snapshot-add_snapshot, get_child_version-add_version,
}

-- a client that has been created and has no versions
abbrev pub no_versions : History
no_versions = record { versions = []; snapshot = none }

module _ {S T : Type 0} {st : Storage S T} (k : Contract st) (config : ServerConfig) (env : Env)
    (c p : Uuid) (bytes : Bytes) (s : S) (w : World) (holds : Holds k s w)
    (fresh : IsFresh env.new_v4 p w) (e : w c ≡ some no_versions) where
  -- Where a client without versions adds its first one under a parent that is not nil, no version is
  -- stored that the parent identifies, and yet a snapshot of the parent is kept: `get_snapshot` returns
  -- it, and `get_child_version` of it returns the first version.
  pub get_snapshot-add_snapshot_of_parent :
      (env' : Env) (snap : Bytes)
      → p ≢ nil_version_id
      → let one = (add_version st config env c p bytes s).1 in
        let kept = (add_snapshot st env' c p snap one).1 in
        ((k.stored one c).by_id p ≡ none)
        × ((get_snapshot st c kept).0 ≡ ok (some (p, snap)))
        × ((get_child_version st c p one).0 ≡ ok (GetVersionResult.success env.new_v4 p bytes))
  get_snapshot-add_snapshot_of_parent env' snap ne =
      let small : IsSmall (w c) = rw e (omega arith) in
      let held = after-Holds k config env c p bytes s w holds small fresh no_versions e refl in
      let here = grown_here k config env c p bytes s w holds small fresh no_versions e refl in
      (
        ap (λ db. (db c).by_id p) held.same ∙ rw here (ground (arith, fresh.1)),
        get_snapshot-add_snapshot k env' c p snap _ _ held _ here ∙ ground (arith, ne),
        get_child_version-add_version k config env c p bytes s w holds small fresh no_versions e
            refl,
      )
