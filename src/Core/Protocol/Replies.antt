-- ===== src/Core/Protocol/Replies.antt =====
-- What a call returns after another call.
use taskchampion_sync_server.Prelude.{
  ◌≡◌, ◌≢◌, sym, ap, eq_of_test, ◌∙◌, true, false, Bool-cases, Option, none, some, ◌∷◌, arith, ◌==◌,
  if◌then◌else◌, inl, inr,
}
use taskchampion_sync_server.Core.Types.{
  Uuid, Bytes, Version, Snapshot, ServerConfig, AddVersionResult, SnapshotUrgency, GetVersionResult,
  nil_version_id,
}
use taskchampion_sync_server.Core.Txn.{ok}
use taskchampion_sync_server.Core.Storage.{Storage}
use taskchampion_sync_server.Core.Storage.Contract.{Contract}
use taskchampion_sync_server.Core.Server.{
  Env, add_version, get_child_version, add_snapshot, get_snapshot, is_same, snapshot_version,
}
use taskchampion_sync_server.Core.Server.Runs.{Ends}
use taskchampion_sync_server.Core.Server.AddVersion.{
  IsSmall, childless_of_accepts, add_version-refines,
}
use taskchampion_sync_server.Core.Server.GetChildVersion.{get_child_version-refines}
use taskchampion_sync_server.Core.Server.AddSnapshot.{add_snapshot-refines}
use taskchampion_sync_server.Core.Server.GetSnapshot.{get_snapshot-refines}
use taskchampion_sync_server.Core.History.Chain.{find_parent, IsChain}
use taskchampion_sync_server.Core.History.Calls.{
  History, World, IsFresh, accepts, is_wanted, extend, meta, set_history, add_version_to,
  add_snapshot_to, views,
}
use taskchampion_sync_server.Core.History.Invariant.{add_version_to-IsWorld}
use taskchampion_sync_server.Core.Protocol.{Holds}

-- A version that has a child keeps it when the line grows.
pub kept_child :
    (h : History) (ver : Version) (q : Uuid) (old : Version)
    → IsChain h.versions
    → accepts h.versions ver.parent_version_id ≡ true
    → find_parent h.versions q ≡ some old
    → find_parent (ver ∷ h.versions) q ≡ some old
kept_child h ver q old chain accepted found = elim (Bool-cases (q == ver.parent_version_id)) [
  | inl same ↦ absurd (
      cc (
        found,
        childless_of_accepts h.versions ver.parent_version_id chain accepted,
        ap (find_parent h.versions) (eq_of_test q ver.parent_version_id same),
      ))
  | inr other ↦ rw other found
]

-- The newest version is wanted, unless the last snapshot is of it.
newest_wanted :
    (ver : Version) (h : History)
    → ver.version_id ≢ nil_version_id
    → is_same ver.version_id (snapshot_version (meta h.snapshot)) ≡ false
    → is_wanted ver.version_id (extend ver h) ≡ true
newest_wanted ver h ne other = go h.snapshot other
  where
    go :
        (snapshot : Option (Snapshot × Bytes))
        → is_same ver.version_id (snapshot_version (meta snapshot)) ≡ false
        → is_wanted ver.version_id
            (extend ver (record { versions = h.versions; snapshot = snapshot }))
          ≡ true
    go none other = ground arith
    go (some (snap, bytes)) other = ground arith

module _ {S T : Type 0} {st : Storage S T} (k : Contract st) where
  module _ (env : Env) (c x : Uuid) (bytes : Bytes) (s : S) (w : World) (holds : Holds k s w)
      (h : History) (e : w c ≡ some h) where
    abbrev stored_at : S
    stored_at = (add_snapshot st env c x bytes s).1

    ends :
        Ends k
          (add_snapshot st env c x bytes s)
          (add_snapshot_to k.kept env c x bytes w (w c)).0
          (views (add_snapshot_to k.kept env c x bytes w (w c)).1)
    ends = add_snapshot-refines k env s w c x bytes holds.ready holds.same holds.valid

    -- After `add_snapshot` for a client, `get_snapshot` returns the new snapshot if its identifier is
    -- not nil and is among the first five on the way back along the client's line, before the last
    -- snapshot's, and else what it returned before. The way goes from the newest version to the parent
    -- of the oldest one, which is on it although it is no version of the client.
    pub get_snapshot-add_snapshot :
        (get_snapshot st c (add_snapshot st env c x bytes s).1).0
        ≡ (if is_wanted x h then ok (some (x, bytes)) else (get_snapshot st c s).0)
    get_snapshot-add_snapshot = elim (Bool-cases (is_wanted x h)) [
      | inl wanted ↦
          (get_snapshot-refines k stored_at (add_snapshot_to k.kept env c x bytes w (w c)).1 c
            ends.1 ends.2).0
          ∙ rw (e, wanted) (ground arith)
      | inr unwanted ↦
          (get_snapshot-refines k stored_at (add_snapshot_to k.kept env c x bytes w (w c)).1 c
            ends.1 ends.2).0
          ∙ rw (e, unwanted) (sym ((get_snapshot-refines k s w c holds.ready holds.same).0))
    ]

  module _ (config : ServerConfig) (env : Env) (c p : Uuid) (bytes : Bytes) (s : S) (w : World)
      (holds : Holds k s w) (small : IsSmall (w c)) (fresh : IsFresh env.new_v4 p w) where
    abbrev pub after : S
    after = (add_version st config env c p bytes s).1

    -- The storage goes on to hold lines of versions.
    pub add_version-Holds : Holds k after (add_version_to config env c p bytes w (w c)).1
    add_version-Holds =
        let ends =
          add_version-refines k config env s w c p bytes holds.ready holds.same holds.valid small
            fresh in
        record {
          ready = ends.1;
          same = ends.2;
          valid = add_version_to-IsWorld config env c p bytes w holds.valid fresh;
        }

    module _ (h : History) (e : w c ≡ some h) (accepted : accepts h.versions p ≡ true) where
      abbrev pub version : Version
      version = record { version_id = env.new_v4; parent_version_id = p; history_segment = bytes }

      abbrev pub grown : World
      grown = set_history w c (extend version h)

      pub after-Holds : Holds k after grown
      after-Holds = rw (e, accepted) at add_version-Holds

      pub grown_here : grown c ≡ some (extend version h)
      grown_here = ground arith

      -- After `add_version` has accepted a version, `get_child_version` of its parent returns it, with
      -- the bytes that were given.
      pub get_child_version-add_version :
          (get_child_version st c p after).0 ≡ ok (GetVersionResult.success env.new_v4 p bytes)
      get_child_version-add_version =
          (get_child_version-refines k after grown c p after-Holds.ready after-Holds.same
            after-Holds.valid).0
          ∙ rw grown_here (ground arith)

      -- After `add_version` has accepted a version, another one under the same parent is refused: the
      -- reply names the accepted version as the parent to take, and what is stored stays.
      pub add_version-add_version :
          (env' : Env) (bytes' : Bytes)
          → IsSmall (some (extend version h))
          → IsFresh env'.new_v4 p grown
          → ((add_version st config env' c p bytes' after).0
              ≡ ok (AddVersionResult.expected_parent_version env.new_v4, SnapshotUrgency.none))
            × (k.stored (add_version st config env' c p bytes' after).1 ≡ k.stored after)
      add_version-add_version env' bytes' small' fresh' =
          let ends =
            add_version-refines k config env' after grown c p bytes' after-Holds.ready
              after-Holds.same after-Holds.valid (rw grown_here small') fresh' in
          let refused : accepts (version ∷ h.versions) p ≡ false = ground (arith, fresh.1) in
          (ends.0 ∙ rw (grown_here, refused), ends.2 ∙ rw (grown_here, refused, after-Holds.same))

      -- A reply of `get_child_version` that returned a version stays the same when `add_version` has
      -- accepted another version.
      pub get_child_version-kept :
          (q : Uuid) (old : Version)
          → find_parent h.versions q ≡ some old
          → (get_child_version st c q after).0 ≡ (get_child_version st c q s).0
      get_child_version-kept q old found =
          (get_child_version-refines k after grown c q after-Holds.ready after-Holds.same
            after-Holds.valid).0
          ∙ rw (grown_here, kept_child h version q old (rw e at (holds.valid c)).0 accepted found)
              (sym (
                (get_child_version-refines k s w c q holds.ready holds.same holds.valid).0
                ∙ rw (e, found)))

      -- After `add_version` has accepted a version that is not that of the last snapshot, a snapshot of
      -- it is kept: `get_snapshot` returns it.
      pub get_snapshot-add_snapshot_newest :
          (env' : Env) (snap : Bytes)
          → is_same env.new_v4 (snapshot_version (meta h.snapshot)) ≡ false
          → (get_snapshot st c (add_snapshot st env' c env.new_v4 snap after).1).0
            ≡ ok (some (env.new_v4, snap))
      get_snapshot-add_snapshot_newest env' snap other =
          get_snapshot-add_snapshot env' c env.new_v4 snap after grown after-Holds
            (extend version h) grown_here
          ∙ rw (newest_wanted version h fresh.0 other)
