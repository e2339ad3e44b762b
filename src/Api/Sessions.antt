-- ===== src/Api/Sessions.antt =====
-- Any order of the transactions that the handlers make, for any clients. A handler makes one
-- transaction for each call of the server and one to create a client, and a storage runs one
-- transaction at a time. Handlers at work at once come to create a client that another has just
-- created; such an order is among those here only where `again` is true.
pub mod InMemory
use taskchampion_sync_server.Prelude.{Bool, true, ◌≡◌, some, none, ap, subst, sym}
use taskchampion_sync_server.Core.Types.{Uuid, Bytes}
use taskchampion_sync_server.Core.Txn.{err}
use taskchampion_sync_server.Core.Storage.Contract.{Contract}
use taskchampion_sync_server.Core.Server.{
  Env, add_version, add_snapshot, get_child_version, get_snapshot,
}
use taskchampion_sync_server.Core.Server.AddVersion.{IsSmall}
use taskchampion_sync_server.Core.Server.AddSnapshot.{add_snapshot-refines}
use taskchampion_sync_server.Core.Server.GetChildVersion.{get_child_version-refines}
use taskchampion_sync_server.Core.Server.GetSnapshot.{get_snapshot-refines}
use taskchampion_sync_server.Core.History.Calls.{
  History, World, IsFresh, views, set_history, add_version_to, add_snapshot_to,
}
use taskchampion_sync_server.Core.History.Invariant.{add_snapshot_to-IsWorld, set_history-IsWorld}
use taskchampion_sync_server.Core.Protocol.{Holds}
use taskchampion_sync_server.Core.Protocol.Replies.{add_version-Holds}
use taskchampion_sync_server.Api.Http.{TextOps, HttpError}
use taskchampion_sync_server.Api.Handlers.{ServerState, create_client}
use taskchampion_sync_server.Api.AddVersion.{new_history, create_client-Ends}

-- Creating a client that exists fails and changes nothing.
abbrev pub CreatesOnce :
    {S T : Type 0} (ops : TextOps) (state : ServerState S T) (k : Contract state.storage)
    → (Uuid → HttpError)
    → Type 0
CreatesOnce {S} {T} ops state k taken =
    (s : S) (w : World) (c : Uuid) (h : History)
    → Holds k s w
    → w c ≡ some h
    → create_client ops state c s ≡ (err (taken c), s)

-- From an empty storage, the states that transactions lead to, and the lines of versions that the
-- protocol says they have then. A client that exists may be created where `again` is true, and the
-- lines of versions stay as they were.
pub data Reach {S T : Type 0} (ops : TextOps) (state : ServerState S T) (k : Contract state.storage)
    (again : Bool) : S → World → Type 0 where
  start :
      (s : S) → k.Ready s → k.stored s ≡ views (λ c. none) → Reach ops state k again s (λ c. none)
  client :
      {s : S} {w : World} (c : Uuid)
      → Reach ops state k again s w
      → w c ≡ none
      → Reach ops state k again (create_client ops state c s).1 (set_history w c new_history)
  client_again :
      {s : S} {w : World} {h : History} (c : Uuid)
      → Reach ops state k again s w
      → w c ≡ some h
      → again ≡ true
      → Reach ops state k again (create_client ops state c s).1 w
  child_version :
      {s : S} {w : World} (c p : Uuid)
      → Reach ops state k again s w
      → Reach ops state k again (get_child_version state.storage c p s).1 w
  snapshot :
      {s : S} {w : World} (c : Uuid)
      → Reach ops state k again s w
      → Reach ops state k again (get_snapshot state.storage c s).1 w
  new_version :
      {s : S} {w : World} (env : Env) (c p : Uuid) (bytes : Bytes)
      → Reach ops state k again s w
      → IsSmall (w c)
      → IsFresh env.new_v4 p w
      → Reach ops state k again
          (add_version state.storage state.config env c p bytes s).1
          (add_version_to state.config env c p bytes w (w c)).1
  new_snapshot :
      {s : S} {w : World} (env : Env) (c x : Uuid) (bytes : Bytes)
      → Reach ops state k again s w
      → Reach ops state k again
          (add_snapshot state.storage env c x bytes s).1
          (add_snapshot_to k.kept env c x bytes w (w c)).1

-- The storage holds the lines of versions that the protocol says.
pub Reach-Holds :
    {S T : Type 0} (ops : TextOps) (state : ServerState S T) (k : Contract state.storage)
    {again : Bool} {taken : Uuid → HttpError} {s : S} {w : World}
    → (again ≡ true → CreatesOnce ops state k taken)
    → Reach ops state k again s w
    → Holds k s w
Reach-Holds ops state k once (start s ready same) = record {
  ready = ready;
  same = same;
  valid = λ c. tt;
}
Reach-Holds ops state k once (client {s} {w} c r absent) =
    let holds = Reach-Holds ops state k once r in
    let ends = create_client-Ends ops state k s w c holds.ready holds.same absent in
    record {
      ready = ends.1;
      same = ends.2;
      valid = set_history-IsWorld w c new_history holds.valid (tt, tt);
    }
Reach-Holds ops state k once (client_again {s} {w} {h} c r there e) =
    let holds = Reach-Holds ops state k once r in
    let same = ap (λ x. x.1) (once e s w c h holds there) in
    subst (λ x. Holds k x w) (sym same) holds
Reach-Holds ops state k once (child_version {s} {w} c p r) =
    let holds = Reach-Holds ops state k once r in
    let ends = get_child_version-refines k s w c p holds.ready holds.same holds.valid in
    record { ready = ends.1; same = ends.2; valid = holds.valid }
Reach-Holds ops state k once (snapshot {s} {w} c r) =
    let holds = Reach-Holds ops state k once r in
    let ends = get_snapshot-refines k s w c holds.ready holds.same in
    record { ready = ends.1; same = ends.2; valid = holds.valid }
Reach-Holds ops state k once (new_version {s} {w} env c p bytes r small fresh) =
    add_version-Holds k state.config env c p bytes s w (Reach-Holds ops state k once r) small fresh
Reach-Holds ops state k once (new_snapshot {s} {w} env c x bytes r) =
    let holds = Reach-Holds ops state k once r in
    let ends = add_snapshot-refines k env s w c x bytes holds.ready holds.same holds.valid in
    record {
      ready = ends.1;
      same = ends.2;
      valid = add_snapshot_to-IsWorld k.kept env c x bytes w holds.valid;
    }
