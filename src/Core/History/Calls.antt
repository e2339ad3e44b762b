-- ===== src/Core/History/Calls.antt =====
-- The calls of the server, described on the lines of versions of all clients.
use taskchampion_sync_server.Prelude.{
  ℕ, ◌+◌, ◌≤◌, ◌==◌, ◌&&◌, not, ◌≡◌, ◌≢◌, Bool, true, false, Option, none, some, List, [], ◌∷◌,
  arith, if◌then◌else◌, length, take, contains, fun_ext,
}
use taskchampion_sync_server.Core.Types.{
  Uuid, Bytes, DateTime, Client, Snapshot, Version, nil_version_id, ServerError, GetVersionResult,
  AddVersionResult, SnapshotUrgency, ServerConfig,
}
use taskchampion_sync_server.Core.Txn.{Outcome, ok, err}
use taskchampion_sync_server.Core.Storage.Contract.{View, Db, set_view}
use taskchampion_sync_server.Core.Server.{Env, urgency, is_same, snapshot_version}
use taskchampion_sync_server.Core.History.Chain.{latest, find_id, find_parent, IsChain, IsNew}

pub record History : Type 0 where
  pub versions : List Version
  pub snapshot : Option (Snapshot × Bytes)

abbrev pub World : Type 0
World = Uuid → Option History

abbrev pub set_history : World → Uuid → History → World
set_history w c h d = if d == c then some h else w d

abbrev pub meta : Option (Snapshot × Bytes) → Option Snapshot
meta none = none
meta (some (snap, bytes)) = some snap

abbrev pub bytes_of : Option (Snapshot × Bytes) → Option Bytes
bytes_of none = none
bytes_of (some (snap, bytes)) = some bytes

abbrev pub client_of : History → Client
client_of h = record { latest_version_id = latest h.versions; snapshot = meta h.snapshot }

-- What a storage shows that holds these histories.
abbrev pub view_of : Option History → View
view_of none = record {
  client = none;
  snapshot_data = none;
  by_id = λ x. none;
  by_parent = λ x. none;
}
view_of (some h) = record {
  client = some (client_of h);
  snapshot_data = bytes_of h.snapshot;
  by_id = find_id h.versions;
  by_parent = find_parent h.versions;
}

abbrev pub views : World → Db
views w c = view_of (w c)

-- The counter of a snapshot is at most the number of versions.
abbrev pub IsCounted : Option (Snapshot × Bytes) → ℕ → Type 0
IsCounted none n = Unit
IsCounted (some (snap, bytes)) n = snap.versions_since ≤ n

abbrev pub IsHistory : Option History → Type 0
IsHistory none = Unit
IsHistory (some h) = IsChain h.versions × IsCounted h.snapshot (length h.versions)

-- Every client's versions are one line.
abbrev pub IsWorld : World → Type 0
IsWorld w = (c : Uuid) → IsHistory (w c)

abbrev pub IsNewTo : Uuid → Option History → Type 0
IsNewTo x none = Unit
IsNewTo x (some h) = IsNew x h.versions

-- What the protocol relies on for a random identifier: it is not nil, not the parent at hand, and
-- neither a version nor the parent of a version of any client.
abbrev pub IsFresh : Uuid → Uuid → World → Type 0
IsFresh x p w = (x ≢ nil_version_id) × (x ≢ p) × ((c : Uuid) → IsNewTo x (w c))

-- A version may be added to the end of the line, or to an empty line under any parent.
abbrev pub accepts : List Version → Uuid → Bool
accepts [] p = true
accepts (v ∷ vs) p = p == v.version_id

abbrev pub counted : Option (Snapshot × Bytes) → Option (Snapshot × Bytes)
counted none = none
counted (some (snap, bytes)) =
    some (record snap { versions_since = snap.versions_since + 1 }, bytes)

abbrev pub extend : Version → History → History
extend v h = record { versions = v ∷ h.versions; snapshot = counted h.snapshot }

abbrev pub add_version_to :
    ServerConfig
    → Env
    → Uuid
    → Uuid
    → Bytes
    → World
    → Option History
    → Outcome ServerError (AddVersionResult × SnapshotUrgency) × World
add_version_to config env c p bytes w none = (err ServerError.no_such_client, w)
add_version_to config env c p bytes w (some h) =
    if accepts h.versions p
    then (
      ok (AddVersionResult.ok env.new_v4, urgency config env (meta h.snapshot)),
      set_history w c (
          extend
            (record { version_id = env.new_v4; parent_version_id = p; history_segment = bytes }) h),
    )
    else (
      ok (AddVersionResult.expected_parent_version (latest h.versions), SnapshotUrgency.none),
      w,
    )

abbrev pub answer : Option Version → Bool → GetVersionResult
answer (some v) would_accept =
    GetVersionResult.success v.version_id v.parent_version_id v.history_segment
answer none true = GetVersionResult.not_found
answer none false = GetVersionResult.gone

abbrev pub child_of : Uuid → Option History → Outcome ServerError GetVersionResult
child_of p none = err ServerError.no_such_client
child_of p (some h) = ok (answer (find_parent h.versions p) (accepts h.versions p))

-- The identifiers from `x` back along the line: `x`, its parent, and so on to the parent of the
-- oldest version.
abbrev pub trail : Uuid → List Version → List Uuid
trail x [] = x ∷ []
trail x (v ∷ vs) = x ∷ trail v.parent_version_id vs

-- Those before the last snapshot.
abbrev pub newer : Option Uuid → List Uuid → List Uuid
newer last [] = []
newer last (x ∷ xs) = if is_same x last then [] else x ∷ newer last xs

-- The snapshot is of one of the first five identifiers on the way back, and before the last
-- snapshot's. The last identifier on the way is the parent of the oldest version, which is wanted too,
-- although it is no version that the server has, unless it is nil.
abbrev pub is_wanted : Uuid → History → Bool
is_wanted x h =
    not (x == nil_version_id)
    && contains
        (newer (snapshot_version (meta h.snapshot)) (take 5 (trail (latest h.versions) h.versions)))
        x

abbrev pub take_snapshot : Snapshot → Bytes → History → History
take_snapshot snap bytes h = record h { snapshot = some (snap, bytes) }

abbrev pub add_snapshot_to :
    (DateTime → DateTime)
    → Env
    → Uuid
    → Uuid
    → Bytes
    → World
    → Option History
    → Outcome ServerError (Unit {0}) × World
add_snapshot_to kept env c x bytes w none = (err ServerError.no_such_client, w)
add_snapshot_to kept env c x bytes w (some h) = (
  ok tt,
  if is_wanted x h
      then set_history w c (
          take_snapshot (record { version_id = x; timestamp = kept env.now; versions_since = 0 })
            bytes h)
      else w,
)

abbrev pub snapshot_pair : Option (Snapshot × Bytes) → Option (Uuid × Bytes)
snapshot_pair none = none
snapshot_pair (some (snap, bytes)) = some (snap.version_id, bytes)

abbrev pub snapshot_of : Option History → Outcome ServerError (Option (Uuid × Bytes))
snapshot_of none = err ServerError.no_such_client
snapshot_of (some h) = ok (snapshot_pair h.snapshot)

-- To change one client's view is to change its history.
pub set_view-views :
    (w : World) (c : Uuid) (h : History) (new : View)
    → new ≡ view_of (some h)
    → set_view (views w) c new ≡ views (set_history w c h)
set_view-views w c h new e = fun_ext λ d. rw e (ground arith)
