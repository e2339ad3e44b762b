-- ===== src/Core/Server/Tested.antt =====
-- The tests of core/src/server.rs, as programs over any storage: they pass where they end with `ok`, and an
-- assertion that does not hold panics.
pub mod Adding
pub mod Snapshots
use taskchampion_sync_server.Prelude.{
  ℕ, zero, suc, ◌%◌, ◌==◌, ◌&&◌, not, Bool, true, false, Option, none, some, List, [], ◌∷◌,
  if◌then◌else◌,
}
use taskchampion_sync_server.Core.Types.{
  Uuid, Bytes, DateTime, nil_version_id, Client, Snapshot, Version, ServerError, ServerConfig,
  GetVersionResult, AddVersionResult, SnapshotUrgency,
}
use taskchampion_sync_server.Core.Txn.{Txn, pure, crash, other?, ◌>>=◌, ◌>>◌}
use taskchampion_sync_server.Core.Storage.{Storage, with_txn}
use taskchampion_sync_server.Core.Server.{Env, get_child_version, add_version, is_same}

-- equality, as `assert_eq!` tests it
abbrev pub eq_bytes : Bytes → Bytes → Bool
eq_bytes [] [] = true
eq_bytes (x ∷ xs) (y ∷ ys) = x == y && eq_bytes xs ys
eq_bytes xs ys = false

abbrev pub eq_urgency : SnapshotUrgency → SnapshotUrgency → Bool
eq_urgency SnapshotUrgency.none SnapshotUrgency.none = true
eq_urgency SnapshotUrgency.low SnapshotUrgency.low = true
eq_urgency SnapshotUrgency.high SnapshotUrgency.high = true
eq_urgency a b = false

abbrev pub eq_child : GetVersionResult → GetVersionResult → Bool
eq_child GetVersionResult.not_found GetVersionResult.not_found = true
eq_child GetVersionResult.gone GetVersionResult.gone = true
eq_child (GetVersionResult.success v p h) (GetVersionResult.success v' p' h') =
    v == v' && p == p' && eq_bytes h h'
eq_child a b = false

abbrev pub eq_added : AddVersionResult → AddVersionResult → Bool
eq_added (AddVersionResult.ok v) (AddVersionResult.ok v') = v == v'
eq_added (AddVersionResult.expected_parent_version v)
      (AddVersionResult.expected_parent_version v') =
    v == v'
eq_added a b = false

module _ {T : Type 0} where
  abbrev pub assert : Bool → Txn T ServerError (Unit {0})
  assert true = pure tt
  assert false = crash

  abbrev pub unwrap : {A : Type 0} → Option A → Txn T ServerError A
  unwrap none = crash
  unwrap (some a) = pure a

  abbrev pub is_none : {A : Type 0} → Option A → Txn T ServerError (Unit {0})
  is_none none = pure tt
  is_none (some a) = crash

  -- `versions[i]`
  abbrev pub index : List Uuid → ℕ → Txn T ServerError Uuid
  index [] i = crash
  index (v ∷ vs) zero = pure v
  index (v ∷ vs) (suc i) = index vs i

-- What the tests get from outside: the fresh identifiers in their order, and for each number the time so
-- many days ago.
pub record Fixture : Type 0 where
  pub client_id : Uuid
  pub fresh : ℕ → Uuid
  pub days_ago : ℕ → DateTime
  pub env : Uuid → Env

module _ {S T : Type 0} (st : Storage S T) (fix : Fixture) where
  abbrev pub setup : {RES : Type 0} → Txn T ServerError RES → Txn S ServerError RES
  setup init s = with_txn st s fix.client_id do res ← init; other? st.commit; pure res

  -- a block of assertions on a transaction
  abbrev pub verify : Txn T ServerError (Unit {0}) → Txn S ServerError (Unit {0})
  verify body s = with_txn st s fix.client_id body

  abbrev pub the_client : Txn T ServerError Client
  the_client = do found ← other? st.get_client; unwrap found

  -- the tests of `get_child_version`
  abbrev pub get_child_version_not_found_initial_nil : Txn S ServerError (Unit {0})
  get_child_version_not_found_initial_nil = do
    setup (other? (st.new_client nil_version_id))
    result ← get_child_version st fix.client_id nil_version_id
    assert (eq_child result GetVersionResult.not_found)

  abbrev pub get_child_version_not_found_initial_continuing : Txn S ServerError (Unit {0})
  get_child_version_not_found_initial_continuing = do
    setup (other? (st.new_client nil_version_id))
    result ← get_child_version st fix.client_id (fix.fresh 0)
    assert (eq_child result GetVersionResult.not_found)

  -- a client whose latest version is the first one
  abbrev pub one_version : Txn T ServerError (Unit {0})
  one_version = do
    other? (st.new_client (fix.fresh 0))
    other? (st.add_version (fix.fresh 0) nil_version_id [])

  abbrev pub get_child_version_not_found_up_to_date : Txn S ServerError (Unit {0})
  get_child_version_not_found_up_to_date = do
    setup one_version
    result ← get_child_version st fix.client_id (fix.fresh 0)
    assert (eq_child result GetVersionResult.not_found)

  abbrev pub get_child_version_gone_not_latest : Txn S ServerError (Unit {0})
  get_child_version_gone_not_latest = do
    setup one_version
    result ← get_child_version st fix.client_id (fix.fresh 1)
    assert (eq_child result GetVersionResult.gone)

  abbrev pub get_child_version_found : Txn S ServerError (Unit {0})
  get_child_version_found = do
    setup (do
      other? (st.new_client (fix.fresh 0))
      other? (st.add_version (fix.fresh 0) (fix.fresh 1) (97 ∷ 98 ∷ 99 ∷ 100 ∷ [])))
    result ← get_child_version st fix.client_id (fix.fresh 1)
    assert (
        eq_child result
          (GetVersionResult.success (fix.fresh 0) (fix.fresh 1) (97 ∷ 98 ∷ 99 ∷ 100 ∷ [])))
