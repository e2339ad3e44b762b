-- ===== src/Core/Storage/Contract.antt =====
-- What core/src/storage.rs asks of a storage, as laws over what can be read from it. The contract
-- is the interface between the server, which relies on it, and each storage, which fulfils it.
use taskchampion_sync_server.Prelude.{
  ◌+◌, ◌^◌, ◌<◌, ◌==◌, ◌≡◌, false, Option, none, some, if◌then◌else◌,
}
use taskchampion_sync_server.HashMap.{HashMap, insert, uuid_eq}
use taskchampion_sync_server.Core.Types.{Uuid, Bytes, DateTime, Client, Snapshot, Version}
use taskchampion_sync_server.Core.Txn.{ok}
use taskchampion_sync_server.Core.Storage.{Storage}

-- What can be read of one client.
pub record View : Type 0 where
  pub client : Option Client
  pub snapshot_data : Option Bytes
  pub by_id : HashMap Uuid Version
  pub by_parent : HashMap Uuid Version

-- All clients of a storage.
abbrev pub Db : Type 0
Db = Uuid → View

abbrev pub set_view : Db → Uuid → View → Db
set_view db c w d = if d == c then w else db d

abbrev pub count_version : Option Snapshot → Option Snapshot
count_version none = none
count_version (some snap) = some (record snap { versions_since = snap.versions_since + 1 })

-- The counter of the snapshot fits a `u32` after one more version.
abbrev pub CanCount : Option Snapshot → Type 0
CanCount none = Unit
CanCount (some snap) = snap.versions_since + 1 < 2 ^ 32

abbrev pub created : Uuid → View → View
created latest w = record w {
  client = some (record { latest_version_id = latest; snapshot = none });
}

abbrev pub added : Version → Client → View → View
added version client w = record w {
  client =
      some (record {
        latest_version_id = version.version_id;
        snapshot = count_version client.snapshot;
      });
  by_id = insert w.by_id version.version_id version;
  by_parent = insert w.by_parent version.parent_version_id version;
}

abbrev pub snapped : Snapshot → Bytes → Client → View → View
snapped snap bytes client w = record w {
  client = some (record client { snapshot = some snap });
  snapshot_data = some bytes;
}

-- Two views are equal if they agree wherever they are read.
pub View-ext :
    (a b : View)
    → a.client ≡ b.client
    → a.snapshot_data ≡ b.snapshot_data
    → ((v : Uuid) → a.by_id v ≡ b.by_id v)
    → ((p : Uuid) → a.by_parent p ≡ b.by_parent p)
    → a ≡ b
View-ext a b clients bytes ids parents = λ i. record {
  client = clients i;
  snapshot_data = bytes i;
  by_id = λ v. ids v i;
  by_parent = λ p. parents p i;
}

module _ {S T : Type 0} (st : Storage S T) where
  pub record Contract : Type 1 where
    -- what is committed
    pub stored : S → Db
    -- transactions can be begun
    pub Ready : S → Type 0
    -- what an open transaction sees, and its client
    pub db : T → Db
    pub owner : T → Uuid
    -- no call on the transaction has failed
    pub Open : T → Type 0
    -- nothing is written that is not committed
    pub Clean : T → Type 0
    -- the precision that a timestamp is stored with
    pub kept : DateTime → DateTime
    pub begin : S → Uuid → T
    pub txn_lem : (s : S) (c : Uuid) → Ready s → st.txn s c ≡ ok (begin s c)
    pub begin-Open : (s : S) (c : Uuid) → Ready s → Open (begin s c)
    pub begin-Clean : (s : S) (c : Uuid) → Ready s → Clean (begin s c)
    pub db-begin : (s : S) (c : Uuid) → Ready s → db (begin s c) ≡ stored s
    pub owner-begin : (s : S) (c : Uuid) → Ready s → owner (begin s c) ≡ c
    pub get_client_lem : (t : T) → Open t → st.get_client t ≡ (ok (db t (owner t)).client, t)
    pub get_version_lem :
        (v : Uuid) (t : T) → Open t → st.get_version v t ≡ (ok ((db t (owner t)).by_id v), t)
    pub get_version_by_parent_lem :
        (p : Uuid) (t : T)
        → Open t
        → st.get_version_by_parent p t ≡ (ok ((db t (owner t)).by_parent p), t)
    pub get_snapshot_data_lem :
        (t : T) (client : Client) (snap : Snapshot) (bytes : Bytes)
        → Open t
        → (db t (owner t)).client ≡ some client
        → client.snapshot ≡ some snap
        → (db t (owner t)).snapshot_data ≡ some bytes
        → st.get_snapshot_data snap.version_id t ≡ (ok (some bytes), t)
    pub new_client_lem :
        (latest : Uuid) (t : T)
        → Open t
        → (db t (owner t)).client ≡ none
        → ((st.new_client latest t).0 ≡ ok tt)
          × Open (st.new_client latest t).1
          × (db (st.new_client latest t).1
              ≡ set_view (db t) (owner t) (created latest (db t (owner t))))
    pub add_version_lem :
        (v p : Uuid) (h : Bytes) (t : T) (client : Client)
        → Open t
        → (db t (owner t)).client ≡ some client
        → CanCount client.snapshot
        → ((d : Uuid) → (db t d).by_id v ≡ none)
        → (db t (owner t)).by_parent p ≡ none
        → ((st.add_version v p h t).0 ≡ ok tt)
          × Open (st.add_version v p h t).1
          × (db (st.add_version v p h t).1
              ≡ set_view (db t) (owner t) (
                  added
                    (record { version_id = v; parent_version_id = p; history_segment = h })
                    client
                    (db t (owner t))))
    pub set_snapshot_lem :
        (snap : Snapshot) (bytes : Bytes) (t : T) (client : Client)
        → snap.versions_since < 2 ^ 32
        → Open t
        → (db t (owner t)).client ≡ some client
        → ((st.set_snapshot snap bytes t).0 ≡ ok tt)
          × Open (st.set_snapshot snap bytes t).1
          × (db (st.set_snapshot snap bytes t).1
              ≡ set_view (db t) (owner t) (
                  snapped
                    (record snap { timestamp = kept snap.timestamp })
                    bytes
                    client
                    (db t (owner t))))
    pub commit_lem :
        (t : T)
        → Open t
        → ((st.commit t).0 ≡ ok tt) × Clean (st.commit t).1 × (db (st.commit t).1 ≡ db t)
    -- the drop of a clean transaction keeps what the transaction saw, and does not panic
    pub drop_lem :
        (t : T)
        → Clean t
        → Ready (st.drop t).0 × ((st.drop t).1 ≡ false) × (stored (st.drop t).0 ≡ db t)
