-- ===== src/Core/InMemory/Fulfils.antt =====
-- The storage in memory fulfils the contract of the storages.
use taskchampion_sync_server.Prelude.{
  inl, inr, Option-cases, ◌≡◌, refl, ap, ◌≢◌, fun_ext, true, false, Option, none, some, arith, not,
  ◌&&◌,
}
use native.Mathlib.Nat.{mod-eq_of_lt}
use taskchampion_sync_server.HashMap.{insert, uuid_eq, pair_eq}
use taskchampion_sync_server.Core.Types.{Uuid, Bytes, Client, Snapshot, Version}
use taskchampion_sync_server.Core.Txn.{ok}
use taskchampion_sync_server.Core.Storage.Contract.{
  Db, View-ext, set_view, count_version, CanCount, created, added, snapped, Contract,
}
use taskchampion_sync_server.Core.History.Calls.{World, views}
use taskchampion_sync_server.Core.Protocol.{Holds}
use taskchampion_sync_server.Core.InMemory.{
  Inner, InMemoryStorage, InnerTxn, txn, get_client, new_client, set_snapshot, get_snapshot_data,
  get_version_by_parent, get_version, add_version, commit, drop, in_memory,
  count_version as wrapping_count, new,
}

abbrev child_version : Inner → Uuid → Option Uuid → Option Version
child_version m c none = none
child_version m c (some id) = m.versions (c, id)

abbrev view : Inner → Db
view m c = record {
  client = m.clients c;
  snapshot_data = m.snapshots c;
  by_id = λ v. m.versions (c, v);
  by_parent = λ p. child_version m c (m.children (c, p));
}

-- Every child that is listed is a version.
pub record IsValid (m : Inner) : Type 0 where
  pub children_exist : (c p id : Uuid) → m.children (c, p) ≡ some id → m.versions (c, id) ≢ none

abbrev advanced : Client → Uuid → Client
advanced client v = record { latest_version_id = v; snapshot = count_version client.snapshot }

-- the maps after a successful `add_version`
abbrev grown : Inner → Uuid → Client → Version → Inner
grown m c client ver = record m {
  clients = insert m.clients c (advanced client ver.version_id);
  children = insert {K = Uuid × Uuid} m.children (c, ver.parent_version_id) ver.version_id;
  versions = insert {K = Uuid × Uuid} m.versions (c, ver.version_id) ver;
}

module _ (m : Inner) (c : Uuid) (client : Client) (ver : Version) (valid : IsValid m)
    (fresh : (d : Uuid) → m.versions (d, ver.version_id) ≡ none) where
  grown-IsValid : IsValid (grown m c client ver)
  grown-IsValid = record {
    children_exist = λ d p id e. ground (arith, valid.children_exist d p id);
  }

  by_parent-grown :
      (d p : Uuid)
      → (view (grown m c client ver) d).by_parent p
        ≡ (set_view (view m) c (added ver client (view m c)) d).by_parent p
  by_parent-grown d p = elim (Option-cases (m.children (d, p))) [
    | inl e ↦ ground (arith, fresh d)
    | inr (id, e) ↦ ground (arith, fresh d, valid.children_exist d p id e)
  ]

  view-grown : view (grown m c client ver) ≡ set_view (view m) c (added ver client (view m c))
  view-grown =
      fun_ext
        λ d. View-ext _ _ (ground arith) (ground arith) (λ v. ground arith) (by_parent-grown d)

abbrev IsReady : InMemoryStorage → Type 0
IsReady s = IsValid s.inner × (s.poisoned ≡ false)

abbrev IsClean : InnerTxn → Type 0
IsClean t = IsValid t.guard × ((t.written && not t.committed) ≡ false)

view-created :
    (m : Inner) (c latest : Uuid)
    → view (record m {
      clients = insert m.clients c (record { latest_version_id = latest; snapshot = none });
    })
      ≡ set_view (view m) c (created latest (view m c))
view-created m c latest =
    fun_ext λ d. View-ext _ _ (ground arith) (ground arith) (λ v. ground arith) (λ p. ground arith)

view-snapped :
    (m : Inner) (c : Uuid) (client : Client) (snap : Snapshot) (bytes : Bytes)
    → view (record m {
      clients = insert m.clients c (record client { snapshot = some snap });
      snapshots = insert m.snapshots c bytes;
    })
      ≡ set_view (view m) c (snapped snap bytes client (view m c))
view-snapped m c client snap bytes =
    fun_ext λ d. View-ext _ _ (ground arith) (ground arith) (λ v. ground arith) (λ p. ground arith)

abbrev begin : InMemoryStorage → Uuid → InnerTxn
begin s c = record { client_id = c; guard = s.inner; written = false; committed = false }

-- A valid map of children lists no child where no version has the parent.
childless-children :
    (m : Inner) (c p : Uuid)
    → IsValid m
    → child_version m c (m.children (c, p)) ≡ none
    → m.children (c, p) ≡ none
childless-children m c p valid childless = elim (Option-cases (m.children (c, p))) [
  | inl e ↦ e
  | inr (id, e) ↦ absurd (valid.children_exist c p id e (rw e at childless))
]

-- The counter does not wrap around while it fits.
count-exact : (s : Option Snapshot) → CanCount s → wrapping_count s ≡ count_version s
count-exact none fits = refl
count-exact (some snap) fits = ground (arith, mod-eq_of_lt fits)

module _ (v p : Uuid) (h : Bytes) (t : InnerTxn) (client : Client)
    (has : t.guard.clients t.client_id ≡ some client) (fits : CanCount client.snapshot)
    (fresh : t.guard.versions (t.client_id, v) ≡ none)
    (childless : t.guard.children (t.client_id, p) ≡ none) where
  abbrev after_add : InnerTxn
  after_add = record t {
    guard =
        grown t.guard t.client_id client
          (record { version_id = v; parent_version_id = p; history_segment = h });
    written = true;
  }

  add_version_succeeds : add_version v p h t ≡ (ok tt, after_add)
  unfolding add_version
  add_version_succeeds = rw (has, add_version, childless, fresh, count-exact client.snapshot fits)

-- The storage in memory keeps what it is asked to keep, with timestamps as they are given.
pub in_memory-Contract : Contract in_memory
unfolding txn get_client new_client set_snapshot get_snapshot_data get_version_by_parent get_version
    commit drop
in_memory-Contract = record {
  stored = λ s. view s.inner;
  Ready = IsReady;
  db = λ t. view t.guard;
  owner = λ t. t.client_id;
  Open = λ t. IsValid t.guard;
  Clean = IsClean;
  kept = λ time. time;
  begin = begin;
  txn_lem = λ s c ready. ground arith;
  begin-Open = λ s c ready. ready.0;
  begin-Clean = λ s c ready. (ready.0, refl);
  db-begin = λ s c ready. refl;
  owner-begin = λ s c ready. refl;
  get_client_lem = λ t valid. refl;
  get_version_lem = λ v t valid. refl;
  get_version_by_parent_lem = λ p t valid. ground arith;
  get_snapshot_data_lem = λ t client snap bytes valid has taken kept. ground arith;
  new_client_lem = λ latest t valid absent. rw absent (
    refl,
    record { children_exist = valid.children_exist },
    view-created t.guard t.client_id latest,
  );
  add_version_lem = λ v p h t client valid has fits fresh childless.
      rw
        (add_version_succeeds v p h t client has fits (fresh t.client_id)
          (childless-children t.guard t.client_id p valid childless))
        (refl, grown-IsValid _ _ client _ valid fresh, view-grown _ _ client _ valid fresh);
  set_snapshot_lem = λ snap bytes t client small valid has.
      rw (has, set_snapshot)
        (
          refl,
          record { children_exist = valid.children_exist },
          view-snapped t.guard t.client_id client snap bytes,
        );
  commit_lem = λ t valid. (refl, (valid, ground arith), refl);
  drop_lem = λ t clean. ((clean.0, clean.1), clean.1, refl);
}

-- A new storage in memory is ready and has no clients.
pub new-Holds : Holds in_memory-Contract new (λ c. none)
unfolding in_memory-Contract
new-Holds = record {
  ready = (record { children_exist = λ c p id e. cc }, refl);
  same = refl;
  valid = λ c. tt;
}

-- What `Holds` says of the storage in memory itself.
pub Holds-known :
    (s : InMemoryStorage) (w : World)
    → Holds in_memory-Contract s w
    → (s.poisoned ≡ false) × ((c : Uuid) → s.inner.clients c ≡ (views w c).client)
unfolding in_memory-Contract
Holds-known s w holds = (holds.ready.1, λ c. ap (λ db. (db c).client) holds.same)
