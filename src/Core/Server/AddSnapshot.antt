-- ===== src/Core/Server/AddSnapshot.antt =====
-- `add_snapshot` of core/src/server.rs, and the snapshots that it keeps.
use taskchampion_sync_server.Prelude.{
  ℕ, zero, suc, ◌≡◌, ◌≢◌, refl, ◌∙◌, ap, Bool, true, false, none, some, arith, Option, List, [],
  ◌∷◌, ◌==◌, ◌&&◌, ◌||◌, not, Bool-cases, inl, inr, take, contains,
}
use taskchampion_sync_server.Core.Types.{Uuid, Bytes, Snapshot, Version, nil_version_id}
use taskchampion_sync_server.Core.Txn.{ok}
use taskchampion_sync_server.Core.Storage.{Storage}
use taskchampion_sync_server.Core.Storage.Contract.{Contract}
use taskchampion_sync_server.Core.Server.{
  Env, add_snapshot, add_snapshot_in, search, store_snapshot, existing_client, is_same,
  snapshot_version, new_snapshot,
}
use taskchampion_sync_server.Core.Server.Runs.{
  Ends, with_txn-Ends, with_txn-reads, existing_client_absent, existing_client_present,
  version_seen,
}
use taskchampion_sync_server.Core.History.Chain.{latest, find_id, Descends, IsChain-Descends}
use taskchampion_sync_server.Core.History.Calls.{
  History, World, IsWorld, IsHistory, meta, views, client_of, trail, newer, is_wanted,
  take_snapshot, add_snapshot_to, set_history, set_view-views,
}

-- What the loop looks for: the version among the identifiers, before the last snapshot.
abbrev is_found : Uuid → Option Uuid → List Uuid → Bool
is_found version_id last xs =
    not (version_id == nil_version_id) && contains (newer last xs) version_id

-- The test on which the loop breaks.
abbrev is_hit : Uuid → Uuid → Bool
is_hit version_id x = x == version_id && not (version_id == nil_version_id)

same_of_hit :
    (version_id x : Uuid) (last : Option Uuid)
    → is_hit version_id x ≡ true
    → is_same x last ≡ is_same version_id last
same_of_hit version_id x last hit = ap (λ (y : Uuid). is_same y last) (ground arith)

module _ (version_id : Uuid) (last : Option Uuid) (x : Uuid) (xs : List Uuid) where
  found_hit :
      is_same version_id last ≡ false
      → is_hit version_id x ≡ true
      → is_found version_id last (x ∷ xs) ≡ true
  found_hit other hit = ground (arith, same_of_hit version_id x last hit)

  found_last : is_same x last ≡ true → is_found version_id last (x ∷ xs) ≡ false
  found_last same = ground arith

  found_next :
      is_hit version_id x ≡ false
      → is_same x last ≡ false
      → is_found version_id last (x ∷ xs) ≡ is_found version_id last xs
  found_next miss new = ground arith

found_nothing : (version_id : Uuid) (last : Option Uuid) → is_found version_id last [] ≡ false
found_nothing version_id last = ground arith

-- the loop goes on at a version other than nil
not_end : (n x : ℕ) → x ≢ nil_version_id → (suc n == 0 || x == nil_version_id) ≡ false
not_end n x ne = ground arith

same_of_eq : (x y : Uuid) (last : Option Uuid) → (y == x) ≡ true → is_same y last ≡ is_same x last
same_of_eq x y last e = ap (λ (z : Uuid). is_same z last) (ground arith)

-- Among the identifiers newer than the last snapshot's is not its own.
contains-newer :
    (x : Uuid) (last : Option Uuid) (xs : List Uuid)
    → is_same x last ≡ true
    → contains (newer last xs) x ≡ false
contains-newer x last [] old = refl
contains-newer x last (y ∷ ys) old =
    ground (arith, contains-newer x last ys old, same_of_eq x y last)

-- So a snapshot of that version is not looked for.
same_unwanted :
    (x : Uuid) (last : Option Uuid) (xs : List Uuid)
    → is_same x last ≡ true
    → is_found x last xs ≡ false
same_unwanted x last xs old = ground (arith, contains-newer x last xs old)

module _ {S T : Type 0} (st : Storage S T) (version_id : Uuid) (last : Option Uuid) (t : T)
    (f : Uuid → Option Version) (seen : (v : Uuid) → st.get_version v t ≡ (ok (f v), t))
    (other : is_same version_id last ≡ false) where
  -- one round of the loop, from `x`, with the identifiers `xs` behind it
  module _ (n : ℕ) (x : Uuid) (xs : List Uuid) where
    round :
        (r : Bool)
        → (is_hit version_id x ≡ false
            → is_same x last ≡ false
            → (search st version_id last (suc n) x t ≡ (ok r, t))
              × (is_found version_id last xs ≡ r))
        → search st version_id last (suc n) x t ≡ (ok (is_found version_id last (x ∷ xs)), t)
    unfolding search
    round r go_on = elim (Bool-cases (is_hit version_id x)) [
      | inl hit ↦ rw (found_hit version_id last x xs other hit, hit)
      | inr miss ↦ elim (Bool-cases (is_same x last)) [
        | inl same ↦ rw (found_last version_id last x xs same, miss, same)
        | inr new ↦
            rw (found_next version_id last x xs miss new, (go_on miss new).1) (go_on miss new).0
      ]
    ]

  -- The loop finds the version exactly if it is there.
  search-is_found :
      (n : ℕ) (x : Uuid) (vs : List Version)
      → Descends f x vs
      → search st version_id last (suc n) x t
        ≡ (ok (is_found version_id last (take (suc n) (trail x vs))), t)
  unfolding search
  search-is_found zero x [] way =
      round zero x [] false (λ miss new. (rw (miss, new), found_nothing version_id last))
  search-is_found zero x (v ∷ vs) way =
      round zero x [] false (λ miss new. (rw (miss, new), found_nothing version_id last))
  search-is_found (suc n) x [] way = round (suc n) x (take (suc n) []) false (λ miss new. (
    elim (Bool-cases (suc n == 0 || x == nil_version_id)) [
      | inl end ↦ rw (miss, new, end)
      | inr more ↦ rw (miss, new, more, seen x, way)
    ],
    found_nothing version_id last,
  ))
  search-is_found (suc n) x (v ∷ vs) way =
      round (suc n) x (take (suc n) (trail v.parent_version_id vs)) _ (λ miss new. (
        rw (miss, new, not_end n x way.0, seen x, way.1)
            (search-is_found n v.parent_version_id vs way.2),
        refl,
      ))

module _ {S T : Type 0} {st : Storage S T} (k : Contract st) (env : Env) (s : S) (w : World)
    (c x : Uuid) (bytes : Bytes) (ready : k.Ready s) (same : k.stored s ≡ views w) where
  abbrev snap : Snapshot
  snap = record { version_id = x; timestamp = k.kept env.now; versions_since = 0 }

  abbrev written : T
  written = (st.set_snapshot (new_snapshot env x) bytes (k.begin s c)).1

  abbrev Written : History → Type 0
  Written h =
      ((st.set_snapshot (new_snapshot env x) bytes (k.begin s c)).0 ≡ ok tt)
      × k.Open written
      × (k.db written ≡ views (set_history w c (take_snapshot snap bytes h)))

  write-Written : (h : History) → w c ≡ some h → Written h
  write-Written h e =
      let law =
        k.set_snapshot_lem (new_snapshot env x) bytes (k.begin s c) (client_of h) (omega arith)
          (k.begin-Open s c ready) (rw (k.db-begin s c ready, k.owner-begin s c ready, same, e)) in
      (
        law.0,
        law.1,
        law.2
            ∙ rw (k.db-begin s c ready, k.owner-begin s c ready, same)
                (set_view-views w c (take_snapshot snap bytes h) _ (rw e)),
      )

  search_run :
      (h : History)
      → w c ≡ some h
      → IsHistory (some h)
      → is_same x (snapshot_version (meta h.snapshot)) ≡ false
      → search st x (snapshot_version (meta h.snapshot)) 5 (latest h.versions) (k.begin s c)
        ≡ (ok (is_wanted x h), k.begin s c)
  search_run h e valid other =
      search-is_found st x (snapshot_version (meta h.snapshot)) (k.begin s c) (find_id h.versions)
        (λ v. version_seen k s c ready v ∙ rw (same, e)) other 4 (latest h.versions) h.versions
        (IsChain-Descends h.versions valid.0)

  present :
      (h : History)
      → w c ≡ some h
      → existing_client st (k.begin s c) ≡ (ok (client_of h), k.begin s c)
  present h e = existing_client_present k s c ready (client_of h) (rw (same, e))

  unwanted_run :
      (h : History)
      → w c ≡ some h
      → IsHistory (some h)
      → is_wanted x h ≡ false
      → add_snapshot_in st env x bytes (k.begin s c) ≡ (ok tt, k.begin s c)
  unfolding add_snapshot_in store_snapshot
  unwanted_run h e valid unwanted =
      elim (Bool-cases (is_same x (snapshot_version (meta h.snapshot)))) [
        | inl old ↦ rw (present h e, old)
        | inr other ↦ rw (present h e, other, search_run h e valid other, unwanted)
      ]

  wanted_run :
      (h : History)
      → w c ≡ some h
      → IsHistory (some h)
      → is_wanted x h ≡ true
      → add_snapshot_in st env x bytes (k.begin s c) ≡ (ok tt, (st.commit written).1)
  unfolding add_snapshot_in store_snapshot
  wanted_run h e valid wanted = elim (Bool-cases (is_same x (snapshot_version (meta h.snapshot)))) [
    | inl old ↦ absurd (
        cc (
          same_unwanted x (snapshot_version (meta h.snapshot))
            (take 5 (trail (latest h.versions) h.versions)) old))
    | inr other ↦ rw (
      present h e,
      other,
      search_run h e valid other,
      wanted,
      (write-Written h e).0,
      (k.commit_lem written (write-Written h e).1).0,
    )
  ]

  Ends-call :
      (o : Option History)
      → w c ≡ o
      → IsHistory o
      → let (r, w') = add_snapshot_to k.kept env c x bytes w o in
        Ends k (add_snapshot st env c x bytes s) r (views w')
  unfolding add_snapshot
  Ends-call none e valid = rw (← same) (
      with_txn-reads k s c ready _ _
        (unfold add_snapshot_in in rw (existing_client_absent k s c ready (rw (same, e)))))
  Ends-call (some h) e valid = elim (Bool-cases (is_wanted x h)) [
    | inl wanted ↦
        let write = write-Written h e in
        let committed = k.commit_lem written write.1 in
        rw wanted (
          with_txn-Ends k s c ready _ _ _ (wanted_run h e valid wanted) committed.1
            (committed.2 ∙ write.2))
    | inr unwanted ↦
        rw (unwanted, ← same) (with_txn-reads k s c ready _ _ (unwanted_run h e valid unwanted))
  ]

  -- On a storage that holds lines of versions, `add_snapshot` fails for an unknown client, and else
  -- returns `ok`. It stores the snapshot, with the time of the call and the counter 0, exactly if
  -- its identifier is not nil and is one of the first five on the way back along the client's line,
  -- before that of the last snapshot. The way goes from the newest version to the parent of the oldest
  -- one, which is on it although it is no version of the client. Nothing else changes.
  pub add_snapshot-refines :
      IsWorld w
      → let (r, w') = add_snapshot_to k.kept env c x bytes w (w c) in
        Ends k (add_snapshot st env c x bytes s) r (views w')
  add_snapshot-refines valid = Ends-call (w c) refl (valid c)
