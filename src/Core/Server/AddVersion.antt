-- ===== src/Core/Server/AddVersion.antt =====
-- `add_version` extends the line, or refuses and changes nothing.
use taskchampion_sync_server.Prelude.{
  ℕ, ◌+◌, ◌<◌, ◌^◌, ◌≡◌, refl, ◌∙◌, true, false, none, some, arith, Option, List, [], ◌∷◌, not,
  Bool-cases, length, inl, inr,
}
use taskchampion_sync_server.Core.Types.{
  Uuid, Bytes, Snapshot, ServerError, Version, ServerConfig, AddVersionResult, SnapshotUrgency,
}
use taskchampion_sync_server.Core.Txn.{ok, err}
use taskchampion_sync_server.Core.Storage.{Storage}
use taskchampion_sync_server.Core.Storage.Contract.{Contract, added, CanCount}
use taskchampion_sync_server.Core.Server.{Env, urgency, add_version, add_version_in, is_mismatch}
use taskchampion_sync_server.Core.Server.Runs.{
  Ends, with_txn-Ends, with_txn-reads, existing_client_absent, existing_client_present,
}
use taskchampion_sync_server.Core.History.Chain.{
  latest, find_parent, IsChain, find_id_new, latest-ne-nil, find_parent-latest,
}
use taskchampion_sync_server.Core.History.Calls.{
  History, World, IsWorld, IsHistory, IsCounted, IsFresh, IsNewTo, meta, views, view_of, client_of,
  accepts, extend, counted, add_version_to, set_history, set_view-views,
}

-- The guard of the code is the protocol's test on a line.
mismatch-eq-not-accepts :
    (vs : List Version) (p : Uuid) (snap : Option Snapshot)
    → IsChain vs
    → is_mismatch (record { latest_version_id = latest vs; snapshot = snap }) p ≡ not (accepts vs p)
mismatch-eq-not-accepts [] p snap chain = ground arith
mismatch-eq-not-accepts (v ∷ vs) p snap chain = ground (arith, latest-ne-nil v vs chain)

-- A version may be added where no version has that parent.
pub childless_of_accepts :
    (vs : List Version) (p : Uuid) → IsChain vs → accepts vs p ≡ true → find_parent vs p ≡ none
childless_of_accepts [] p chain e = refl
childless_of_accepts (v ∷ vs) p chain e = find_parent-latest p (v ∷ vs) chain (ground arith)

counts_of_length :
    (snapshot : Option (Snapshot × Bytes)) (n : ℕ)
    → IsCounted snapshot n
    → n + 1 < 2 ^ 32
    → CanCount (meta snapshot)
counts_of_length none n counted small = tt
counts_of_length (some (snap, bytes)) n counted small = omega arith

-- One more version of the client fits the counter.
abbrev pub IsSmall : Option History → Type 0
IsSmall none = Unit
IsSmall (some h) = length h.versions + 1 < 2 ^ 32

-- A fresh identifier is a version of no client.
pub unused_of_new : (x : Uuid) (o : Option History) → IsNewTo x o → (view_of o).by_id x ≡ none
unused_of_new x none new = refl
unused_of_new x (some h) new = find_id_new x h.versions new

added-eq-view_of :
    (ver : Version) (h : History)
    → added ver (client_of h) (view_of (some h)) ≡ view_of (some (extend ver h))
added-eq-view_of ver h = go h.snapshot
  where
    go :
        (snapshot : Option (Snapshot × Bytes))
        → let h' : History = record { versions = h.versions; snapshot = snapshot } in
          added ver (client_of h') (view_of (some h')) ≡ view_of (some (extend ver h'))
    go none = refl
    go (some (snap, bytes)) = refl

module _ {S T : Type 0} {st : Storage S T} (k : Contract st) (config : ServerConfig) (env : Env)
    (s : S) (w : World) (c p : Uuid) (bytes : Bytes) (ready : k.Ready s)
    (same : k.stored s ≡ views w) where
  abbrev pub version : Version
  version = record { version_id = env.new_v4; parent_version_id = p; history_segment = bytes }

  abbrev pub written : T
  written = (st.add_version env.new_v4 p bytes (k.begin s c)).1

  abbrev pub Written : (h : History) → Type 0
  Written h =
      ((st.add_version env.new_v4 p bytes (k.begin s c)).0 ≡ ok tt)
      × k.Open written
      × (k.db written ≡ views (set_history w c (extend version h)))

  pub write-Written :
      (h : History)
      → w c ≡ some h
      → IsHistory (some h)
      → length h.versions + 1 < 2 ^ 32
      → IsFresh env.new_v4 p w
      → accepts h.versions p ≡ true
      → Written h
  write-Written h e valid small fresh accepted =
      let law =
        k.add_version_lem env.new_v4 p bytes (k.begin s c) (client_of h) (k.begin-Open s c ready)
          (rw (k.db-begin s c ready, k.owner-begin s c ready, same, e))
          (counts_of_length h.snapshot (length h.versions) valid.1 small)
          (λ d. rw (k.db-begin s c ready, same) (unused_of_new env.new_v4 (w d) (fresh.2 d)))
          (rw (k.db-begin s c ready, k.owner-begin s c ready, same, e)
            (childless_of_accepts h.versions p valid.0 accepted)) in
      (
        law.0,
        law.1,
        law.2
            ∙ rw (k.db-begin s c ready, k.owner-begin s c ready, same)
                (set_view-views w c (extend version h) _ (rw e (added-eq-view_of version h))),
      )

  accepted_run :
      (h : History)
      → w c ≡ some h
      → IsHistory (some h)
      → accepts h.versions p ≡ true
      → Written h
      → add_version_in st config env p bytes (k.begin s c) ≡ (
        ok (AddVersionResult.ok env.new_v4, urgency config env (meta h.snapshot)),
        (st.commit written).1,
      )
  unfolding add_version_in
  accepted_run h e valid accepted write = rw (
    existing_client_present k s c ready (client_of h) (rw (same, e)),
    mismatch-eq-not-accepts h.versions p (meta h.snapshot) valid.0,
    accepted,
    write.0,
    (k.commit_lem written write.1).0,
  )

  refused_run :
      (h : History)
      → w c ≡ some h
      → IsHistory (some h)
      → accepts h.versions p ≡ false
      → add_version_in st config env p bytes (k.begin s c) ≡ (
        ok (AddVersionResult.expected_parent_version (latest h.versions), SnapshotUrgency.none),
        k.begin s c,
      )
  unfolding add_version_in
  refused_run h e valid refused = rw (
    existing_client_present k s c ready (client_of h) (rw (same, e)),
    mismatch-eq-not-accepts h.versions p (meta h.snapshot) valid.0,
    refused,
  )

  absent_run :
      w c ≡ none
      → add_version_in st config env p bytes (k.begin s c)
        ≡ (err ServerError.no_such_client, k.begin s c)
  unfolding add_version_in
  absent_run e = rw (existing_client_absent k s c ready (rw (same, e)))

  Ends-call :
      (o : Option History)
      → w c ≡ o
      → IsHistory o
      → IsSmall o
      → IsFresh env.new_v4 p w
      → let (r, w') = add_version_to config env c p bytes w o in
        Ends k (add_version st config env c p bytes s) r (views w')
  unfolding add_version
  Ends-call none e valid small fresh = rw (← same) (with_txn-reads k s c ready _ _ (absent_run e))
  Ends-call (some h) e valid small fresh = elim (Bool-cases (accepts h.versions p)) [
    | inl accepted ↦
        let write = write-Written h e valid small fresh accepted in
        let committed = k.commit_lem written write.1 in
        rw accepted (
          with_txn-Ends k s c ready _ _ _ (accepted_run h e valid accepted write) committed.1
            (committed.2 ∙ write.2))
    | inr refused ↦
        rw (refused, ← same) (with_txn-reads k s c ready _ _ (refused_run h e valid refused))
  ]

  -- On a storage that holds lines of versions, with a fresh identifier and fewer than 2 ^ 32 - 1
  -- versions of the client, `add_version` returns what the protocol says: `no_such_client` for an
  -- unknown client, the new version where the parent is the newest version or there is none, and
  -- the expected parent otherwise. It leaves exactly the accepted version added.
  pub add_version-refines :
      IsWorld w
      → IsSmall (w c)
      → IsFresh env.new_v4 p w
      → let (r, w') = add_version_to config env c p bytes w (w c) in
        Ends k (add_version st config env c p bytes s) r (views w')
  add_version-refines valid small fresh = Ends-call (w c) refl (valid c) small fresh
