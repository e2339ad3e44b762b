-- ===== src/Core/Server/GetChildVersion.antt =====
-- `get_child_version` answers as the line of versions says.
use taskchampion_sync_server.Prelude.{
  ◌≢◌, ◌≡◌, refl, none, some, arith, Option, List, [], ◌∷◌, ◌==◌,
}
use taskchampion_sync_server.Core.Types.{Uuid, Snapshot, Version, nil_version_id}
use taskchampion_sync_server.Core.Storage.{Storage}
use taskchampion_sync_server.Core.Storage.Contract.{Contract}
use taskchampion_sync_server.Core.Server.{get_child_version, get_child_version_in, child_result}
use taskchampion_sync_server.Core.Server.Runs.{
  Ends, with_txn-reads, existing_client_absent, existing_client_present, children_seen,
}
use taskchampion_sync_server.Core.History.Chain.{
  latest, find_parent, IsChain, latest-ne-nil, find_parent-latest,
}
use taskchampion_sync_server.Core.History.Calls.{
  meta, History, World, IsWorld, IsHistory, views, client_of, accepts, answer, child_of,
}

-- The tests of the code and of the protocol agree where a version has been added.
child_result_some :
    (found : Option Version) (l p : Uuid) (snap : Option Snapshot)
    → l ≢ nil_version_id
    → (p ≡ l → found ≡ none)
    → child_result (record { latest_version_id = l; snapshot = snap }) p found
      ≡ answer found (p == l)
child_result_some none l p snap ne last = ground arith
child_result_some (some v) l p snap ne last = refl

-- The answer that the code computes is that of the line.
child_result-eq-answer :
    (vs : List Version) (p : Uuid) (snap : Option Snapshot)
    → IsChain vs
    → child_result (record { latest_version_id = latest vs; snapshot = snap }) p (find_parent vs p)
      ≡ answer (find_parent vs p) (accepts vs p)
child_result-eq-answer [] p snap chain = ground arith
child_result-eq-answer (v ∷ vs) p snap chain =
    child_result_some (find_parent (v ∷ vs) p) v.version_id p snap (latest-ne-nil v vs chain)
      (λ at_end. find_parent-latest p (v ∷ vs) chain at_end)

module _ {S T : Type 0} {st : Storage S T} (k : Contract st) (s : S) (w : World) (c p : Uuid)
    (ready : k.Ready s) (same : k.stored s ≡ views w) where
  get_child_version_in-run :
      (o : Option History)
      → w c ≡ o
      → IsHistory o
      → get_child_version_in st p (k.begin s c) ≡ (child_of p o, k.begin s c)
  unfolding get_child_version_in
  get_child_version_in-run none e valid = rw (existing_client_absent k s c ready (rw (same, e)))
  get_child_version_in-run (some h) e valid =
      rw
        (
          existing_client_present k s c ready (client_of h) (rw (same, e)),
          children_seen k s c ready p,
          same,
          e,
          child_result-eq-answer h.versions p (meta h.snapshot) valid.0,
        )
        refl

  -- On a storage that holds lines of versions, `get_child_version` fails for an unknown client, and
  -- else returns the version with the parent that was asked for; where there is none, `not_found` if
  -- `add_version` would accept that parent, and `gone` if not. It changes nothing.
  pub get_child_version-refines :
      IsWorld w → Ends k (get_child_version st c p s) (child_of p (w c)) (views w)
  unfolding get_child_version
  get_child_version-refines valid =
      rw (← same) (with_txn-reads k s c ready _ _ (get_child_version_in-run (w c) refl (valid c)))
