-- ===== src/Core/Protocol/Pull.antt =====
-- A replica that asks for one child version after the other, until there is none.
use taskchampion_sync_server.Prelude.{
  ℕ, zero, suc, ◌≡◌, refl, ap, ◌∙◌, eq_of_test, Bool, true, false, Bool-cases, Option, none, some,
  List, [], ◌∷◌, ◌++◌, arith, ◌==◌, inl, inr, length,
}
use taskchampion_sync_server.Core.Types.{Uuid, Version, GetVersionResult, ServerError}
use taskchampion_sync_server.Core.Txn.{Outcome, ok, err, panic}
use taskchampion_sync_server.Core.Storage.{Storage}
use taskchampion_sync_server.Core.Storage.Contract.{Contract}
use taskchampion_sync_server.Core.Server.{get_child_version}
use taskchampion_sync_server.Core.Server.GetChildVersion.{get_child_version-refines}
use taskchampion_sync_server.Core.History.Chain.{
  latest, find_parent, find_parent-latest, IsChain, Continues,
}
use taskchampion_sync_server.Core.History.Calls.{History, World, accepts, answer}
use taskchampion_sync_server.Core.Protocol.{Holds}

-- The versions that a replica at version `x` is given in turn, in `n` requests at most, and whether
-- the server then says that it is up to date.
abbrev pub after_reply : GetVersionResult → (Uuid → List Version × Bool) → List Version × Bool
after_reply GetVersionResult.not_found rest = ([], true)
after_reply GetVersionResult.gone rest = ([], false)
after_reply (GetVersionResult.success v p bytes) rest =
    let (vs, up_to_date) = rest v in
    (record { version_id = v; parent_version_id = p; history_segment = bytes } ∷ vs, up_to_date)

abbrev pub after_outcome :
    Outcome ServerError GetVersionResult → (Uuid → List Version × Bool) → List Version × Bool
after_outcome (ok r) rest = after_reply r rest
after_outcome (err e) rest = ([], false)
after_outcome panic rest = ([], false)

module _ {S T : Type 0} (st : Storage S T) (c : Uuid) where
  unfoldable pub pull : ℕ → Uuid → S → List Version × Bool
  pull zero x s = ([], false)
  pull (suc n) x s = let (r, s') = get_child_version st c x s in after_outcome r (λ v. pull n v s')

abbrev pub oldest_first : List Version → List Version
oldest_first [] = []
oldest_first (v ∷ vs) = oldest_first vs ++ v ∷ []

-- By the lookup of children `f`, the versions lead from `x` to `y`, oldest first.
abbrev Leads : (Uuid → Option Version) → Uuid → List Version → Uuid → Type 0
Leads f x [] y = x ≡ y
Leads f x (u ∷ us) y = (f x ≡ some u) × Leads f u.version_id us y

Leads-cons :
    (v : Version) (vs us : List Version) (x y : Uuid)
    → find_parent vs v.parent_version_id ≡ none
    → Leads (find_parent vs) x us y
    → Leads (find_parent (v ∷ vs)) x us y
Leads-cons v vs [] x y free way = way
Leads-cons v vs (u ∷ us) x y free way = (
  elim (Bool-cases (x == v.parent_version_id)) [
    | inl same ↦
        absurd (cc (way.0, free, ap (find_parent vs) (eq_of_test x v.parent_version_id same)))
    | inr other ↦ rw other way.0
  ],
  Leads-cons v vs us u.version_id y free way.1,
)

Leads-snoc :
    (f : Uuid → Option Version) (us : List Version) (v : Version) (x y : Uuid)
    → Leads f x us y
    → f y ≡ some v
    → Leads f x (us ++ v ∷ []) v.version_id
Leads-snoc f [] v x y way next = (rw way next, refl)
Leads-snoc f (u ∷ us) v x y way next = (way.0, Leads-snoc f us v u.version_id y way.1 next)

Continues-latest :
    (p : Uuid) (news : List Version) (base : Version) (old : List Version)
    → Continues p (news ++ base ∷ old)
    → p ≡ latest (news ++ base ∷ old)
Continues-latest p [] base old next = next
Continues-latest p (v ∷ news) base old next = next

-- On a line, the newer versions lead from each version to the newest.
chain-Leads :
    (news : List Version) (base : Version) (old : List Version)
    → IsChain (news ++ base ∷ old)
    → Leads
        (find_parent (news ++ base ∷ old))
        base.version_id
        (oldest_first news)
        (latest (news ++ base ∷ old))
chain-Leads [] base old chain = refl
chain-Leads (v ∷ news) base old chain =
    let ws = news ++ base ∷ old in
    Leads-snoc (find_parent (v ∷ ws)) (oldest_first news) v base.version_id (latest ws)
      (Leads-cons v ws (oldest_first news) base.version_id (latest ws)
        (find_parent-latest v.parent_version_id ws chain.3 chain.0)
        (chain-Leads news base old chain.3))
      (rw (Continues-latest v.parent_version_id news base old chain.0) (ground arith))

-- A replica at the newest version is told that there is no newer one.
answer-latest :
    (vs : List Version)
    → IsChain vs
    → answer (find_parent vs (latest vs)) (accepts vs (latest vs)) ≡ GetVersionResult.not_found
answer-latest [] chain = refl
answer-latest (v ∷ vs) chain =
    rw (find_parent-latest v.version_id (v ∷ vs) chain refl) (ground arith)

-- A replica at work on a storage that holds lines of versions.
module _ {S T : Type 0} {st : Storage S T} (k : Contract st) (c : Uuid) (w : World) (h : History)
    (e : w c ≡ some h) where
  reply :
      (x : Uuid) (s : S)
      → Holds k s w
      → (get_child_version st c x s).0
        ≡ ok (answer (find_parent h.versions x) (accepts h.versions x))
  reply x s holds =
      (get_child_version-refines k s w c x holds.ready holds.same holds.valid).0 ∙ rw e

  next : (x : Uuid) (s : S) → Holds k s w → Holds k (get_child_version st c x s).1 w
  next x s holds =
      let ends = get_child_version-refines k s w c x holds.ready holds.same holds.valid in
      record { ready = ends.1; same = ends.2; valid = holds.valid }

  pull_along :
      (us : List Version) (x : Uuid) (s : S)
      → Holds k s w
      → Leads (find_parent h.versions) x us (latest h.versions)
      → pull st c (suc (length us)) x s ≡ (us, true)
  unfolding pull
  pull_along [] x s holds way =
      rw (reply x s holds, way, answer-latest h.versions (rw e at (holds.valid c)).0)
  pull_along (u ∷ us) x s holds way =
      rw (reply x s holds, way.0)
        (rw (pull_along us u.version_id (get_child_version st c x s).1 (next x s holds) way.1))

  -- A replica at the version `base` that asks on until it is up to date is given exactly the newer
  -- versions, each once, oldest first, in one request more than there are versions.
  pub pull-newer :
      (news : List Version) (base : Version) (old : List Version) (s : S)
      → h.versions ≡ news ++ base ∷ old
      → Holds k s w
      → pull st c (suc (length (oldest_first news))) base.version_id s ≡ (oldest_first news, true)
  pull-newer news base old s split holds =
      pull_along (oldest_first news) base.version_id s holds
        (rw split (chain-Leads news base old (rw split at ((rw e at (holds.valid c)).0))))
