-- ===== src/Core/History/Chain.antt =====
-- A client's versions as one line without forks, the newest first.
use taskchampion_sync_server.Prelude.{
  ◌==◌, ◌≡◌, refl, ◌≢◌, Option, none, some, List, [], ◌∷◌, arith, if◌then◌else◌,
}
use taskchampion_sync_server.Core.Types.{Uuid, Version, nil_version_id}

abbrev pub latest : List Version → Uuid
latest [] = nil_version_id
latest (v ∷ vs) = v.version_id

abbrev pub find_id : List Version → Uuid → Option Version
find_id [] x = none
find_id (v ∷ vs) x = if x == v.version_id then some v else find_id vs x

abbrev pub find_parent : List Version → Uuid → Option Version
find_parent [] x = none
find_parent (v ∷ vs) x = if x == v.parent_version_id then some v else find_parent vs x

-- The identifier is no version of the line and no parent of one.
abbrev pub IsNew : Uuid → List Version → Type 0
IsNew x [] = x ≢ nil_version_id
IsNew x (v ∷ vs) = (x ≢ v.version_id) × (x ≢ v.parent_version_id) × IsNew x vs

-- A version continues the line: its parent is the newest version before it.
abbrev pub Continues : Uuid → List Version → Type 0
Continues p [] = Unit
Continues p (v ∷ vs) = p ≡ v.version_id

-- Every version continues the line before it, under an identifier of its own.
abbrev pub IsChain : List Version → Type 0
IsChain [] = Unit
IsChain (v ∷ vs) =
    Continues v.parent_version_id vs
    × (v.version_id ≢ v.parent_version_id)
    × IsNew v.version_id vs
    × IsChain vs

pub IsNew-ne-nil : (x : Uuid) (vs : List Version) → IsNew x vs → x ≢ nil_version_id
IsNew-ne-nil x [] h = h
IsNew-ne-nil x (v ∷ vs) h = IsNew-ne-nil x vs h.2

pub find_id_new : (x : Uuid) (vs : List Version) → IsNew x vs → find_id vs x ≡ none
find_id_new x [] h = refl
find_id_new x (v ∷ vs) h = ground (arith, find_id_new x vs h.2)

pub find_parent_new : (x : Uuid) (vs : List Version) → IsNew x vs → find_parent vs x ≡ none
find_parent_new x [] h = refl
find_parent_new x (v ∷ vs) h = ground (arith, find_parent_new x vs h.2)

-- The newest version of a line has no child.
pub find_parent-latest :
    (p : Uuid) (vs : List Version) → IsChain vs → Continues p vs → find_parent vs p ≡ none
find_parent-latest p [] chain at_end = refl
find_parent-latest p (v ∷ vs) chain at_end = ground (arith, find_parent_new v.version_id vs chain.2)

-- Only the empty line has the nil version as its newest.
pub latest-ne-nil :
    (v : Version) (vs : List Version) → IsChain (v ∷ vs) → v.version_id ≢ nil_version_id
latest-ne-nil v vs chain = IsNew-ne-nil v.version_id vs chain.2

-- From `x`, the lookup `f` leads back along the line to a parent that it does not find.
abbrev pub Descends : (Uuid → Option Version) → Uuid → List Version → Type 0
Descends f x [] = f x ≡ none
Descends f x (v ∷ vs) = (x ≢ nil_version_id) × (f x ≡ some v) × Descends f v.parent_version_id vs

-- A version on top of the line does not change the way back from below it.
Descends-cons :
    (v : Version) (ws us : List Version) (x : Uuid)
    → v.version_id ≢ x
    → IsNew v.version_id us
    → Descends (find_id ws) x us
    → Descends (find_id (v ∷ ws)) x us
Descends-cons v ws [] x ne new d = ground arith
Descends-cons v ws (u ∷ us) x ne new d =
    (d.0, ground arith, Descends-cons v ws us u.parent_version_id new.1 new.2 d.2)

-- A line can be walked back from its newest version.
pub IsChain-Descends : (vs : List Version) → IsChain vs → Descends (find_id vs) (latest vs) vs
IsChain-Descends [] chain = refl
IsChain-Descends (v ∷ []) chain = (latest-ne-nil v [] chain, ground arith, ground arith)
IsChain-Descends (v ∷ u ∷ us) chain = (
  latest-ne-nil v (u ∷ us) chain,
  ground arith,
  Descends-cons v (u ∷ us) (u ∷ us) v.parent_version_id chain.1 chain.2
      (rw chain.0 (IsChain-Descends (u ∷ us) chain.3)),
)
