-- ===== src/Core/History/Invariant.antt =====
-- The calls keep every client's versions one line.
use taskchampion_sync_server.Prelude.{
  ℕ, suc, ◌≡◌, refl, true, Option, none, some, List, [], ◌∷◌, arith, ◌==◌, length, Bool-cases, inl,
  inr,
}
use taskchampion_sync_server.Core.Types.{Uuid, Bytes, DateTime, Snapshot, Version, ServerConfig}
use taskchampion_sync_server.Core.Server.{Env}
use taskchampion_sync_server.Core.History.Chain.{Continues}
use taskchampion_sync_server.Core.History.Calls.{
  History, World, IsWorld, IsHistory, IsCounted, IsFresh, IsNewTo, accepts, counted, extend,
  set_history, add_version_to, add_snapshot_to, is_wanted,
}

Continues-of_accepts : (vs : List Version) (p : Uuid) → accepts vs p ≡ true → Continues p vs
Continues-of_accepts [] p e = tt
Continues-of_accepts (v ∷ vs) p e = ground arith

counted-IsCounted :
    (snapshot : Option (Snapshot × Bytes)) (n : ℕ)
    → IsCounted snapshot n
    → IsCounted (counted snapshot) (suc n)
counted-IsCounted none n h = tt
counted-IsCounted (some (snap, bytes)) n h = omega arith

pub extend-IsHistory :
    (x p : Uuid) (bytes : Bytes) (w : World) (c : Uuid) (h : History)
    → w c ≡ some h
    → IsHistory (some h)
    → IsFresh x p w
    → accepts h.versions p ≡ true
    → IsHistory (
        some (extend (record { version_id = x; parent_version_id = p; history_segment = bytes }) h))
extend-IsHistory x p bytes w c h e valid fresh accepted = (
  (Continues-of_accepts h.versions p accepted, fresh.1, rw e at (fresh.2 c), valid.0),
  counted-IsCounted h.snapshot (length h.versions) valid.1,
)

pub set_history-IsWorld :
    (w : World) (c : Uuid) (h : History)
    → IsWorld w
    → IsHistory (some h)
    → IsWorld (set_history w c h)
set_history-IsWorld w c h valid new d = elim (Bool-cases (d == c)) [
  | inl here ↦ rw here new
  | inr elsewhere ↦ rw elsewhere (valid d)
]

-- With a fresh identifier `add_version` keeps the lines.
pub add_version_to-IsWorld :
    (config : ServerConfig) (env : Env) (c p : Uuid) (bytes : Bytes) (w : World)
    → IsWorld w
    → IsFresh env.new_v4 p w
    → IsWorld (add_version_to config env c p bytes w (w c)).1
add_version_to-IsWorld config env c p bytes w valid fresh = go (w c) refl (valid c)
  where
    go :
        (o : Option History)
        → w c ≡ o
        → IsHistory o
        → IsWorld (add_version_to config env c p bytes w o).1
    go none e here = valid
    go (some h) e here = elim (Bool-cases (accepts h.versions p)) [
      | inl accepted ↦ rw accepted (
          set_history-IsWorld w c _ valid
            (extend-IsHistory env.new_v4 p bytes w c h e here fresh accepted))
      | inr refused ↦ rw refused valid
    ]

-- `add_snapshot` keeps the lines.
pub add_snapshot_to-IsWorld :
    (kept : DateTime → DateTime) (env : Env) (c x : Uuid) (bytes : Bytes) (w : World)
    → IsWorld w
    → IsWorld (add_snapshot_to kept env c x bytes w (w c)).1
add_snapshot_to-IsWorld kept env c x bytes w valid = go (w c) (valid c)
  where
    go : (o : Option History) → IsHistory o → IsWorld (add_snapshot_to kept env c x bytes w o).1
    go none here = valid
    go (some h) here = elim (Bool-cases (is_wanted x h)) [
      | inl wanted ↦ rw wanted (set_history-IsWorld w c _ valid (here.0, omega arith))
      | inr unwanted ↦ rw unwanted valid
    ]

-- An identifier that is new to a history is still new where that is put.
pub set_history-IsNewTo :
    (x : Uuid) (w : World) (c : Uuid) (h : History)
    → IsNewTo x (some h)
    → ((d : Uuid) → IsNewTo x (w d))
    → (d : Uuid) → IsNewTo x (set_history w c h d)
set_history-IsNewTo x w c h here elsewhere d = elim (Bool-cases (d == c)) [
  | inl same ↦ rw same here
  | inr other ↦ rw other (elsewhere d)
]
