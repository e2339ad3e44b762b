-- ===== src/Api/Concurrent/Spec.antt =====
-- The handlers at work at once on the lines of versions themselves.
use taskchampion_sync_server.Prelude.{
  ℕ, suc, ◌+◌, ◌≤◌, ◌<◌, ◌^◌, ◌==◌, ◌≡◌, ◌≢◌, ◌⊎◌, refl, sym, [], ◌∷◌, arith, Option, some, none,
  length, Bool-cases, inl, inr, if◌then◌else◌,
}
use taskchampion_sync_server.Core.Types.{
  Uuid, ServerConfig, AddVersionResult, SnapshotUrgency, nil_version_id,
}
use taskchampion_sync_server.Core.History.Chain.{latest}
use taskchampion_sync_server.Core.Server.{Env, urgency}
use taskchampion_sync_server.Core.Server.AddVersion.{IsSmall}
use taskchampion_sync_server.Core.History.Calls.{
  History, World, IsNewTo, set_history, accepts, extend, meta,
}
use taskchampion_sync_server.Core.History.Invariant.{set_history-IsNewTo}
use taskchampion_sync_server.Api.Http.{HttpError}
use taskchampion_sync_server.Api.AddVersion.{new_history}
use taskchampion_sync_server.Api.Concurrent.{
  Job, Stage, calling, creating, answered, failed, crashed, Schedule, set_stage,
}

-- Client `c` is created, if there was none, and else the handler fails.
abbrev pub create_in : (Uuid → HttpError) → Uuid → World → Option History → Stage × World
create_in taken c w none = (calling, set_history w c new_history)
create_in taken c w (some h) = (failed (taken c), w)

-- A call for a client that is not there leads to its creation; a version that the line accepts is added
-- and acknowledged, and another one is answered with the newest version.
abbrev pub add_in : ServerConfig → Env → Job → World → Option History → Stage × World
add_in config env job w none = (creating, w)
add_in config env job w (some h) =
    if accepts h.versions job.parent_version_id
    then (
      answered (AddVersionResult.ok env.new_v4) (urgency config env (meta h.snapshot)),
      set_history w job.client_id (
          extend
            (record {
              version_id = env.new_v4;
              parent_version_id = job.parent_version_id;
              history_segment = job.body;
            })
            h),
    )
    else (
      answered (AddVersionResult.expected_parent_version (latest h.versions)) SnapshotUrgency.none,
      w,
    )

module _ (config : ServerConfig) (taken : Uuid → HttpError) where
  unfoldable pub spec_advance : Env → Job → Stage → World → Stage × World
  spec_advance env job calling w = add_in config env job w (w job.client_id)
  spec_advance env job creating w = create_in taken job.client_id w (w job.client_id)
  spec_advance env job stage w = (stage, w)

  unfoldable pub spec_run : (ℕ → Job) → Schedule → (ℕ → Stage) × World → (ℕ → Stage) × World
  spec_run jobs [] sys = sys
  spec_run jobs ((i, env) ∷ rest) (stages, w) =
      let (stage, w') = spec_advance env (jobs i) (stages i) w in
      spec_run jobs rest (set_stage stages i stage, w')

abbrev pub size : Option History → ℕ
size none = 0
size (some h) = length h.versions

-- The identifier is not nil, no handler's parent, and new to every line.
abbrev pub IsUnused : (ℕ → Job) → World → Uuid → Type 0
IsUnused jobs w x =
    (x ≢ nil_version_id)
    × ((i : ℕ) → x ≢ (jobs i).parent_version_id)
    × ((c : Uuid) → IsNewTo x (w c))

abbrev pub AllUnused : (ℕ → Job) → World → Schedule → Type 0
AllUnused jobs w [] = Unit
AllUnused jobs w ((i, env) ∷ rest) = IsUnused jobs w env.new_v4 × AllUnused jobs w rest

abbrev pub Avoids : Uuid → Schedule → Type 0
Avoids x [] = Unit
Avoids x ((i, env) ∷ rest) = (env.new_v4 ≢ x) × Avoids x rest

-- No identifier comes twice.
abbrev pub Distinct : Schedule → Type 0
Distinct [] = Unit
Distinct ((i, env) ∷ rest) = Avoids env.new_v4 rest × Distinct rest

-- `n` more versions fit the counters.
abbrev pub HasRoom : ℕ → World → Type 0
HasRoom n w = (c : Uuid) → size (w c) + n < 2 ^ 32

pub IsSmall-of_room : (n : ℕ) (o : Option History) → size o + suc n < 2 ^ 32 → IsSmall o
IsSmall-of_room n none h = tt
IsSmall-of_room n (some h') h = omega arith

-- What a turn may do to the lines: nothing, or one client's line grows by at most the new version.
pub record Grows (x p : Uuid) (w w' : World) (c : Uuid) (h : History) : Type 0 where
  pub changed : w' ≡ set_history w c h
  pub by_one : size (some h) ≤ suc (size (w c))
  pub new_to :
      (y : Uuid) → x ≢ y → y ≢ p → y ≢ nil_version_id → IsNewTo y (w c) → IsNewTo y (some h)

abbrev pub Changes : Uuid → Uuid → World → World → Type 0
Changes x p w w' = (w' ≡ w) ⊎ ((c : Uuid) × (h : History) × Grows x p w w' c h)

module _ (config : ServerConfig) (taken : Uuid → HttpError) (env : Env) (job : Job)
    (w : World) where
  call-Changes :
      (o : Option History)
      → w job.client_id ≡ o
      → Changes env.new_v4 job.parent_version_id w (add_in config env job w o).1
  call-Changes none e = inl refl
  call-Changes (some h) e = elim (Bool-cases (accepts h.versions job.parent_version_id)) [
    | inl accepted ↦ rw accepted (
        inr (
          job.client_id,
          _,
          record {
            changed = refl;
            by_one = rw e (omega arith);
            new_to = λ y new_y ne_p ne_nil unused. (λ q. new_y (sym q), ne_p, rw e at unused);
          },
        ))
    | inr refused ↦ rw refused (inl refl)
  ]

  create-Changes :
      (o : Option History)
      → w job.client_id ≡ o
      → Changes env.new_v4 job.parent_version_id w (create_in taken job.client_id w o).1
  create-Changes none e = inr (
    job.client_id,
    _,
    record { changed = refl; by_one = omega arith; new_to = λ y new_y ne_p ne_nil unused. ne_nil },
  )
  create-Changes (some h) e = inl refl

  pub spec_advance-Changes :
      (stage : Stage)
      → Changes env.new_v4 job.parent_version_id w (spec_advance config taken env job stage w).1
  unfolding spec_advance
  spec_advance-Changes calling = call-Changes (w job.client_id) refl
  spec_advance-Changes creating = create-Changes (w job.client_id) refl
  spec_advance-Changes (answered r u) = inl refl
  spec_advance-Changes (failed e) = inl refl
  spec_advance-Changes crashed = inl refl

-- A change leaves an identifier unused that is not the new one.
pub Changes-IsUnused :
    (jobs : ℕ → Job) (x p y : Uuid) (w w' : World)
    → Changes x p w w'
    → x ≢ y
    → y ≢ p
    → IsUnused jobs w y
    → IsUnused jobs w' y
Changes-IsUnused jobs x p y w w' (inl same) ne ne_p unused = rw same unused
Changes-IsUnused jobs x p y w w' (inr (c, h, grows)) ne ne_p unused = rw grows.changed (
  unused.0,
  unused.1,
  set_history-IsNewTo y w c h (grows.new_to y ne ne_p unused.0 (unused.2 c)) unused.2,
)

pub Changes-HasRoom :
    (n : ℕ) (x p : Uuid) (w w' : World) → Changes x p w w' → HasRoom (suc n) w → HasRoom n w'
Changes-HasRoom n x p w w' (inl same) room = rw same λ c. omega (arith, room c)
Changes-HasRoom n x p w w' (inr (c, h, grows)) room = rw grows.changed λ d.
    elim (Bool-cases (d == c)) [
      | inl here ↦ rw here (omega (arith, room c, grows.by_one))
      | inr elsewhere ↦ rw elsewhere (omega (arith, room d))
    ]

-- A turn leaves the identifiers of the later turns unused.
pub Changes-AllUnused :
    (jobs : ℕ → Job) (i : ℕ) (x : Uuid) (w w' : World) (rest : Schedule)
    → Changes x (jobs i).parent_version_id w w'
    → Avoids x rest
    → AllUnused jobs w rest
    → AllUnused jobs w' rest
Changes-AllUnused jobs i x w w' [] change avoids unused = tt
Changes-AllUnused jobs i x w w' ((j, env) ∷ rest) change avoids unused = (
  Changes-IsUnused jobs x (jobs i).parent_version_id env.new_v4 w w' change (λ e. avoids.0 (sym e))
      (unused.0.1 i) unused.0,
  Changes-AllUnused jobs i x w w' rest change avoids.1 unused.1,
)
