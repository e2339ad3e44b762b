-- ===== src/Api/Concurrent/Kept.antt =====
-- What handlers at work at once have acknowledged stays.
use mathlib.Core.Option.{none-ne-some}
use taskchampion_sync_server.Prelude.{
  ℕ, ◌≡◌, ◌≢◌, refl, ◌∙◌, ap, subst, sym, [], ◌∷◌, Option, none, some, Bool-cases, true, inl, inr,
  ◌==◌, eq_of_test, arith,
}
use taskchampion_sync_server.Core.Types.{
  Uuid, ServerConfig, Version, AddVersionResult, SnapshotUrgency, GetVersionResult,
}
use taskchampion_sync_server.Core.Txn.{ok}
use taskchampion_sync_server.Core.Server.{Env, urgency}
use taskchampion_sync_server.Core.History.Chain.{find_parent}
use taskchampion_sync_server.Core.History.Calls.{
  History, World, IsWorld, IsFresh, meta, accepts, child_of, add_version_to,
}
use taskchampion_sync_server.Core.History.Invariant.{set_history-IsWorld, add_version_to-IsWorld}
use taskchampion_sync_server.Core.Protocol.Replies.{kept_child}
use taskchampion_sync_server.Api.Http.{HttpError}
use taskchampion_sync_server.Api.AddVersion.{new_history}
use taskchampion_sync_server.Api.Concurrent.{
  Job, Stage, calling, creating, answered, failed, crashed, Schedule, set_stage,
}
use taskchampion_sync_server.Api.Concurrent.Spec.{
  add_in, create_in, spec_advance, spec_run, AllUnused, Distinct, spec_advance-Changes,
  Changes-AllUnused,
}

-- the version under a parent
abbrev pub child_in : Option History → Uuid → Option Version
child_in none p = none
child_in (some h) p = find_parent h.versions p

abbrev pub version_of : Job → Uuid → Version
version_of job v = record {
  version_id = v;
  parent_version_id = job.parent_version_id;
  history_segment = job.body;
}

-- The version that a handler has acknowledged is the one under its parent.
abbrev pub Acknowledged : (ℕ → Job) → (ℕ → Stage) → World → Type 0
Acknowledged jobs stages w =
    (i : ℕ) (v : Uuid) (u : SnapshotUrgency)
    → stages i ≡ answered (AddVersionResult.ok v) u
    → child_in (w (jobs i).client_id) (jobs i).parent_version_id ≡ some (version_of (jobs i) v)

module _ (config : ServerConfig) (taken : Uuid → HttpError) (env : Env) (job : Job) (w : World)
    (valid : IsWorld w) (fresh : IsFresh env.new_v4 job.parent_version_id w) where
  add_in_world :
      (o : Option History)
      → (add_version_to config env job.client_id job.parent_version_id job.body w o).1
        ≡ (add_in config env job w o).1
  add_in_world none = refl
  add_in_world (some h) = elim (Bool-cases (accepts h.versions job.parent_version_id)) [
    | inl accepted ↦ rw accepted
    | inr refused ↦ rw refused
  ]

  create-IsWorld : (o : Option History) → IsWorld (create_in taken job.client_id w o).1
  create-IsWorld none = set_history-IsWorld w job.client_id new_history valid (tt, tt)
  create-IsWorld (some h) = valid

  add-IsWorld : IsWorld (add_in config env job w (w job.client_id)).1
  add-IsWorld =
      subst IsWorld (add_in_world (w job.client_id)) (
        add_version_to-IsWorld config env job.client_id job.parent_version_id job.body w valid
          fresh)

  pub spec_advance-IsWorld : (stage : Stage) → IsWorld (spec_advance config taken env job stage w).1
  unfolding spec_advance
  spec_advance-IsWorld calling = add-IsWorld
  spec_advance-IsWorld creating = create-IsWorld (w job.client_id)
  spec_advance-IsWorld (answered r u) = valid
  spec_advance-IsWorld (failed e) = valid
  spec_advance-IsWorld crashed = valid

  module _ (c q : Uuid) (old : Version) (found : child_in (w c) q ≡ some old) where
    moved : (c == job.client_id) ≡ true → child_in (w job.client_id) q ≡ some old
    moved same = ap (λ d. child_in (w d) q) (sym (eq_of_test c job.client_id same)) ∙ found

    call-child :
        (o : Option History)
        → w job.client_id ≡ o
        → child_in ((add_in config env job w o).1 c) q ≡ some old
    call-child none e = found
    call-child (some h) e = elim (Bool-cases (accepts h.versions job.parent_version_id)) [
      | inl accepted ↦ elim (Bool-cases (c == job.client_id)) [
        | inl same ↦
            rw (accepted, same)
              (kept_child h (version_of job env.new_v4) q old (rw e at (valid job.client_id)).0
                accepted (rw e at (moved same)))
        | inr other ↦ rw (accepted, other) found
      ]
      | inr refused ↦ rw refused found
    ]

    create-child :
        (o : Option History)
        → w job.client_id ≡ o
        → child_in ((create_in taken job.client_id w o).1 c) q ≡ some old
    create-child none e = elim (Bool-cases (c == job.client_id)) [
      | inl same ↦ absurd (none-ne-some old (rw e at (moved same)))
      | inr other ↦ rw other found
    ]
    create-child (some h) e = found

    spec_advance-child :
        (stage : Stage) → child_in ((spec_advance config taken env job stage w).1 c) q ≡ some old
    unfolding spec_advance
    spec_advance-child calling = call-child (w job.client_id) refl
    spec_advance-child creating = create-child (w job.client_id) refl
    spec_advance-child (answered r u) = found
    spec_advance-child (failed e) = found
    spec_advance-child crashed = found

  -- A turn that acknowledges a version has stored it.
  call-acknowledged :
      (v : Uuid) (u : SnapshotUrgency) (o : Option History)
      → let (stage, w') = add_in config env job w o in
        stage ≡ answered (AddVersionResult.ok v) u
        → child_in (w' job.client_id) job.parent_version_id ≡ some (version_of job v)
  call-acknowledged v u none e = cc
  call-acknowledged v u (some h) e = elim (Bool-cases (accepts h.versions job.parent_version_id)) [
    | inl accepted ↦
        let same : answered (AddVersionResult.ok env.new_v4) (urgency config env (meta h.snapshot))
            ≡ answered (AddVersionResult.ok v) u =
          rw accepted at e in
        let ids : env.new_v4 ≡ v = cc same in
        subst
          (λ x.
            child_in ((add_in config env job w (some h)).1 job.client_id) job.parent_version_id
            ≡ some (version_of job x))
          ids (rw accepted (ground arith))
    | inr refused ↦ absurd (cc (rw refused at e))
  ]

  not-created :
      (v : Uuid) (u : SnapshotUrgency) (o : Option History)
      → (create_in taken job.client_id w o).0 ≢ answered (AddVersionResult.ok v) u
  not-created v u none e = cc
  not-created v u (some h) e = cc

  advance-acknowledged :
      (v : Uuid) (u : SnapshotUrgency) (stage : Stage)
      → (stage ≡ answered (AddVersionResult.ok v) u
          → child_in (w job.client_id) job.parent_version_id ≡ some (version_of job v))
      → (spec_advance config taken env job stage w).0 ≡ answered (AddVersionResult.ok v) u
      → child_in ((spec_advance config taken env job stage w).1 job.client_id) job.parent_version_id
        ≡ some (version_of job v)
  unfolding spec_advance
  advance-acknowledged v u calling before e = call-acknowledged v u (w job.client_id) e
  advance-acknowledged v u creating before e = absurd (not-created v u (w job.client_id) e)
  advance-acknowledged v u (answered r u') before e = before e
  advance-acknowledged v u (failed f) before e = before e
  advance-acknowledged v u crashed before e = before e

module _ (config : ServerConfig) (taken : Uuid → HttpError) (jobs : ℕ → Job) where
  turn-Acknowledged :
      (i : ℕ) (env : Env) (stages : ℕ → Stage) (w : World)
      → IsWorld w
      → IsFresh env.new_v4 (jobs i).parent_version_id w
      → Acknowledged jobs stages w
      → let (stage, w') = spec_advance config taken env (jobs i) (stages i) w in
        Acknowledged jobs (set_stage stages i stage) w'
  turn-Acknowledged i env stages w valid fresh before j v u e = elim (Bool-cases (j == i)) [
    | inl mine ↦
        subst
          (λ n.
            child_in ((spec_advance config taken env (jobs i) (stages i) w).1 (jobs n).client_id)
              (jobs n).parent_version_id
            ≡ some (version_of (jobs n) v))
          (sym (eq_of_test j i mine))
          (advance-acknowledged config taken env (jobs i) w valid fresh v u (stages i)
            (before i v u) (rw mine at e))
    | inr other ↦
        spec_advance-child config taken env (jobs i) w valid fresh (jobs j).client_id
          (jobs j).parent_version_id (version_of (jobs j) v) (before j v u (rw other at e))
          (stages i)
  ]

  pub spec_run-Acknowledged :
      (turns : Schedule) (stages : ℕ → Stage) (w : World)
      → IsWorld w
      → Distinct turns
      → AllUnused jobs w turns
      → Acknowledged jobs stages w
      → let (stages', w') = spec_run config taken jobs turns (stages, w) in
        Acknowledged jobs stages' w'
  unfolding spec_run
  spec_run-Acknowledged [] stages w valid distinct unused before = before
  spec_run-Acknowledged ((i, env) ∷ rest) stages w valid distinct unused before =
      let fresh : IsFresh env.new_v4 (jobs i).parent_version_id w =
        (unused.0.0, unused.0.1 i, unused.0.2) in
      spec_run-Acknowledged rest _ _
        (spec_advance-IsWorld config taken env (jobs i) w valid fresh (stages i)) distinct.1
        (Changes-AllUnused jobs i env.new_v4 w _ rest
          (spec_advance-Changes config taken env (jobs i) w (stages i)) distinct.0 unused.1)
        (turn-Acknowledged i env stages w valid fresh before)

-- The version under a parent is what `get_child_version` returns.
pub child_of-child_in :
    (o : Option History) (p : Uuid) (ver : Version)
    → child_in o p ≡ some ver
    → child_of p o
      ≡ ok (GetVersionResult.success ver.version_id ver.parent_version_id ver.history_segment)
child_of-child_in none p ver e = absurd (none-ne-some ver e)
child_of-child_in (some h) p ver e = rw e
