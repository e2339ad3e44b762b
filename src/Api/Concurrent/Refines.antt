-- ===== src/Api/Concurrent/Refines.antt =====
-- The handlers at work at once do on a storage what they do on the lines of versions.
use taskchampion_sync_server.Prelude.{
  ℕ, ◌≡◌, refl, ap, subst, [], ◌∷◌, length, Option, none, some, Bool-cases, inl, inr,
}
use taskchampion_sync_server.Core.Types.{Uuid}
use taskchampion_sync_server.Core.Storage.Contract.{Contract}
use taskchampion_sync_server.Core.Server.{Env}
use taskchampion_sync_server.Core.Server.AddVersion.{IsSmall, add_version-refines}
use taskchampion_sync_server.Core.History.Calls.{History, World, IsFresh, accepts, add_version_to}
use taskchampion_sync_server.Core.History.Invariant.{set_history-IsWorld}
use taskchampion_sync_server.Core.Protocol.{Holds}
use taskchampion_sync_server.Core.Protocol.Replies.{add_version-Holds}
use taskchampion_sync_server.Api.Http.{TextOps, HttpError}
use taskchampion_sync_server.Api.Handlers.{ServerState}
use taskchampion_sync_server.Api.AddVersion.{new_history, create_client-Ends}
use taskchampion_sync_server.Api.Sessions.{CreatesOnce}
use taskchampion_sync_server.Api.Concurrent.{
  Job, Stage, calling, creating, answered, failed, crashed, after_call, after_create, Schedule,
  set_stage, advance, run,
}
use taskchampion_sync_server.Api.Concurrent.Spec.{
  add_in, create_in, spec_advance, spec_run, AllUnused, Distinct, HasRoom, IsSmall-of_room,
  spec_advance-Changes, Changes-AllUnused, Changes-HasRoom,
}

module _ {S T : Type 0} (ops : TextOps) (state : ServerState S T) (k : Contract state.storage)
    (taken : Uuid → HttpError) where
  -- A stage and a storage are what the lines of versions say.
  abbrev Agrees : Stage × S → Stage × World → Type 0
  Agrees a b = (a.0 ≡ b.0) × Holds k a.1 b.1

  module _ (once : CreatesOnce ops state k taken) (env : Env) (job : Job) (s : S) (w : World)
      (holds : Holds k s w) where
    create-Agrees :
        (o : Option History)
        → w job.client_id ≡ o
        → Agrees (advance ops state env job creating s) (create_in taken job.client_id w o)
    unfolding advance
    create-Agrees none e =
        let ends = create_client-Ends ops state k s w job.client_id holds.ready holds.same e in
        (
          ap after_create ends.0,
          record {
            ready = ends.1;
            same = ends.2;
            valid = set_history-IsWorld w job.client_id new_history holds.valid (tt, tt);
          },
        )
    create-Agrees (some h) e = rw (once s w job.client_id h holds e) (refl, holds)

    -- The protocol's reply, through the handler's `match`, is what a call leads to.
    add_in-eq :
        (o : Option History)
        → let (r, w') =
            add_version_to state.config env job.client_id job.parent_version_id job.body w o in
          add_in state.config env job w o ≡ (after_call r, w')
    add_in-eq none = refl
    add_in-eq (some h) = elim (Bool-cases (accepts h.versions job.parent_version_id)) [
      | inl accepted ↦ rw accepted
      | inr refused ↦ rw refused
    ]

    advance-Agrees :
        (stage : Stage)
        → IsSmall (w job.client_id)
        → IsFresh env.new_v4 job.parent_version_id w
        → Agrees
            (advance ops state env job stage s)
            (spec_advance state.config taken env job stage w)
    unfolding advance spec_advance
    advance-Agrees calling small fresh =
        let ends =
          add_version-refines k state.config env s w job.client_id job.parent_version_id job.body
            holds.ready holds.same holds.valid small fresh in
        rw (add_in-eq (w job.client_id)) (
          ap after_call ends.0,
          add_version-Holds k state.config env job.client_id job.parent_version_id job.body s w
              holds small fresh,
        )
    advance-Agrees creating small fresh = create-Agrees (w job.client_id) refl
    advance-Agrees (answered r u) small fresh = (refl, holds)
    advance-Agrees (failed e) small fresh = (refl, holds)
    advance-Agrees crashed small fresh = (refl, holds)

  pub run-Agrees :
      CreatesOnce ops state k taken
      → (jobs : ℕ → Job) (turns : Schedule) (stages : ℕ → Stage) (s : S) (w : World) → Holds k s w
      → Distinct turns
      → AllUnused jobs w turns
      → HasRoom (length turns) w
      → let (a, s') = run ops state jobs turns (stages, s) in
        let (b, w') = spec_run state.config taken jobs turns (stages, w) in (a ≡ b) × Holds k s' w'
  unfolding run spec_run
  run-Agrees once jobs [] stages s w holds distinct unused room = (refl, holds)
  run-Agrees once jobs ((i, env) ∷ rest) stages s w holds distinct unused room =
      let job = jobs i in
      let turn =
        advance-Agrees once env job s w holds (stages i)
          (IsSmall-of_room (length rest) (w job.client_id) (room job.client_id))
          (unused.0.0, unused.0.1 i, unused.0.2) in
      let change = spec_advance-Changes state.config taken env job w (stages i) in
      let after = advance ops state env job (stages i) s in
      let ran = run ops state jobs rest (set_stage stages i after.0, after.1) in
      subst
        (λ stage.
          let (b, w') =
            spec_run state.config taken jobs rest (
              set_stage stages i stage,
              (spec_advance state.config taken env job (stages i) w).1,
            ) in
          (ran.0 ≡ b) × Holds k ran.1 w')
        turn.0
        (run-Agrees once jobs rest _ _ _ turn.1 distinct.1
          (Changes-AllUnused jobs i env.new_v4 w _ rest change distinct.0 unused.1)
          (Changes-HasRoom (length rest) env.new_v4 job.parent_version_id w _ change room))
