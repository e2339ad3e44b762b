-- ===== src/Api/Concurrent/InMemory.antt =====
-- Handlers at work at once on the storage in memory, which refuses to create a client twice.
use taskchampion_sync_server.Prelude.{ℕ, ◌≤◌, ◌≡◌, ◌∙◌, ap, subst, sym, true, length}
use taskchampion_sync_server.Core.Types.{
  Uuid, ServerConfig, AddVersionResult, SnapshotUrgency, GetVersionResult,
}
use taskchampion_sync_server.Core.Txn.{ok}
use taskchampion_sync_server.Core.Server.{get_child_version}
use taskchampion_sync_server.Core.Server.GetChildVersion.{get_child_version-refines}
use taskchampion_sync_server.Core.History.Calls.{World}
use taskchampion_sync_server.Core.Protocol.{Holds}
use taskchampion_sync_server.Core.InMemory.{InMemoryStorage, in_memory}
use taskchampion_sync_server.Core.InMemory.Fulfils.{in_memory-Contract}
use taskchampion_sync_server.Api.Http.{TextOps, Allowlist}
use taskchampion_sync_server.Api.NewClient.{on_memory, taken}
use taskchampion_sync_server.Api.Sessions.InMemory.{in_memory-CreatesOnce}
use taskchampion_sync_server.Api.Concurrent.{Job, Stage, calling, answered, Schedule, run}
use taskchampion_sync_server.Api.Concurrent.Spec.{spec_run, AllUnused, Distinct, HasRoom}
use taskchampion_sync_server.Api.Concurrent.Refines.{run-Agrees}
use taskchampion_sync_server.Api.Concurrent.Kept.{
  version_of, spec_run-Acknowledged, child_of-child_in,
}
use taskchampion_sync_server.Api.Concurrent.Finish.{is_finished, turns_of, spec_run_finishes}

abbrev pub all_calling : ℕ → Stage
all_calling i = calling

module _ (ops : TextOps) (config : ServerConfig) (allowlist : Allowlist) (jobs : ℕ → Job)
    (turns : Schedule) (s : InMemoryStorage) (w : World) (holds : Holds in_memory-Contract s w)
    (distinct : Distinct turns) (unused : AllUnused jobs w turns)
    (room : HasRoom (length turns) w) where
  -- Any number of handlers of `add_version` on the storage in memory, their transactions in any order,
  -- with fresh identifiers and room for so many versions: each handler is at the stage, and the storage
  -- holds the lines, that the same order of calls on the lines themselves comes to. There a client that
  -- two handlers have found missing is created by the first, and the second one fails.
  pub run-refines :
      let (stages, s') = run ops (on_memory config allowlist) jobs turns (all_calling, s) in
      let (stages', w') = spec_run config taken jobs turns (all_calling, w) in
      (stages ≡ stages') × Holds in_memory-Contract s' w'
  run-refines =
      run-Agrees ops (on_memory config allowlist) in_memory-Contract taken
        (in_memory-CreatesOnce ops config allowlist) jobs turns all_calling s w holds distinct
        unused room

  -- Any number of handlers of `add_version` on the storage in memory, their transactions in any order,
  -- with fresh identifiers and room for so many versions: a version that some handler has acknowledged
  -- with its success is what `get_child_version` of its parent returns in the end, with the bytes that
  -- were sent.
  pub acknowledged_served :
      (i : ℕ) (v : Uuid) (u : SnapshotUrgency)
      → let (stages, s') = run ops (on_memory config allowlist) jobs turns (all_calling, s) in
        stages i ≡ answered (AddVersionResult.ok v) u
        → (get_child_version in_memory (jobs i).client_id (jobs i).parent_version_id s').0
          ≡ ok (GetVersionResult.success v (jobs i).parent_version_id (jobs i).body)
  acknowledged_served i v u e =
      let (stages-same, after) = run-refines in
      let (stages', w') = spec_run config taken jobs turns (all_calling, w) in
      (get_child_version-refines in_memory-Contract _ w' (jobs i).client_id
        (jobs i).parent_version_id after.ready after.same after.valid).0
      ∙ child_of-child_in (w' (jobs i).client_id) (jobs i).parent_version_id (version_of (jobs i) v)
          (spec_run-Acknowledged config taken jobs turns all_calling w holds.valid distinct unused
            (λ j x y not_yet. absurd (cc not_yet)) i v u (ap (λ f. f i) (sym stages-same) ∙ e))

  -- Any number of handlers of `add_version` on the storage in memory, their transactions in any order,
  -- with fresh identifiers and room for so many versions: a handler that has had three turns is at its
  -- end.
  pub three_turns_finish :
      (i : ℕ)
      → 3 ≤ turns_of i turns
      → is_finished ((run ops (on_memory config allowlist) jobs turns (all_calling, s)).0 i) ≡ true
  three_turns_finish i enough =
      subst (λ f. is_finished (f i) ≡ true) (sym run-refines.0)
        (spec_run_finishes config taken jobs i turns all_calling w enough)
