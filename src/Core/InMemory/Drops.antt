-- ===== src/Core/InMemory/Drops.antt =====
-- The end of a transaction of core/src/inmemory.rs, whatever calls it made.
use taskchampion_sync_server.Prelude.{
  ◌≡◌, ◌≢◌, refl, ◌∙◌, Bool, false, ◌||◌, List, [], ◌∷◌, if◌then◌else◌, arith,
}
use taskchampion_sync_server.Core.Types.{Uuid, ServerError}
use taskchampion_sync_server.Core.Txn.{Outcome, ok, panic, other?}
use taskchampion_sync_server.Core.Storage.{with_txn}
use taskchampion_sync_server.Core.Storage.Call.{Call, run_call, run_calls, stores, any_stores}
use taskchampion_sync_server.Core.InMemory.{
  InMemoryStorage, InnerTxn, txn, get_client, new_client, set_snapshot, get_snapshot_data,
  get_version_by_parent, get_version, add_version, commit, drop, in_memory,
}
use taskchampion_sync_server.Core.InMemory.Failures.{opened_by}

-- A call marks the transaction as written if it has stored something, and never as committed.
abbrev Marks : InnerTxn → InnerTxn → Bool → Type 0
Marks t after stored = (after.written ≡ (t.written || stored)) × (after.committed ≡ t.committed)

run_call-Marks :
    (call : Call) (t : InnerTxn) → Marks t (run_call in_memory call t) (stores in_memory call t)
unfolding get_client new_client set_snapshot get_snapshot_data get_version_by_parent get_version
    add_version
run_call-Marks Call.call_get_client t = ground arith
run_call-Marks (Call.call_new_client latest) t = ground arith
run_call-Marks (Call.call_set_snapshot snap bytes) t = ground arith
run_call-Marks (Call.call_get_snapshot_data v) t = ground arith
run_call-Marks (Call.call_get_version_by_parent p) t = ground arith
run_call-Marks (Call.call_get_version v) t = ground arith
run_call-Marks (Call.call_add_version v p h) t = ground arith

run_calls-Marks :
    (calls : List Call) (t : InnerTxn)
    → Marks t (run_calls in_memory calls t) (any_stores in_memory calls t)
run_calls-Marks [] t = ground arith
run_calls-Marks (call ∷ calls) t =
    let (written, committed) = run_call-Marks call t in
    let (written', committed') = run_calls-Marks calls (run_call in_memory call t) in
    (written' ∙ rw written (ground arith), committed' ∙ committed)

module _ (s : InMemoryStorage) (c d : Uuid) (calls : List Call) (healthy : s.poisoned ≡ false) where
  -- Whatever calls a transaction in memory makes, and whether it then returns a result or an error (a
  -- panic is left out): what it has changed stays. If it commits, the commit succeeds, and the lock is not poisoned. If it does not commit, and one of the
  -- calls that store something has succeeded, then the drop panics, and so does `txn` of any client
  -- afterwards; if none has, the transaction returns its own result, and the next one can be opened.
  pub drop-after_calls :
      {A : Type 0} (r : Outcome ServerError A)
      → r ≢ panic
      → let left = run_calls in_memory calls (opened_by s c) in
        let stored = any_stores in_memory calls (opened_by s c) in
        let dropped = with_txn in_memory s c (λ t. (r, run_calls in_memory calls t)) in
        let committed = with_txn in_memory s c (λ t. other? commit (run_calls in_memory calls t)) in
        (committed ≡ (ok tt, record { inner = left.guard; poisoned = false }))
        × (dropped.0 ≡ (if stored then panic else r))
        × (txn dropped.1 d ≡ (if stored then panic else ok (opened_by dropped.1 d)))
        × (dropped.1.inner ≡ left.guard)
  unfolding txn drop commit
  drop-after_calls r returns =
      let (written, uncommitted) = run_calls-Marks calls (opened_by s c) in
      (
        ground (arith, healthy),
        rw (healthy, written, uncommitted) (ground arith),
        rw (healthy, written, uncommitted) (ground arith),
        rw healthy refl,
      )
