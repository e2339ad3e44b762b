-- ===== src/Core/Storage/Call.antt =====
-- The calls that a function of core/src/server.rs may make on a transaction of core/src/storage.rs.
use taskchampion_sync_server.Prelude.{Bool, true, false, ◌||◌, List, [], ◌∷◌}
use taskchampion_sync_server.Core.Types.{Uuid, Bytes, Snapshot}
use taskchampion_sync_server.Core.Txn.{Outcome, ok, err, panic}
use taskchampion_sync_server.Core.Storage.{Storage}

-- The calls on a transaction other than `commit`.
pub data Call : Type 0 where
  call_get_client : Call
  call_new_client : Uuid → Call
  call_set_snapshot : Snapshot → Bytes → Call
  call_get_snapshot_data : Uuid → Call
  call_get_version_by_parent : Uuid → Call
  call_get_version : Uuid → Call
  call_add_version : Uuid → Uuid → Bytes → Call

abbrev succeeded : {E A : Type 0} → Outcome E A → Bool
succeeded (ok x) = true
succeeded (err e) = false
succeeded panic = false

module _ {S T : Type 0} (st : Storage S T) where
  abbrev pub run_call : Call → T → T
  run_call Call.call_get_client t = (st.get_client t).1
  run_call (Call.call_new_client latest) t = (st.new_client latest t).1
  run_call (Call.call_set_snapshot snap bytes) t = (st.set_snapshot snap bytes t).1
  run_call (Call.call_get_snapshot_data v) t = (st.get_snapshot_data v t).1
  run_call (Call.call_get_version_by_parent p) t = (st.get_version_by_parent p t).1
  run_call (Call.call_get_version v) t = (st.get_version v t).1
  run_call (Call.call_add_version v p h) t = (st.add_version v p h t).1

  abbrev pub run_calls : List Call → T → T
  run_calls [] t = t
  run_calls (call ∷ calls) t = run_calls calls (run_call call t)

  -- Is the call one that stores something, and has it succeeded?
  abbrev pub stores : Call → T → Bool
  stores Call.call_get_client t = false
  stores (Call.call_new_client latest) t = succeeded (st.new_client latest t).0
  stores (Call.call_set_snapshot snap bytes) t = succeeded (st.set_snapshot snap bytes t).0
  stores (Call.call_get_snapshot_data v) t = false
  stores (Call.call_get_version_by_parent p) t = false
  stores (Call.call_get_version v) t = false
  stores (Call.call_add_version v p h) t = succeeded (st.add_version v p h t).0

  -- Has one of the calls stored something?
  abbrev pub any_stores : List Call → T → Bool
  any_stores [] t = false
  any_stores (call ∷ calls) t = stores call t || any_stores calls (run_call call t)
