-- ===== src/Sqlite/Threads.antt =====
-- The program of sqlite/tests/concurrency.rs: threads that each add versions to one client, a transaction
-- for each version, and a count of the versions in the end.
pub mod Counts
use taskchampion_sync_server.Prelude.{
  ℕ, zero, suc, ◌+◌, ◌==◌, Bool, true, false, Option, none, some, List, [], ◌∷◌, if◌then◌else◌,
  length,
}
use taskchampion_sync_server.Core.Types.{
  Uuid, Bytes, ClientId, VersionId, Client, Version, ServerError, nil_version_id,
}
use taskchampion_sync_server.Core.Txn.{
  Outcome, ok, err, panic, Txn, pure, crash, ◌>>=◌, ◌>>◌, other?,
}
use taskchampion_sync_server.Core.Storage.{Storage, with_txn}
use taskchampion_sync_server.Core.Server.Tested.{assert, unwrap}

-- `b"data"`
abbrev pub data_bytes : Bytes
data_bytes = 100 ∷ 97 ∷ 116 ∷ 97 ∷ []

abbrev pub succeeds : {E A : Type 0} → Outcome E A → Bool
succeeds (ok a) = true
succeeds (err e) = false
succeeds panic = false

module _ {S T : Type 0} (st : Storage S T) (client_id : ClientId) where
  -- the body of the loop of `add_versions`
  unfoldable pub add_next_in : VersionId → Txn T ServerError (Unit {0})
  add_next_in version_id = do
    found ← other? st.get_client
    client ← unwrap found
    other? (st.add_version version_id client.latest_version_id data_bytes)
    other? st.commit

  unfoldable pub add_next : VersionId → S → Outcome ServerError (Unit {0}) × S
  add_next version_id s = with_txn st s client_id (add_next_in version_id)

  -- The threads' transactions in some order, each with its new identifier. A thread whose transaction
  -- fails ends.
  unfoldable pub interleave : List (ℕ × VersionId) → (ℕ → Bool) → S → S
  interleave [] alive s = s
  interleave ((thread, version_id) ∷ rest) alive s =
      let (r, s') = add_next version_id s in
      let goes_on = interleave rest (λ i. if i == thread then succeeds r else alive i) s' in
      let without = interleave rest alive s in if alive thread then goes_on else without

  -- The loop over the versions, on fuel: `none` means that it ran out.
  unfoldable pub walk : ℕ → VersionId → ℕ → Txn T ServerError (Option ℕ)
  walk zero version_id n = pure none
  walk (suc fuel) version_id n =
      let rest : Version → Txn T ServerError (Option ℕ) =
        λ version. walk fuel version.parent_version_id (n + 1) in
      if version_id == nil_version_id
      then pure (some n)
      else do found ← other? (st.get_version version_id); version ← unwrap found; rest version

  unfoldable pub count_versions_in : ℕ → Txn T ServerError (Option ℕ)
  count_versions_in fuel = do
    found ← other? st.get_client
    client ← unwrap found
    walk fuel client.latest_version_id 0

  unfoldable pub count_versions : ℕ → S → Outcome ServerError (Option ℕ) × S
  count_versions fuel s = with_txn st s client_id (count_versions_in fuel)

  -- the first block of the test: a client with no versions
  unfoldable pub set_up : S → Outcome ServerError (Unit {0}) × S
  set_up s = with_txn st s client_id do other? (st.new_client nil_version_id); other? st.commit

  -- the last block: whether the count is that of the transactions
  abbrev pub counted : ℕ → Option ℕ → Txn S ServerError (Unit {0})
  counted expected none = crash
  counted expected (some n) = assert (n == expected)

  -- The whole test, with the transactions of its threads in some order.
  unfoldable pub add_version_concurrency :
      List (ℕ × VersionId) → S → Outcome ServerError (Unit {0}) × S
  add_version_concurrency order = do
    set_up
    (λ s. (ok tt, interleave order (λ i. true) s))
    n ← count_versions (suc (length order))
    counted (length order) n
