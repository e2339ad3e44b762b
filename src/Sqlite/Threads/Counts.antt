-- ===== src/Sqlite/Threads/Counts.antt =====
-- The threads of sqlite/tests/concurrency.rs lose no version.
use native.Mathlib.Nat.{add-zero}
use taskchampion_sync_server.Prelude.{
  ℕ, suc, ◌+◌, ◌<◌, ◌^◌, ◌==◌, ◌≡◌, ◌≢◌, refl, ◌∙◌, ap, Bool, true, false, none, some, List, [],
  ◌∷◌, length, arith, if◌then◌else◌,
}
use taskchampion_sync_server.Prelude.Int.{pos}
use taskchampion_sync_server.Core.Types.{Uuid, Version, nil_version_id, ServerConfig}
use taskchampion_sync_server.Core.Txn.{ok}
use taskchampion_sync_server.Core.Storage.{Storage}
use taskchampion_sync_server.Core.Storage.Contract.{Contract}
use taskchampion_sync_server.Core.Server.{Env}
use taskchampion_sync_server.Core.Server.Runs.{
  with_txn-Ends, with_txn-reads, client_seen, version_seen,
}
use taskchampion_sync_server.Core.Server.AddVersion.{written, write-Written}
use taskchampion_sync_server.Core.History.Chain.{latest, IsNew, Descends, IsChain-Descends}
use taskchampion_sync_server.Core.History.Calls.{
  World, History, IsNewTo, IsFresh, set_history, accepts, extend, client_of,
}
use taskchampion_sync_server.Core.History.Invariant.{
  set_history-IsWorld, set_history-IsNewTo, extend-IsHistory,
}
use taskchampion_sync_server.Core.Protocol.{Holds}
use taskchampion_sync_server.Sqlite.Tables.{Database}
use taskchampion_sync_server.Sqlite.Columns.{Crates}
use taskchampion_sync_server.Sqlite.Rows.{Lawful}
use taskchampion_sync_server.Sqlite.Fulfils.{sqlite-Contract}
use taskchampion_sync_server.Sqlite.{sqlite}
use taskchampion_sync_server.Sqlite.Threads.{
  succeeds, data_bytes, add_next, add_next_in, interleave, walk, count_versions, count_versions_in,
}

-- The line goes back to the nil version.
abbrev pub IsRooted : List Version → Type 0
IsRooted [] = Unit
IsRooted (v ∷ vs) = (v.parent_version_id ≡ latest vs) × IsRooted vs

-- The identifiers are not nil, new to every line, and no two are the same.
abbrev Avoids : Uuid → List (ℕ × Uuid) → Type 0
Avoids x [] = Unit
Avoids x ((i, y) ∷ rest) = (y ≢ x) × Avoids x rest

abbrev pub AllFresh : World → List (ℕ × Uuid) → Type 0
AllFresh w [] = Unit
AllFresh w ((i, x) ∷ rest) =
    ((x ≢ nil_version_id) × ((c : Uuid) → IsNewTo x (w c)) × Avoids x rest) × AllFresh w rest

-- the version that a thread adds
abbrev next_version : Uuid → History → Version
next_version x h = record {
  version_id = x;
  parent_version_id = latest h.versions;
  history_segment = data_bytes;
}

IsNew-ne-latest : (x : Uuid) (vs : List Version) → IsNew x vs → x ≢ latest vs
IsNew-ne-latest x [] new = new
IsNew-ne-latest x (v ∷ vs) new = new.0

accepts-latest : (vs : List Version) → accepts vs (latest vs) ≡ true
accepts-latest [] = refl
accepts-latest (v ∷ vs) = ground arith

not_nil : (x : Uuid) → x ≢ nil_version_id → (x == nil_version_id) ≡ false
not_nil x ne = ground arith

module _ {S T : Type 0} {st : Storage S T} (k : Contract st) (c : Uuid) where
  -- what `walk` counts from a version of the line
  walk_counts :
      (s : S) (ready : k.Ready s) (us : List Version) (n : ℕ)
      → Descends (k.stored s c).by_id (latest us) us
      → IsRooted us
      → walk st c (suc (length us)) (latest us) n (k.begin s c)
        ≡ (ok (some (n + length us)), k.begin s c)
  unfolding walk
  walk_counts s ready [] n d rooted = ap (λ m. (ok (some m), k.begin s c)) (omega arith)
  walk_counts s ready (u ∷ us) n d rooted =
      let along : Descends (k.stored s c).by_id (latest us) us = rw rooted.0 at d.2 in
      let total : n + 1 + length us ≡ n + suc (length us) = omega arith in
      rw (not_nil u.version_id d.0, version_seen k s c ready u.version_id, d.1, rooted.0, ← total)
        (walk_counts s ready us (n + 1) along rooted.1)

  count_lines :
      (s : S) (w : World) (h : History)
      → Holds k s w
      → w c ≡ some h
      → IsRooted h.versions
      → (count_versions st c (suc (length h.versions)) s).0 ≡ ok (some (length h.versions))
  unfolding count_versions count_versions_in
  count_lines s w h holds e rooted =
      let seen : (k.stored s c).client ≡ some (client_of h) = rw (holds.same, e) in
      let along : Descends (k.stored s c).by_id (latest h.versions) h.versions =
        rw (holds.same, e) (IsChain-Descends h.versions (rw e at (holds.valid c)).0) in
      (with_txn-reads k s c holds.ready (count_versions_in st c (suc (length h.versions))) _ (
        rw (client_seen k s c holds.ready, seen)
          (walk_counts s holds.ready h.versions 0 along rooted
            ∙ ap (λ m. (ok (some m), k.begin s c)) (omega arith)))).0

  -- A transaction of a thread succeeds and adds its version to the end of the line.
  next-Holds :
      (x : Uuid) (s : S) (w : World) (h : History)
      → Holds k s w
      → w c ≡ some h
      → length h.versions + 1 < 2 ^ 32
      → x ≢ nil_version_id
      → ((d : Uuid) → IsNewTo x (w d))
      → let ver : Version = record {
        version_id = x;
        parent_version_id = latest h.versions;
        history_segment = data_bytes;
      } in
        ((add_next st c x s).0 ≡ ok tt)
        × Holds k (add_next st c x s).1 (set_history w c (extend (next_version x h) h))
  unfolding add_next add_next_in
  next-Holds x s w h holds e small ne new =
      let env : Env = record { new_v4 = x; now = 0; num_days = λ a b. pos 0 } in
      let config : ServerConfig = record { snapshot_days = pos 0; snapshot_versions = 0 } in
      let p = latest h.versions in
      let valid = rw e at (holds.valid c) in
      let fresh : IsFresh x p w = (ne, IsNew-ne-latest x h.versions (rw e at (new c)), new) in
      let write =
        write-Written k config env s w c p data_bytes holds.ready holds.same h e valid small fresh
          (accepts-latest h.versions) in
      let committed =
        k.commit_lem (written k config env s w c p data_bytes holds.ready holds.same) write.1 in
      let seen : (k.stored s c).client ≡ some (client_of h) = rw (holds.same, e) in
      let ends =
        with_txn-Ends k s c holds.ready (add_next_in st c x)
          (ok tt, (st.commit (written k config env s w c p data_bytes holds.ready holds.same)).1) _
          (rw (client_seen k s c holds.ready, seen, write.0, committed.0)) committed.1
          (committed.2 ∙ write.2) in
      (
        ends.0,
        record {
          ready = ends.1;
          same = ends.2;
          valid =
              set_history-IsWorld w c _ holds.valid
                (extend-IsHistory x p data_bytes w c h e valid fresh (accepts-latest h.versions));
        },
      )

-- An identifier that is fresh for the later transactions is still so after one of them.
AllFresh-next :
    (x : Uuid) (w : World) (c : Uuid) (h : History) (rest : List (ℕ × Uuid))
    → w c ≡ some h
    → Avoids x rest
    → AllFresh w rest
    → AllFresh (set_history w c (extend (next_version x h) h)) rest
AllFresh-next x w c h [] e avoids fresh = tt
AllFresh-next x w c h ((i, y) ∷ rest) e avoids fresh =
    let here : IsNew y h.versions = rw e at (fresh.0.1 c) in
    (
      (
        fresh.0.0,
        set_history-IsNewTo y w c _ (avoids.0, IsNew-ne-latest y h.versions here, here) fresh.0.1,
        fresh.0.2,
      ),
      AllFresh-next x w c h rest e avoids.1 fresh.1,
    )

module _ {S T : Type 0} {st : Storage S T} (k : Contract st) (c : Uuid) where
  -- The storage holds a line of `n` versions of the client, back to the nil version.
  pub record HoldsLine (n : ℕ) (s : S) : Type 0 where
    pub world : World
    pub line : History
    pub holds : Holds k s world
    pub here : world c ≡ some line
    pub rooted : IsRooted line.versions
    pub counted : length line.versions ≡ n

  interleave-HoldsLine :
      (order : List (ℕ × Uuid)) (alive : ℕ → Bool) (n : ℕ) (s : S) (l : HoldsLine n s)
      → ((i : ℕ) → alive i ≡ true)
      → AllFresh l.world order
      → n + length order < 2 ^ 32
      → HoldsLine (n + length order) (interleave st c order alive s)
  unfolding interleave
  interleave-HoldsLine [] alive n s l all fresh small = rw add-zero l
  interleave-HoldsLine ((i, x) ∷ rest) alive n s l all fresh small =
      let next =
        next-Holds k c x s l.world l.line l.holds l.here (omega (arith, l.counted, small)) fresh.0.0
          fresh.0.1 in
      let l' : HoldsLine (suc n) (add_next st c x s).1 = record {
        world = set_history l.world c (extend (next_version x l.line) l.line);
        line = extend (next_version x l.line) l.line;
        holds = next.1;
        here = ground arith;
        rooted = (refl, l.rooted);
        counted = ap (λ m. suc m) l.counted;
      } in
      let still : (j : ℕ) → (if j == i then succeeds (add_next st c x s).0 else alive j) ≡ true =
        λ j. rw (next.0, all j) (ground arith) in
      let total : suc n + length rest ≡ n + suc (length rest) = omega arith in
      rw (all i, ← total)
        (interleave-HoldsLine rest _ (suc n) (add_next st c x s).1 l' still
          (AllFresh-next x l.world c l.line rest l.here fresh.0.2 fresh.1) (omega (arith, small)))

-- On a SQLite database that holds a client with no versions, any number of threads that add versions to
-- it, their transactions in any order with fresh identifiers: the walk back from the latest version ends
-- and counts as many versions as there were transactions, fewer than 2 ^ 32.
pub threads_lose_nothing :
    (crates : Crates) (laws : Lawful crates) (c : Uuid) (order : List (ℕ × Uuid)) (s : Database)
    (w : World)
    → Holds (sqlite-Contract crates laws) s w
    → w c ≡ some (record { versions = []; snapshot = none })
    → AllFresh w order
    → length order < 2 ^ 32
    → (count_versions
        (sqlite crates)
        c
        (suc (length order))
        (interleave (sqlite crates) c order (λ i. true) s)).0
      ≡ ok (some (length order))
threads_lose_nothing crates laws c order s w holds e fresh small =
    let k = sqlite-Contract crates laws in
    let start : HoldsLine k c 0 s = record {
      world = w;
      line = record { versions = []; snapshot = none };
      holds = holds;
      here = e;
      rooted = tt;
      counted = refl;
    } in
    let l =
      interleave-HoldsLine k c order (λ i. true) 0 s start (λ i. refl) fresh
        (omega (arith, small)) in
    let total : length l.line.versions ≡ length order = l.counted ∙ omega arith in
    rw (← total) (count_lines k c _ l.world l.line l.holds l.here l.rooted)
