-- ===== src/Tests/Samples.antt =====
-- Inputs of the tests: one client, 7, whose calls get the identifiers 1, 2, 3, ….
use Prim.Native.String.{String}
use taskchampion_sync_server.Prelude.{
  ℕ, suc, ◌-◌, ◌==◌, none, some, [], ◌∷◌, ◌≢◌, refl, arith, if◌then◌else◌,
}
use taskchampion_sync_server.Prelude.Int.{pos}
use taskchampion_sync_server.Core.Types.{Version, nil_version_id}
use taskchampion_sync_server.Core.Urgency.{default_config}
use taskchampion_sync_server.Core.Server.{Env, add_version, add_snapshot}
use taskchampion_sync_server.Core.InMemory.{InMemoryStorage, InnerTxn, in_memory, new}
use taskchampion_sync_server.Prelude.{true}
use taskchampion_sync_server.Api.Http.{TextOps, HttpRequest}
use taskchampion_sync_server.Api.Handlers.{ServerState, create_client}
use taskchampion_sync_server.Api.AddVersion.{new_history}
use taskchampion_sync_server.Api.Sessions.{Reach}
use taskchampion_sync_server.Api.Sessions.InMemory.{reached_in_memory-Holds}
use taskchampion_sync_server.Core.History.Calls.{
  World, History, IsFresh, set_history, add_version_to,
}
use taskchampion_sync_server.Core.History.Invariant.{set_history-IsNewTo}
use taskchampion_sync_server.Core.Protocol.{Holds}
use taskchampion_sync_server.Core.InMemory.Fulfils.{in_memory-Contract, new-Holds}

-- Time is counted in days here.
abbrev pub env_at : ℕ → ℕ → Env
env_at id day = record { new_v4 = id; now = day; num_days = λ a b. pos (a - b) }

-- A header is an identifier in one byte, and a text counts its own letters.
abbrev pub count : String → ℕ
count String.[] = 0
count (String.◌∷◌ ch rest) = suc (count rest)

abbrev pub ops : TextOps
ops = record {
  to_str = λ bytes. elim bytes [ [] ↦ some "" | b ∷ _ ↦ some "1234567" ];
  parse_str = λ text. if count text == 0 then none else some (count text);
  to_string = λ id. "id";
}

abbrev pub state : ServerState InMemoryStorage InnerTxn
state = record { config = default_config; storage = in_memory; client_id_allowlist = none }

abbrev pub closed_state : ServerState InMemoryStorage InnerTxn
closed_state = record state { client_id_allowlist = some (8 ∷ []) }

abbrev pub request : String → HttpRequest
request content_type = record { header = λ name. some (7 ∷ []); content_type = content_type }

-- The storage after the client, its versions 1 and 2 and a snapshot of version 1.
abbrev pub made : InMemoryStorage
made = (create_client ops state 7 new).1

abbrev pub first : InMemoryStorage
first = (add_version in_memory default_config (env_at 1 0) 7 nil_version_id (65 ∷ []) made).1

abbrev pub second : InMemoryStorage
second = (add_version in_memory default_config (env_at 2 0) 7 1 (66 ∷ []) first).1

abbrev pub kept : InMemoryStorage
kept = (add_snapshot in_memory (env_at 0 3) 7 1 (90 ∷ []) second).1

-- The lines of versions that the storage has then.
abbrev pub nobody : World
nobody c = none

abbrev pub made_world : World
made_world = set_history nobody 7 new_history

abbrev pub first_world : World
first_world = (add_version_to default_config (env_at 1 0) 7 0 (65 ∷ []) made_world (made_world 7)).1

abbrev pub second_world : World
second_world =
    (add_version_to default_config (env_at 2 0) 7 1 (66 ∷ []) first_world (first_world 7)).1

abbrev pub version_one : Version
version_one = record { version_id = 1; parent_version_id = 0; history_segment = 65 ∷ [] }

abbrev pub version_two : Version
version_two = record { version_id = 2; parent_version_id = 1; history_segment = 66 ∷ [] }

abbrev pub first_history : History
first_history = record { versions = version_one ∷ []; snapshot = none }

abbrev pub second_history : History
second_history = record { versions = version_two ∷ version_one ∷ []; snapshot = none }

pub IsFresh-first : (x p : ℕ) → x ≢ 0 → x ≢ p → IsFresh x p made_world
IsFresh-first x p ne parent = (ne, parent, set_history-IsNewTo x nobody 7 new_history ne (λ c. tt))

pub IsFresh-second : (x : ℕ) → x ≢ 0 → x ≢ 1 → IsFresh x 1 first_world
IsFresh-second x ne other = (
  ne,
  other,
  set_history-IsNewTo x made_world 7 first_history (other, ne, ne) (IsFresh-first x 0 ne ne).2,
)

pub IsFresh-third : (x p : ℕ) → x ≢ 0 → x ≢ 1 → x ≢ 2 → x ≢ p → IsFresh x p second_world
IsFresh-third x p ne other third parent = (
  ne,
  parent,
  set_history-IsNewTo x first_world 7 second_history (third, other, (other, ne, ne))
      (IsFresh-second x ne other).2,
)

abbrev pub ReachesIn : InMemoryStorage → World → Type 0
ReachesIn = Reach ops state in_memory-Contract true

pub reach_made : ReachesIn made made_world
reach_made = Reach.client 7 (Reach.start new new-Holds.ready new-Holds.same) refl

pub reach_first : ReachesIn first first_world
reach_first =
    Reach.new_version (env_at 1 0) 7 0 (65 ∷ []) reach_made (omega arith)
      (IsFresh-first 1 0 (omega arith) (omega arith))

pub reach_second : ReachesIn second second_world
reach_second =
    Reach.new_version (env_at 2 0) 7 1 (66 ∷ []) reach_first (omega arith)
      (IsFresh-second 2 (omega arith) (omega arith))

pub made-Holds : Holds in_memory-Contract made made_world
made-Holds = reached_in_memory-Holds ops default_config none reach_made

pub first-Holds : Holds in_memory-Contract first first_world
first-Holds = reached_in_memory-Holds ops default_config none reach_first

pub second-Holds : Holds in_memory-Contract second second_world
second-Holds = reached_in_memory-Holds ops default_config none reach_second
