-- ===== src/CommandLine/Tested.antt =====
-- The tests of server/src/bin/taskchampion-sync-server.rs that read a command line. They pass where they end
-- with `ok`.
use Prim.Native.String.{String}
use text.Mathlib.Text.{◌==◌ as str_eq}
use taskchampion_sync_server.Prelude.{
  Bool, true, false, ◌==◌, ◌&&◌, Option, none, some, List, [], ◌∷◌,
}
use taskchampion_sync_server.Core.Types.{Uuid}
use taskchampion_sync_server.Core.Txn.{Outcome, ok, panic, and_then}
use taskchampion_sync_server.CommandLine.{ValueType, Clap, command, unwrapped}

abbrev pub holds : Bool → Outcome String (Unit {0})
holds true = ok tt
holds false = panic

abbrev pub eq_ids : List Uuid → List Uuid → Bool
eq_ids [] [] = true
eq_ids (x ∷ xs) (y ∷ ys) = x == y && eq_ids xs ys
eq_ids xs ys = false

abbrev pub eq_allowed : Option (List Uuid) → Option (List Uuid) → Bool
eq_allowed none none = true
eq_allowed (some xs) (some ys) = eq_ids xs ys
eq_allowed a b = false

module _ {M : Type 0} (clap : Clap M) (parse_str : String → Option Uuid) where
  abbrev pub allowed : M → Outcome String (Option (List Uuid))
  allowed matches = clap.get_many matches ValueType.uuid "allow-client-id"

  -- `assert_eq!(allowed(&matches), …)` for a command line
  abbrev pub allows : List String → Option (List Uuid) → Outcome String (Unit {0})
  allows line expected =
      and_then (clap.get_matches (command clap) line)
        λ matches. and_then (allowed matches) λ ids. holds (eq_allowed ids expected)

  abbrev pub command_allowed_client_ids_none : Outcome String (Unit {0})
  command_allowed_client_ids_none = allows ("tss" ∷ "--listen" ∷ "localhost:8080" ∷ []) none

  abbrev pub command_allowed_client_ids_one : Outcome String (Unit {0})
  command_allowed_client_ids_one =
      and_then (unwrapped (ok (parse_str "711d5cf3-0cf0-4eb8-9eca-6f7f220638c0"))) λ id.
        allows
          ("tss" ∷ "--listen" ∷ "localhost:8080" ∷ "-C" ∷ "711d5cf3-0cf0-4eb8-9eca-6f7f220638c0"
            ∷ [])
          (some (id ∷ []))

  abbrev pub command_allowed_client_ids_two : Outcome String (Unit {0})
  command_allowed_client_ids_two =
      and_then (unwrapped (ok (parse_str "711d5cf3-0cf0-4eb8-9eca-6f7f220638c0"))) λ one.
        and_then (unwrapped (ok (parse_str "bbaf4b61-344a-4a39-a19e-8caa0669b353"))) λ two.
          allows
            ("tss" ∷ "--listen" ∷ "localhost:8080" ∷ "-C" ∷ "711d5cf3-0cf0-4eb8-9eca-6f7f220638c0"
              ∷ "-C" ∷ "bbaf4b61-344a-4a39-a19e-8caa0669b353" ∷ [])
            (some (one ∷ two ∷ []))

  abbrev pub command_data_dir : Outcome String (Unit {0})
  command_data_dir =
      and_then
        (clap.get_matches (command clap)
          ("tss" ∷ "--data-dir" ∷ "/foo/bar" ∷ "--listen" ∷ "localhost:8080" ∷ []))
        λ matches.
          and_then (unwrapped (clap.get_one matches ValueType.os_string "data-dir"))
            λ dir. holds (str_eq dir "/foo/bar")
