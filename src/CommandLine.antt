-- ===== src/CommandLine.antt =====
-- The command line and the start of the server, server/src/bin/taskchampion-sync-server.rs. The crate
-- clap parses a command line after the arguments that `command` declares, and hands out the values by
-- name and type; HttpServer of the crate actix-web is the addresses that it is bound to.
pub mod Start
pub mod Tested
use Prim.Native.String.{String}
use text.Mathlib.Text.{◌==◌ as str_eq}
use taskchampion_sync_server.Prelude.{
  ℕ, Bool, true, false, Option, none, some, List, [], ◌∷◌, ◌++◌, if◌then◌else◌,
}
use taskchampion_sync_server.Prelude.Int.{ℤ}
use taskchampion_sync_server.Core.Types.{Uuid, ServerConfig}
use taskchampion_sync_server.Core.Txn.{Outcome, ok, err, panic, and_then}
use taskchampion_sync_server.Core.Urgency.{default_config}
use taskchampion_sync_server.Api.Handlers.{ServerState}
use taskchampion_sync_server.Sqlite.{SqliteTxn, sqlite, new as open_tables}
use taskchampion_sync_server.Sqlite.Columns.{Crates}
use taskchampion_sync_server.Sqlite.Tables.{Database}
use taskchampion_sync_server.Web.{new as web_server}

-- The types that values are declared with, or asked for as: `String`, `OsString`, `Uuid`, `u32`, `i64`
-- and `&str`.
pub data ValueType : Type 0 where
  string os_string uuid u32 i64 str_ref : ValueType

abbrev pub Value : ValueType → Type 0
Value ValueType.string = String
Value ValueType.os_string = String
Value ValueType.uuid = Uuid
Value ValueType.u32 = ℕ
Value ValueType.i64 = ℤ
Value ValueType.str_ref = String

pub record Arg : Type 0 where
  pub long : String
  pub short : Option String
  pub value_type : ValueType
  pub append : Bool
  pub required : Bool
  pub default_value : Option String

-- What the code calls of clap: `get_matches`, and `get_one` and `get_many` with the type that is asked
-- for. `u32_to_string` and `i64_to_string` are `to_string` of the standard library.
pub record Clap (M : Type 0) : Type 0 where
  pub get_matches : List Arg → List String → Outcome String M
  pub get_one : M → (t : ValueType) → String → Outcome String (Option (Value t))
  pub get_many : M → (t : ValueType) → String → Outcome String (Option (List (Value t)))
  pub u32_to_string : ℕ → String
  pub i64_to_string : ℤ → String

-- `Option::unwrap` of a value that was asked for
abbrev pub unwrapped : {A : Type 0} → Outcome String (Option A) → Outcome String A
unwrapped (ok none) = panic
unwrapped (ok (some a)) = ok a
unwrapped (err e) = err e
unwrapped panic = panic

module _ {M : Type 0} (clap : Clap M) where
  unfoldable pub command : List Arg
  command =
      record {
        long = "listen";
        short = some "l";
        value_type = ValueType.string;
        append = true;
        required = true;
        default_value = none;
      }
      ∷ record {
        long = "data-dir";
        short = some "d";
        value_type = ValueType.os_string;
        append = false;
        required = false;
        default_value = some "/var/lib/taskchampion-sync-server";
      }
      ∷ record {
        long = "allow-client-id";
        short = some "C";
        value_type = ValueType.uuid;
        append = true;
        required = false;
        default_value = none;
      }
      ∷ record {
        long = "snapshot-versions";
        short = none;
        value_type = ValueType.u32;
        append = false;
        required = false;
        default_value = some (clap.u32_to_string default_config.snapshot_versions);
      }
      ∷ record {
        long = "snapshot-days";
        short = none;
        value_type = ValueType.i64;
        append = false;
        required = false;
        default_value = some (clap.i64_to_string default_config.snapshot_days);
      }
      ∷ []

  -- The database in a directory, if it can be opened, with `none` for a new file; and the addresses
  -- with one more, if it can be bound.
  module _ (crates : Crates) (open_dir : String → Outcome String (Option Database))
      (bind : List String → String → Outcome String (List String)) where
    -- `main` up to `WebServer::new`: the state of the server, and the database
    unfoldable pub prepare : M → Outcome String (ServerState Database SqliteTxn × Database)
    prepare m = and_then (unwrapped (clap.get_one m ValueType.os_string "data-dir")) λ data_dir.
        and_then (unwrapped (clap.get_one m ValueType.u32 "snapshot-versions")) λ snapshot_versions.
          and_then (unwrapped (clap.get_one m ValueType.i64 "snapshot-days")) λ snapshot_days.
            and_then (clap.get_many m ValueType.uuid "allow-client-id") λ client_id_allowlist.
              and_then (open_dir data_dir) λ found.
                let config : ServerConfig = record {
                  snapshot_days = snapshot_days;
                  snapshot_versions = snapshot_versions;
                } in
                ok (web_server config client_id_allowlist (sqlite crates), open_tables found)

    -- the loop over the addresses
    unfoldable pub bind_all : List String → List String → Outcome String (List String)
    bind_all [] http_server = ok http_server
    bind_all (listen_address ∷ rest) http_server =
        and_then (bind http_server listen_address) λ bound. bind_all rest bound

    -- `main` up to `http_server.run()`: what is served, on which addresses.
    unfoldable pub main :
        List String → Outcome String ((ServerState Database SqliteTxn × Database) × List String)
    main line = and_then (clap.get_matches command line) λ m. and_then (prepare m) λ server.
        and_then (unwrapped (clap.get_many m ValueType.str_ref "listen"))
          λ addresses. and_then (bind_all addresses []) λ http_server. ok (server, http_server)
