-- ===== src/CommandLine/Start.antt =====
-- The start of the server, where clap does what its documentation says.
use Prim.Native.String.{String}
use text.Mathlib.Text.{◌==◌ as str_eq}
use taskchampion_sync_server.Prelude.{
  ℕ, ◌≡◌, ◌^◌, ◌<◌, refl, ap, ◌∙◌, Bool, true, false, ◌||◌, Option, none, some, is_some, List, [],
  ◌∷◌, if◌then◌else◌, arith,
}
use taskchampion_sync_server.Prelude.Int.{ℤ}
use taskchampion_sync_server.Core.Types.{ServerConfig}
use taskchampion_sync_server.Core.Txn.{Outcome, ok, panic}
use taskchampion_sync_server.Core.Urgency.{default_config}
use taskchampion_sync_server.Api.Handlers.{ServerState}
use taskchampion_sync_server.Sqlite.{SqliteTxn, sqlite, new as open_tables}
use taskchampion_sync_server.Sqlite.Columns.{Crates}
use taskchampion_sync_server.Sqlite.Tables.{Database}
use taskchampion_sync_server.Web.{new as web_server}
use taskchampion_sync_server.CommandLine.{ValueType, Value, Arg, Clap, command, prepare, main}

abbrev pub same_type : ValueType → ValueType → Bool
same_type ValueType.string ValueType.string = true
same_type ValueType.os_string ValueType.os_string = true
same_type ValueType.uuid ValueType.uuid = true
same_type ValueType.u32 ValueType.u32 = true
same_type ValueType.i64 ValueType.i64 = true
same_type ValueType.str_ref ValueType.str_ref = true
same_type a b = false

-- the argument of a name
abbrev pub declared : List Arg → String → Option Arg
declared [] name = none
declared (arg ∷ rest) name = if str_eq arg.long name then some arg else declared rest name

-- What the documentation of clap says of the values of a command line that it accepts: a value is had by
-- the type that its argument declares, a list may be absent, and to ask for another type panics. A
-- value that is not on the command line is the argument's default, parsed.
pub record Documented {M : Type 0} (clap : Clap M) (args : List Arg) : Type 0 where
  pub on_line : M → String → Bool
  pub parse_value : (t : ValueType) → String → Option (Value t)
  pub parse_u32 : (n : ℕ) → n < 2 ^ 32 → parse_value ValueType.u32 (clap.u32_to_string n) ≡ some n
  pub parse_i64 : (n : ℤ) → parse_value ValueType.i64 (clap.i64_to_string n) ≡ some n
  pub other_type :
      (line : List String) (m : M) (name : String) (arg : Arg) (t : ValueType)
      → clap.get_matches args line ≡ ok m
      → declared args name ≡ some arg
      → same_type t arg.value_type ≡ false
      → clap.get_many m t name ≡ panic
  pub given :
      (line : List String) (m : M) (name : String) (arg : Arg)
      → clap.get_matches args line ≡ ok m
      → declared args name ≡ some arg
      → (arg.required || is_some arg.default_value) ≡ true
      → (v : Value arg.value_type) × (clap.get_one m arg.value_type name ≡ ok (some v))
  pub listed :
      (line : List String) (m : M) (name : String) (arg : Arg)
      → clap.get_matches args line ≡ ok m
      → declared args name ≡ some arg
      → (vs : Option (List (Value arg.value_type))) × (clap.get_many m arg.value_type name ≡ ok vs)
        × (on_line m name ≡ false → arg.default_value ≡ none → vs ≡ none)
  pub by_default :
      (line : List String) (m : M) (name text : String) (arg : Arg) (v : Value arg.value_type)
      → clap.get_matches args line ≡ ok m
      → declared args name ≡ some arg
      → on_line m name ≡ false
      → arg.default_value ≡ some text
      → parse_value arg.value_type text ≡ some v
      → clap.get_one m arg.value_type name ≡ ok (some v)

config-eq :
    (a b : ServerConfig)
    → a.snapshot_days ≡ b.snapshot_days
    → a.snapshot_versions ≡ b.snapshot_versions
    → a ≡ b
config-eq a b days versions =
    ap (λ d. record { snapshot_days = d; snapshot_versions = a.snapshot_versions }) days
    ∙ ap (λ v. record { snapshot_days = b.snapshot_days; snapshot_versions = v }) versions

module _ {M : Type 0} (clap : Clap M) (doc : Documented clap (command clap)) (crates : Crates)
    (open_dir : String → Outcome String (Option Database))
    (bind : List String → String → Outcome String (List String)) (line : List String) (m : M)
    (accepted : clap.get_matches (command clap) line ≡ ok m) where
  -- Where the directory's database opens, the state of the server is prepared, from the values that
  -- were given.
  prepared :
      ((dir : String)
        → clap.get_one m ValueType.os_string "data-dir" ≡ ok (some dir)
        → (found : Option Database) × (open_dir dir ≡ ok found))
      → (server : ServerState Database SqliteTxn × Database) × (prepare clap crates open_dir bind m
          ≡ ok server)
        × (clap.get_one m ValueType.u32 "snapshot-versions"
            ≡ ok (some server.0.config.snapshot_versions))
        × (clap.get_one m ValueType.i64 "snapshot-days" ≡ ok (some server.0.config.snapshot_days))
        × (clap.get_many m ValueType.uuid "allow-client-id" ≡ ok server.0.client_id_allowlist)
  unfolding prepare command
  prepared opens =
      let dir = doc.given line m "data-dir" _ accepted refl refl in
      let versions = doc.given line m "snapshot-versions" _ accepted refl refl in
      let days = doc.given line m "snapshot-days" _ accepted refl refl in
      let ids = doc.listed line m "allow-client-id" _ accepted refl in
      let tables = opens dir.0 dir.1 in
      let config : ServerConfig = record {
        snapshot_days = days.0;
        snapshot_versions = versions.0;
      } in
      let server : ServerState Database SqliteTxn × Database =
        (web_server config ids.0 (sqlite crates), open_tables tables.0) in
      (server, rw (dir.1, versions.1, days.1, ids.1, tables.1) refl, versions.1, days.1, ids.1)

  -- With a command line that clap accepts and a directory whose database opens, the server is prepared,
  -- and where the options are not given it has the defaults: 14 days and 100 versions between snapshots,
  -- and every client is allowed.
  pub defaults_apply :
      ((dir : String)
        → clap.get_one m ValueType.os_string "data-dir" ≡ ok (some dir)
        → (found : Option Database) × (open_dir dir ≡ ok found))
      → doc.on_line m "snapshot-versions" ≡ false
      → doc.on_line m "snapshot-days" ≡ false
      → doc.on_line m "allow-client-id" ≡ false
      → (found : Database) × (server : ServerState Database SqliteTxn) × (prepare clap crates
            open_dir bind m
          ≡ ok (server, found))
        × (server.config ≡ default_config)
        × (server.client_id_allowlist ≡ none)
  unfolding command
  defaults_apply opens no_versions no_days no_ids =
      let ready = prepared opens in
      let versions =
        doc.by_default line m "snapshot-versions" _ _ default_config.snapshot_versions accepted refl
          no_versions refl (doc.parse_u32 100 (omega arith)) in
      let days =
        doc.by_default line m "snapshot-days" _ _ default_config.snapshot_days accepted refl no_days
          refl (doc.parse_i64 default_config.snapshot_days) in
      let ids = doc.listed line m "allow-client-id" _ accepted refl in
      (
        ready.0.1,
        ready.0.0,
        ready.1,
        config-eq ready.0.0.config default_config (cc (ready.3, days)) (cc (ready.2, versions)),
        cc (ready.4, ids.1, ids.2 no_ids refl),
      )

  -- With a command line that clap accepts and a directory whose database opens, the program panics before
  -- it serves anything: it asks for the addresses, declared as `String`, as `&str`.
  pub never_serves :
      ((dir : String)
        → clap.get_one m ValueType.os_string "data-dir" ≡ ok (some dir)
        → (found : Option Database) × (open_dir dir ≡ ok found))
      → main clap crates open_dir bind line ≡ panic
  unfolding main command
  never_serves opens =
      let ready = prepared opens in
      rw (accepted, ready.1, doc.other_type line m "listen" _ ValueType.str_ref accepted refl refl)
        refl
