-- ===== src/Tests/OnWeb.antt =====
-- The results about the routes and the start of the server, at concrete inputs.
use Prim.Native.Char.{code}
use Prim.Native.String.{String}
use text.Mathlib.Text.{◌==◌ as str_eq}
use taskchampion_sync_server.Prelude.{
  ◌==◌, ◌≡◌, refl, ap, sym, Bool, true, Option, none, some, List, [], ◌∷◌, if◌then◌else◌,
}
use taskchampion_sync_server.Prelude.Int.{ℤ, pos, negsuc}
use taskchampion_sync_server.Core.Txn.{Outcome, ok, err, panic}
use taskchampion_sync_server.Core.Urgency.{default_config}
use taskchampion_sync_server.Core.InMemory.{InMemoryStorage}
use taskchampion_sync_server.Core.InMemory.Fulfils.{in_memory-Contract}
use taskchampion_sync_server.Api.Http.{client_id_header}
use taskchampion_sync_server.Api.Handlers.{ServerState}
use taskchampion_sync_server.Sqlite.{SqliteTxn}
use taskchampion_sync_server.Sqlite.Tables.{Database}
use taskchampion_sync_server.Web.{Actix, Method, WebRequest, WebResponse, header, respond}
use taskchampion_sync_server.Web.Headers.{no_store, every_response_no_store}
use taskchampion_sync_server.Web.Safe.{SameStored, not_post_keeps}
use taskchampion_sync_server.CommandLine.{ValueType, Value, Arg, Clap, command, prepare, main}
use taskchampion_sync_server.CommandLine.Start.{
  same_type, declared, Documented, defaults_apply, never_serves,
}
use taskchampion_sync_server.Tests.Samples.{
  count, env_at, ops, state, request, second, second_world, second-Holds,
}
use taskchampion_sync_server.Tests.OnSqlite.{crates, spell, count-spell}

abbrev actix : Actix
actix = record {
  match_path = λ route path. if str_eq route path then some "x" else none;
  error_response = λ e. record { status = 400; content_type = none; headers = []; body = [] };
}

abbrev snapshot_request : Method → WebRequest
snapshot_request method = record {
  method = method;
  path = "/v1/client/snapshot";
  http = request "text/plain";
  payload = [];
}

not_post_keeps_example :
    (out : Option WebResponse × InMemoryStorage) × (respond actix [] ops state 2
        (λ i. env_at i 0)
        (snapshot_request Method.get)
        second
      ≡ some out)
    × SameStored actix [] ops state in_memory-Contract 2
        (λ i. env_at i 0)
        second
        second_world
        second-Holds
        out.1
not_post_keeps_example =
    not_post_keeps actix [] ops state in_memory-Contract 2 (λ i. env_at i 0) second second_world
      second-Holds (snapshot_request Method.get) refl

-- The client has no snapshot yet.
abbrev no_snapshot : WebResponse
no_snapshot = record {
  status = 400;
  content_type = none;
  headers = ("Cache-Control", "no-store, max-age=0") ∷ [];
  body = [];
}

every_response_no_store_example : header "Cache-Control" no_snapshot.headers ≡ some no_store
unfolding respond taskchampion_sync_server.Web.find_route taskchampion_sync_server.Web.serve
    taskchampion_sync_server.Api.Handlers.get_snapshot_service
    taskchampion_sync_server.Core.Server.add_version client_id_header
    taskchampion_sync_server.Core.InMemory.txn taskchampion_sync_server.Core.Server.get_snapshot
    taskchampion_sync_server.Api.Handlers.create_client taskchampion_sync_server.Core.InMemory.drop
    taskchampion_sync_server.Core.InMemory.new_client taskchampion_sync_server.Core.InMemory.commit
    taskchampion_sync_server.Core.Server.add_version_in
    taskchampion_sync_server.Core.InMemory.get_client
    taskchampion_sync_server.Core.InMemory.add_version
    taskchampion_sync_server.Core.Server.get_snapshot_in
every_response_no_store_example =
    every_response_no_store actix [] ops state 2 (λ i. env_at i 0) (λ e. refl)
      (snapshot_request Method.get) second second no_snapshot refl

-- Command lines of addresses to listen on. A number is written as so many letters.
abbrev Matches : Type 0
Matches = List Arg × List String

abbrev i64_text : ℤ → String
i64_text (pos n) = String.◌∷◌ "p" (spell n)
i64_text (negsuc n) = String.◌∷◌ "m" (spell n)

abbrev i64_value : String → Option ℤ
i64_value String.[] = none
i64_value (String.◌∷◌ ch rest) =
    some (if code ch == code "p" then pos (count rest) else negsuc (count rest))

abbrev parse_value : (t : ValueType) → String → Option (Value t)
parse_value ValueType.string text = some text
parse_value ValueType.os_string text = some text
parse_value ValueType.uuid text = some (count text)
parse_value ValueType.u32 text = some (count text)
parse_value ValueType.i64 text = i64_value text
parse_value ValueType.str_ref text = some text

abbrev fallback : (t : ValueType) → Value t
fallback ValueType.string = ""
fallback ValueType.os_string = ""
fallback ValueType.uuid = 0
fallback ValueType.u32 = 0
fallback ValueType.i64 = pos 0
fallback ValueType.str_ref = ""

abbrev or_else : {A : Type 0} → A → Option A → A
or_else a none = a
or_else a (some b) = b

abbrev default_of : (t : ValueType) → Option String → Value t
default_of t none = fallback t
default_of t (some text) = or_else (fallback t) (parse_value t text)

abbrev typed : {A : Type 0} → ValueType → Option Arg → (Arg → A) → Outcome String A
typed t none f = panic
typed t (some arg) f = if same_type t arg.value_type then ok (f arg) else panic

abbrev on_line : String → Bool
on_line name = str_eq name "listen"

abbrev clap : Clap Matches
clap = record {
  get_matches =
      λ args line. elim line [ [] ↦ err "--listen is missing" | a ∷ l ↦ ok (args, a ∷ l) ];
  get_one = λ m t name. typed t (declared m.0 name) λ arg. some (default_of t arg.default_value);
  get_many = λ m t name. typed t (declared m.0 name) λ arg. if on_line name then some [] else none;
  u32_to_string = spell;
  i64_to_string = i64_text;
}

same_type_refl : (t : ValueType) → same_type t t ≡ true
same_type_refl ValueType.string = refl
same_type_refl ValueType.os_string = refl
same_type_refl ValueType.uuid = refl
same_type_refl ValueType.u32 = refl
same_type_refl ValueType.i64 = refl
same_type_refl ValueType.str_ref = refl

matched-args :
    (args : List Arg) (line : List String) (m : Matches)
    → clap.get_matches args line ≡ ok m
    → m.0 ≡ args
matched-args args [] m e = absurd (cc e)
matched-args args (a ∷ l) m e = let same : (args, a ∷ l) ≡ m = cc e in ap (λ x. x.0) (sym same)

i64_value-text : (n : ℤ) → i64_value (i64_text n) ≡ some n
i64_value-text (pos n) = rw (count-spell n) refl
i64_value-text (negsuc n) = rw (count-spell n) refl

abbrev documented : Documented clap (command clap)
documented = record {
  on_line = λ m name. on_line name;
  parse_value = parse_value;
  parse_u32 = λ n fits. ap (λ k. some k) (count-spell n);
  parse_i64 = i64_value-text;
  other_type = λ line m name arg t accepted found other.
      rw (matched-args _ line m accepted, found, other) refl;
  given = λ line m name arg accepted found must. (
    default_of arg.value_type arg.default_value,
    rw (matched-args _ line m accepted, found, same_type_refl arg.value_type) refl,
  );
  listed = λ line m name arg accepted found. (
    if on_line name then some [] else none,
    rw (matched-args _ line m accepted, found, same_type_refl arg.value_type) refl,
    λ absent no_default. rw absent refl,
  );
  by_default = λ line m name text arg v accepted found absent default parsed.
      rw (matched-args _ line m accepted, found, same_type_refl arg.value_type, default, parsed)
        refl;
}

abbrev line : List String
line = "localhost:8080" ∷ []

abbrev open_dir : String → Outcome String (Option Database)
open_dir dir = ok none

abbrev bind : List String → String → Outcome String (List String)
bind bound address = ok (address ∷ bound)

abbrev matches : Matches
matches = (command clap, line)

never_serves_example : main clap crates open_dir bind line ≡ panic
never_serves_example =
    never_serves clap documented crates open_dir bind line matches refl λ dir e. (none, refl)

defaults_apply_example :
    (found : Database) × (server : ServerState Database SqliteTxn) × (prepare clap crates open_dir
        bind matches
      ≡ ok (server, found))
    × (server.config ≡ default_config)
    × (server.client_id_allowlist ≡ none)
defaults_apply_example =
    defaults_apply clap documented crates open_dir bind line matches refl (λ dir e. (none, refl))
      refl refl refl
