-- ===== src/Tests/OnServed.antt =====
-- The tests of server/src pass, with a crate actix-web that matches paths up to their last part and makes
-- the responses of errors that its documentation names.
use Prim.Native.Char.{code}
use Prim.Native.String.{String}
use taskchampion_sync_server.Prelude.{
  ℕ, ◌+◌, ◌-◌, ◌==◌, ◌≡◌, refl, Option, none, some, [], length, if◌then◌else◌,
}
use taskchampion_sync_server.Core.Txn.{ok}
use taskchampion_sync_server.Core.InMemory.{new}
use taskchampion_sync_server.Core.Server.Tested.{Fixture}
use taskchampion_sync_server.Api.Http.{TextOps, HttpError}
use taskchampion_sync_server.Web.{Actix, WebResponse}
use taskchampion_sync_server.Web.Tested.{
  test_cache_control, test_index_get, client_id_header_allow_all, client_id_header_allow_list,
}
use taskchampion_sync_server.Web.Tested.GetChildVersion as Child
use taskchampion_sync_server.Web.Tested.AddVersion as Version
use taskchampion_sync_server.Web.Tested.AddSnapshot as Snapshot
use taskchampion_sync_server.Web.Tested.GetSnapshot as Found
use taskchampion_sync_server.Tests.Samples.{count, env_at}
use taskchampion_sync_server.Tests.OnSqlite.{spell}

abbrev match_path : String → String → Option String
match_path String.[] String.[] = some ""
match_path String.[] (String.◌∷◌ c path) = none
match_path (String.◌∷◌ c route) String.[] = if code c == code "{" then some "" else none
match_path (String.◌∷◌ c route) (String.◌∷◌ d path) =
    if code c == code "{"
    then some (String.◌∷◌ d path)
    else if code c == code d
    then match_path route path
    else none

abbrev status_of : HttpError → ℕ
status_of (HttpError.bad_request text) = 400
status_of (HttpError.forbidden text) = 403
status_of (HttpError.not_found text) = 404
status_of (HttpError.gone text) = 410
status_of (HttpError.internal_server_error e) = 500
status_of (HttpError.payload e) = 400

abbrev actix : Actix
actix = record {
  match_path = match_path;
  error_response =
      λ e. record { status = status_of e; content_type = none; headers = []; body = [] };
}

abbrev ops : TextOps
ops = record {
  to_str = λ bytes. some (spell (length bytes));
  parse_str = λ text. some (count text);
  to_string = spell;
}

abbrev fixture : Fixture
fixture = record {
  client_id = 3;
  fresh = λ i. 4 + i;
  days_ago = λ n. 1000 - n;
  env = λ id. env_at id 1000;
}

tested_server :
    ((test_cache_control actix [] ops fixture new).0 ≡ ok tt)
    × ((test_index_get actix [] ops fixture new).0 ≡ ok tt)
    × ((client_id_header_allow_all actix [] ops fixture new).0 ≡ ok tt)
    × ((client_id_header_allow_list actix [] ops fixture new).0 ≡ ok tt)
unfolding taskchampion_sync_server.Web.respond taskchampion_sync_server.Web.find_route
    taskchampion_sync_server.Web.serve taskchampion_sync_server.Api.Http.client_id_header
tested_server = (refl, refl, refl, refl)

tested_get_child_version :
    ((Child.test_success actix [] ops fixture new).0 ≡ ok tt)
    × ((Child.test_client_not_found actix [] ops fixture new).0 ≡ ok tt)
    × ((Child.test_version_not_found_and_gone actix [] ops fixture new).0 ≡ ok tt)
unfolding taskchampion_sync_server.Core.InMemory.txn taskchampion_sync_server.Core.InMemory.drop
    taskchampion_sync_server.Core.InMemory.new_client
    taskchampion_sync_server.Core.InMemory.add_version taskchampion_sync_server.Core.InMemory.commit
    taskchampion_sync_server.Web.respond taskchampion_sync_server.Web.find_route
    taskchampion_sync_server.Web.serve
    taskchampion_sync_server.Api.Handlers.get_child_version_service
    taskchampion_sync_server.Api.Http.client_id_header
    taskchampion_sync_server.Core.Server.get_child_version
    taskchampion_sync_server.Core.Server.get_child_version_in
    taskchampion_sync_server.Core.InMemory.get_client
    taskchampion_sync_server.Core.InMemory.get_version_by_parent
tested_get_child_version = (refl, refl, refl)

tested_add_version :
    ((Version.test_success actix [] ops fixture new).0 ≡ ok tt)
    × ((Version.test_auto_add_client actix [] ops fixture new).0 ≡ ok tt)
    × ((Version.test_conflict actix [] ops fixture new).0 ≡ ok tt)
    × ((Version.test_bad_content_type actix [] ops fixture new).0 ≡ ok tt)
    × ((Version.test_empty_body actix [] ops fixture new).0 ≡ ok tt)
unfolding taskchampion_sync_server.Core.InMemory.txn taskchampion_sync_server.Core.InMemory.drop
    taskchampion_sync_server.Core.InMemory.new_client taskchampion_sync_server.Core.InMemory.commit
    taskchampion_sync_server.Core.InMemory.get_client
    taskchampion_sync_server.Core.InMemory.add_version taskchampion_sync_server.Web.respond
    taskchampion_sync_server.Web.find_route taskchampion_sync_server.Web.serve
    taskchampion_sync_server.Api.Http.client_id_header
    taskchampion_sync_server.Core.Server.add_version
    taskchampion_sync_server.Core.Server.add_version_in taskchampion_sync_server.Core.Server.urgency
    taskchampion_sync_server.Api.Handlers.add_version_service
    taskchampion_sync_server.Api.Handlers.add_version_loop
    taskchampion_sync_server.Api.Handlers.add_version_request
    taskchampion_sync_server.Api.Handlers.attempt
    taskchampion_sync_server.Api.Handlers.create_client
    taskchampion_sync_server.Api.Body.read_history_segment
    taskchampion_sync_server.Api.Body.read_from taskchampion_sync_server.Core.Urgency.max_urgency
tested_add_version = (refl, refl, refl, refl, refl)

tested_add_snapshot :
    ((Snapshot.test_success actix [] ops fixture new).0 ≡ ok tt)
    × ((Snapshot.test_not_added_200 actix [] ops fixture new).0 ≡ ok tt)
    × ((Snapshot.test_bad_content_type actix [] ops fixture new).0 ≡ ok tt)
    × ((Snapshot.test_empty_body actix [] ops fixture new).0 ≡ ok tt)
unfolding taskchampion_sync_server.Core.InMemory.txn taskchampion_sync_server.Core.InMemory.drop
    taskchampion_sync_server.Core.InMemory.new_client taskchampion_sync_server.Core.InMemory.commit
    taskchampion_sync_server.Core.InMemory.get_client
    taskchampion_sync_server.Core.InMemory.add_version taskchampion_sync_server.Web.respond
    taskchampion_sync_server.Web.find_route taskchampion_sync_server.Web.serve
    taskchampion_sync_server.Api.Http.client_id_header
    taskchampion_sync_server.Core.InMemory.set_snapshot
    taskchampion_sync_server.Core.InMemory.get_snapshot_data
    taskchampion_sync_server.Core.InMemory.get_version
    taskchampion_sync_server.Core.Server.add_snapshot
    taskchampion_sync_server.Core.Server.add_snapshot_in taskchampion_sync_server.Core.Server.search
    taskchampion_sync_server.Core.Server.store_snapshot
    taskchampion_sync_server.Core.Server.get_snapshot
    taskchampion_sync_server.Core.Server.get_snapshot_in
    taskchampion_sync_server.Api.Handlers.add_snapshot_service
    taskchampion_sync_server.Api.Handlers.get_snapshot_service
    taskchampion_sync_server.Api.Body.read_snapshot_body taskchampion_sync_server.Api.Body.read_from
tested_add_snapshot = (refl, refl, refl, refl)

tested_get_snapshot :
    ((Found.test_not_found actix [] ops fixture new).0 ≡ ok tt)
    × ((Found.test_success actix [] ops fixture 5 new).0 ≡ ok tt)
unfolding taskchampion_sync_server.Core.InMemory.txn taskchampion_sync_server.Core.InMemory.drop
    taskchampion_sync_server.Core.InMemory.new_client taskchampion_sync_server.Core.InMemory.commit
    taskchampion_sync_server.Web.respond taskchampion_sync_server.Web.find_route
    taskchampion_sync_server.Web.serve taskchampion_sync_server.Api.Handlers.get_snapshot_service
    taskchampion_sync_server.Api.Http.client_id_header
    taskchampion_sync_server.Core.Server.get_snapshot
    taskchampion_sync_server.Core.Server.get_snapshot_in
    taskchampion_sync_server.Core.InMemory.get_client
    taskchampion_sync_server.Core.InMemory.set_snapshot
    taskchampion_sync_server.Core.InMemory.get_snapshot_data
tested_get_snapshot = (refl, refl)
