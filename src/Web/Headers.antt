-- ===== src/Web/Headers.antt =====
-- The header that forbids to keep an answer, which `WebServer::config` of server/src/lib.rs sets.
use Prim.Native.String.{String}
use text.Mathlib.Text.{◌==◌ as str_eq}
use taskchampion_sync_server.Prelude.{
  ℕ, ◌≡◌, refl, subst, Option, none, some, List, [], ◌∷◌, ◌++◌, Bool-cases, inl, inr,
}
use taskchampion_sync_server.Core.Types.{Uuid, Bytes}
use taskchampion_sync_server.Core.Txn.{Outcome, ok, err, panic}
use taskchampion_sync_server.Core.Server.{Env}
use taskchampion_sync_server.Api.Http.{TextOps, HttpResponse, HttpError}
use taskchampion_sync_server.Api.Handlers.{ServerState}
use taskchampion_sync_server.Web.{
  Actix, Endpoint, services, WebRequest, WebResponse, find_route, serve, respond, with_id, answer,
  dispatch, header, default_header, cache_control, from_response,
}
use taskchampion_sync_server.Web.Plain.{
  name, IsPlainEnd, get_snapshot-IsPlain, get_child_version-IsPlain, add_snapshot-IsPlain,
  add_version-IsPlainEnd,
}

abbrev pub no_store : String
no_store = "no-store, max-age=0"

header-append :
    (l : List (String × String))
    → header name l ≡ none
    → header name (l ++ cache_control ∷ []) ≡ some no_store
header-append [] e = refl
header-append ((n, value) ∷ rest) e = elim (Bool-cases (str_eq n name)) [
  | inl same ↦ absurd (cc (rw same at e))
  | inr other ↦ rw other (header-append rest (rw other at e))
]

default_header-header :
    (response : WebResponse)
    → header name response.headers ≡ none
    → header name (default_header cache_control response).headers ≡ some no_store
default_header-header response e = rw (default_header, e) (header-append response.headers e)

module _ {S T : Type 0} (actix : Actix) (version : Bytes) (ops : TextOps) (state : ServerState S T)
    (fuel : ℕ) (envs : ℕ → Env)
    (plain_errors : (e : HttpError) → header name (actix.error_response e).headers ≡ none) where
  with_id-IsPlainEnd :
      (service : Uuid → S → Option (Outcome HttpError HttpResponse × S)) (o : Option Uuid) (s : S)
      → ((id : Uuid) → IsPlainEnd (service id s))
      → IsPlainEnd (with_id actix version ops state fuel envs service o s)
  with_id-IsPlainEnd service none s plain = tt
  with_id-IsPlainEnd service (some id) s plain = plain id

  serve-IsPlainEnd :
      (endpoint : Endpoint) (text : String) (req : WebRequest) (s : S)
      → IsPlainEnd (serve actix version ops state fuel envs endpoint text req s)
  unfolding serve
  serve-IsPlainEnd Endpoint.index text req s = refl
  serve-IsPlainEnd Endpoint.get_child_version text req s =
      with_id-IsPlainEnd _ (ops.parse_str text) s
        λ id. get_child_version-IsPlain ops state req.http id s
  serve-IsPlainEnd Endpoint.add_version text req s =
      with_id-IsPlainEnd _ (ops.parse_str text) s
        λ id. add_version-IsPlainEnd ops state fuel envs req.http id req.payload s
  serve-IsPlainEnd Endpoint.get_snapshot text req s = get_snapshot-IsPlain ops state req.http s
  serve-IsPlainEnd Endpoint.add_snapshot text req s =
      with_id-IsPlainEnd _ (ops.parse_str text) s
        λ id. add_snapshot-IsPlain ops state (envs 0) id req.http req.payload s

  -- The response, if there is one, has the header.
  abbrev HasHeader : Option (Option WebResponse × S) → Type 0
  HasHeader none = Unit
  HasHeader (some (none, s)) = Unit
  HasHeader (some (some response, s)) = header name response.headers ≡ some no_store

  answer-HasHeader :
      (o : Option (Outcome HttpError HttpResponse × S))
      → IsPlainEnd o
      → HasHeader (answer actix version ops state fuel envs o)
  answer-HasHeader none plain = tt
  answer-HasHeader (some (ok response, s)) plain =
      default_header-header (from_response actix version response) plain
  answer-HasHeader (some (err e, s)) plain =
      default_header-header (actix.error_response e) (plain_errors e)
  answer-HasHeader (some (panic, s)) plain = tt

  dispatch-HasHeader :
      (found : Option (Endpoint × String)) (req : WebRequest) (s : S)
      → HasHeader (dispatch actix version ops state fuel envs found req s)
  dispatch-HasHeader none req s = answer-HasHeader (some (err (HttpError.not_found ""), s)) tt
  dispatch-HasHeader (some (endpoint, text)) req s =
      answer-HasHeader _ (serve-IsPlainEnd endpoint text req s)

  -- Every response, of whatever service and with whatever status, forbids caches to keep it: its header
  -- Cache-Control is "no-store, max-age=0", where the crate's own responses for errors do not set that
  -- header.
  pub every_response_no_store :
      (req : WebRequest) (s s' : S) (response : WebResponse)
      → respond actix version ops state fuel envs req s ≡ some (some response, s')
      → header name response.headers ≡ some no_store
  unfolding respond
  every_response_no_store req s s' response e =
      subst HasHeader e (dispatch-HasHeader (find_route actix version services req) req s)
