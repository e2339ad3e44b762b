-- ===== src/Web/Safe.antt =====
-- Requests that are not POST change nothing.
use Prim.Native.String.{String}
use taskchampion_sync_server.Prelude.{
  ℕ, ◌≡◌, refl, subst, Bool, true, false, Option, none, some, Option-cases, Bool-cases, sym, ◌∙◌,
  inl, inr, List, [], ◌∷◌,
}
use taskchampion_sync_server.Core.Types.{Uuid, Bytes, ClientId}
use taskchampion_sync_server.Core.Txn.{Outcome, ok, err, panic, continue, ◌>>=◌}
use taskchampion_sync_server.Core.Storage.Contract.{Contract}
use taskchampion_sync_server.Core.Server.{Env, get_snapshot, get_child_version}
use taskchampion_sync_server.Core.Server.GetChildVersion.{get_child_version-refines}
use taskchampion_sync_server.Core.Server.GetSnapshot.{get_snapshot-refines}
use taskchampion_sync_server.Core.History.Calls.{World}
use taskchampion_sync_server.Core.Protocol.{Holds}
use taskchampion_sync_server.Api.Http.{
  TextOps, HttpRequest, HttpResponse, HttpError, client_id_header,
}
use taskchampion_sync_server.Api.Handlers.{
  ServerState, get_snapshot_service, get_child_version_service, lift, served, snapshot_response,
  respond_child,
}
use taskchampion_sync_server.Web.{
  Actix, Method, is_method, Endpoint, Route, services, WebRequest, WebResponse, find_route, serve,
  respond, with_id, answer, dispatch,
}

abbrev reads : Endpoint → Bool
reads Endpoint.index = true
reads Endpoint.get_child_version = true
reads Endpoint.get_snapshot = true
reads Endpoint.add_version = false
reads Endpoint.add_snapshot = false

-- where a route is found, its service only reads
abbrev OnlyReads : Option (Endpoint × String) → Type 0
OnlyReads none = Unit
OnlyReads (some (endpoint, text)) = reads endpoint ≡ true

-- The routes of a method only read.
abbrev AllRead : List Route → Method → Type 0
AllRead [] m = Unit
AllRead (route ∷ rest) m =
    (is_method route.method m ≡ true → reads route.endpoint ≡ true) × AllRead rest m

find_route-OnlyReads :
    (actix : Actix) (version : Bytes) (routes : List Route) (req : WebRequest)
    → AllRead routes req.method
    → OnlyReads (find_route actix version routes req)
unfolding find_route
find_route-OnlyReads actix version [] req all = tt
find_route-OnlyReads actix version (route ∷ rest) req all =
    let later = find_route-OnlyReads actix version rest req all.1 in
    elim (Bool-cases (is_method route.method req.method)) [
      | inl same ↦ elim (Option-cases (actix.match_path route.path req.path)) [
        | inl absent ↦ rw (same, absent) later
        | inr (text, found) ↦ rw (same, found) (all.0 same)
      ]
      | inr other ↦ rw other later
    ]

services-AllRead : (m : Method) → is_method Method.post m ≡ false → AllRead services m
services-AllRead m not_post = (λ e. refl, (λ e. refl, (never, (λ e. refl, (never, tt)))))
  where
    never : is_method Method.post m ≡ true → false ≡ true
    never e = sym not_post ∙ e

module _ {S T : Type 0} (actix : Actix) (version : Bytes) (ops : TextOps) (state : ServerState S T)
    (k : Contract state.storage) (fuel : ℕ) (envs : ℕ → Env) (s : S) (w : World)
    (holds : Holds k s w) where
  -- The storage is ready and holds what it did.
  abbrev pub SameStored : S → Type 0
  SameStored s' = k.Ready s' × (k.stored s' ≡ k.stored s)

  abbrev Keeps : {A : Type 0} → Option (A × S) → Type 0
  Keeps {A} o = (out : A × S) × (o ≡ some out) × SameStored out.1

  untouched : SameStored s
  untouched = (holds.ready, refl)

  snapshot-Keeps : (req : HttpRequest) → SameStored (get_snapshot_service ops state req s).1
  unfolding get_snapshot_service
  snapshot-Keeps req = go (client_id_header ops state.client_id_allowlist req)
    where
      after_reply :
          (r : Outcome HttpError (Option (Uuid × Bytes))) (s' : S)
          → SameStored s'
          → SameStored (continue r (λ found. lift (snapshot_response ops found)) s').1
      after_reply (ok found) s' same = same
      after_reply (err e) s' same = same
      after_reply panic s' same = same

      go :
          (r : Outcome HttpError ClientId)
          → SameStored
              (continue r
                (λ client_id. served (get_snapshot state.storage client_id) >>= λ found.
                  lift (snapshot_response ops found))
                s).1
      go (ok client_id) =
          let ends = get_snapshot-refines k s w client_id holds.ready holds.same in
          after_reply _ _ (ends.1, rw (ends.2, holds.same))
      go (err e) = untouched
      go panic = untouched

  child-Keeps :
      (req : HttpRequest) (p : Uuid) → SameStored (get_child_version_service ops state req p s).1
  unfolding get_child_version_service
  child-Keeps req p = go (client_id_header ops state.client_id_allowlist req)
    where
      go :
          (r : Outcome HttpError ClientId)
          → SameStored
              (continue r
                (λ client_id. respond_child ops state (get_child_version state.storage client_id p))
                s).1
      go (ok client_id) =
          let ends =
            get_child_version-refines k s w client_id p holds.ready holds.same holds.valid in
          (ends.1, rw (ends.2, holds.same))
      go (err e) = untouched
      go panic = untouched

  with_id-Keeps :
      (service : Uuid → S → Option (Outcome HttpError HttpResponse × S)) (o : Option Uuid)
      → ((id : Uuid) → Keeps (service id s))
      → Keeps (with_id actix version ops state fuel envs service o s)
  with_id-Keeps service none keeps = (_, refl, untouched)
  with_id-Keeps service (some id) keeps = keeps id

  serve-Keeps :
      (endpoint : Endpoint) (text : String) (req : WebRequest)
      → reads endpoint ≡ true
      → Keeps (serve actix version ops state fuel envs endpoint text req s)
  unfolding serve
  serve-Keeps Endpoint.index text req e = (_, refl, untouched)
  serve-Keeps Endpoint.get_child_version text req e =
      with_id-Keeps _ (ops.parse_str text) λ id. (_, refl, child-Keeps req.http id)
  serve-Keeps Endpoint.get_snapshot text req e = (_, refl, snapshot-Keeps req.http)
  serve-Keeps Endpoint.add_version text req e = absurd (cc e)
  serve-Keeps Endpoint.add_snapshot text req e = absurd (cc e)

  answer-Keeps :
      (o : Option (Outcome HttpError HttpResponse × S))
      → Keeps o
      → Keeps (answer actix version ops state fuel envs o)
  answer-Keeps none (out, e, same) = absurd (cc e)
  answer-Keeps (some (r, s')) (out, e, same) =
      let same_pair : (r, s') ≡ out = cc e in
      (_, refl, subst (λ x. SameStored x.1) (sym same_pair) same)

  dispatch-Keeps :
      (found : Option (Endpoint × String)) (req : WebRequest)
      → OnlyReads found
      → Keeps (dispatch actix version ops state fuel envs found req s)
  dispatch-Keeps none req only =
      answer-Keeps (some (err (HttpError.not_found ""), s)) (_, refl, untouched)
  dispatch-Keeps (some (endpoint, text)) req only =
      answer-Keeps _ (serve-Keeps endpoint text req only)

  -- On a storage that holds lines of versions, a request with another method than POST comes to an end,
  -- and what the storage holds stays.
  pub not_post_keeps :
      (req : WebRequest)
      → is_method Method.post req.method ≡ false
      → (out : Option WebResponse × S) × (respond actix version ops state fuel envs req s
          ≡ some out)
        × SameStored out.1
  unfolding respond
  not_post_keeps req not_post =
      dispatch-Keeps (find_route actix version services req) req
        (find_route-OnlyReads actix version services req (services-AllRead req.method not_post))
