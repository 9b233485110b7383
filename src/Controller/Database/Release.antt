-- ===== src/Controller/Database/Release.antt =====
-- Where the deletion of a database in internal/controller/database_controller.go ends, against an
-- API server that stores what it is sent and brokers that answer.
use kidp.Prelude.{String, ◌<>◌, ◌≡◌, ◌⊎◌, true}
use kidp.Prelude.{Option, none, some, ◌∷◌, arith}
use kidp.Result.{ok, Error}
use kidp.Api.Broker.{Broker}
use kidp.Api.Database.{Database}
use kidp.Registry.{Registry}
use kidp.BrokerClient.Types.{DeprovisionRequest, DeprovisionResponse}
use kidp.BrokerCalls.{deprovision, post_request, is_success}
use kidp.Client.{Env, Run, History, HttpRequest, HttpResponse, http, update, database, finished}
use kidp.Controller.Database.{
  finalizer_name, with_meta, deprovisioning_broker, cleanup_database, deprovision_request,
  handle_deletion,
}

-- The broker lets the database go: the request to it can be marshalled and made, and it answers
-- with success and a body that can be decoded.
pub record Agrees (env : Env) (db : Database) (b : Broker) (h : History) : Type 0 where
  pub body : String
  pub response : HttpResponse
  pub answer : DeprovisionResponse
  pub marshalled : env.marshal_deprovision (deprovision_request env db) ≡ ok body
  pub made : env.new_request "POST" (b.spec.endpoint <> "/v1/deprovision") ≡ none
  pub sent : env.send h (post_request (b.spec.endpoint <> "/v1/deprovision") body) ≡ ok response
  pub accepted : is_success response.status_code ≡ true
  pub decoded : env.decode_deprovision response.body ≡ ok answer

-- The broker that the cleanup finds for the database, the recorded one or else a selected one, lets
-- it go.
abbrev pub Releasing : Env → Option Registry → Database → Run → Type 0
Releasing env held db s =
    (g : Registry) (b : Broker)
    → held ≡ some g
    → (deprovisioning_broker env g db s).0 ≡ some b
    → Agrees env db b s.calls

-- At most one request to a broker.
abbrev pub AsksOnce : History → History → Type 0
AsksOnce before after = (after ≡ before) ⊎ ((r : HttpRequest) × (after ≡ http r ∷ before))

module _ (env : Env) where
  -- A cleanup without an error.
  abbrev Cleaned : Run → Option Error × Run → Type 0
  Cleaned s r = (r.0 ≡ none) × AsksOnce s.calls r.1.calls

  pub answered :
      (url body : String) (req : DeprovisionRequest) (s : Run) (resp : HttpResponse)
      (a : DeprovisionResponse)
      → env.marshal_deprovision req ≡ ok body
      → env.new_request "POST" (url <> "/v1/deprovision") ≡ none
      → env.send s.calls (post_request (url <> "/v1/deprovision") body) ≡ ok resp
      → is_success resp.status_code ≡ true
      → env.decode_deprovision resp.body ≡ ok a
      → deprovision env url req s
        ≡ (ok a, record s { calls = http (post_request (url <> "/v1/deprovision") body) ∷ s.calls })
  unfolding deprovision
  answered url body req s resp a m n sent good decoded = ground arith

module _ (env : Env) (db : Database) where
  -- What the write without the finalizer stores.
  abbrev pub without_finalizer : Database
  without_finalizer = with_meta (env.remove_finalizer db.meta finalizer_name) db

  pub handle_deletion_ends :
      (s : Run)
      → env.contains_finalizer db.meta finalizer_name ≡ true
      → (cleanup_database env db s).0 ≡ none
      → env.databases.update (cleanup_database env db s).1.calls without_finalizer
        ≡ ok without_finalizer
      → ((handle_deletion env db s).0 ≡ finished)
        × ((handle_deletion env db s).1.calls
            ≡ update (database without_finalizer) ∷ (cleanup_database env db s).1.calls)
  unfolding handle_deletion
  handle_deletion_ends s there clean kept = (ground arith, ground arith)
