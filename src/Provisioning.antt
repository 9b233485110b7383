-- ===== src/Provisioning.antt =====
-- The program put together: a database from its creation until it is in use. The reconciliations of
-- internal/controller/database_controller.go hand it to a broker, whose callback
-- (pkg/broker/callback.go) reaches the manager (internal/webhook/server.go).
use kidp.Prelude.{String, ◌≡◌, ◌≢◌, sym, subst, ◌∙◌, ap, ◌⊎◌, Bool, true, arith}
use kidp.Prelude.{Option, none, some, List, In}
use kidp.Result.{ok, Error}
use kidp.Api.Meta.{Time, ObjectKey}
use kidp.Api.Broker.{Broker}
use kidp.Api.Database.{Database}
use kidp.Api.Tenant.{Tenant}
use kidp.Registry.{Registry, list_brokers}
use kidp.Registry.Choice.{Reorders}
use kidp.Registry.Available.{Available}
use kidp.Registry.Matching.{Suits}
use kidp.Resolver.{reader_at, resolve_tenant}
use kidp.Client.{Env, Run, History, database, finished}
use kidp.Client.Documented.{FinalizerLaws, AddKeeps}
use kidp.Callbacks.{CallbackRequest, Codec, CodecLaws}
use kidp.Webhook.{Response, updated}
use kidp.Webhook.Admission.{Timely}
use kidp.Webhook.Effects.{First}
use kidp.Webhook.Serving.{serve, callback_patterns}
use kidp.Notify.{Host, Log, sender_name, sign_callback, notify_status}
use kidp.Notify.Signing.{received}
use kidp.Notify.Delivery.{first_request, response_of, notify_status-serve}
use kidp.Controller.Database.{criteria_for, discovery_at}
use kidp.Controller.Database.Convergence.{stored, Stores, Accepting, Deployed}
use kidp.Controller.Database.Liveness.{reconciled, reconciled-Ends}

-- The way of a request to the manager: the registered patterns, the answer to other paths, the
-- callback's URL and the path that it has for the server.
pub record Route : Type 0 where
  pub mux : List String → String → Option String
  pub unrouted : String → Response
  pub url : String
  pub path : String

-- The broker can send the callback, and the manager, in the state `s`, admits it.
pub record Delivers (env : Env) (host : Host) (codec : Codec) (way : Route)
    (payload : CallbackRequest) (s : Run) (log : Log) : Type 0 where
  pub body : String
  pub signature : String
  pub key : String
  pub time : Time
  pub broker : Broker
  pub marshalled : codec.marshal_callback payload ≡ ok body
  pub decoded : codec.decode_callback body ≡ ok payload
  pub made : host.new_request "POST" way.url ≡ none
  pub reaches :
      host.send log (first_request host codec way.url payload body log)
      ≡ ok (
          response_of
            (serve env codec way.mux way.unrouted way.path
              (received (first_request host codec way.url payload body log))
              s).0)
  pub routed : way.mux callback_patterns way.path ≡ some "/v1/callback"
  pub signed :
      sign_callback host codec body (codec.format_time (host.clock log)) ≡ ok (signature, key)
  pub stamped : codec.format_time (host.clock log) ≢ ""
  pub parsed : codec.parse_time (codec.format_time (host.clock log)) ≡ ok time
  pub timely :
      Timely env codec (received (first_request host codec way.url payload body log)) time s
  pub known :
      env.brokers.get s.calls (record { namespace = "default"; name = sender_name host codec })
      ≡ ok broker
  pub keyed : (broker.status.callback_public_key ≡ "") ⊎ (broker.status.callback_public_key ≡ key)

-- The callback tells of a database's success.
pub record TellsReady (payload : CallbackRequest) (db : Database) : Type 0 where
  pub typed : payload.resource_type ≡ "database"
  pub succeeded : payload.status ≡ "success"
  pub ready : payload.phase ≡ "Ready"
  pub about : payload.deployment_id ≡ db.status.deployment_id

-- The database as the callback leaves it, where `held` is the registry that placed it.
abbrev pub IsInUse : Option Registry → Database → CallbackRequest → Database → Type 0
IsInUse held asked payload db =
    ((r : Registry) × (b : Broker) × (held ≡ some r)
      × In b (list_brokers r)
      × Suits b (criteria_for asked)
      × (db.status.broker_ref ≡ some (record { name = b.meta.name; namespace = b.meta.namespace })))
    × (db.spec ≡ asked.spec)
    × (db.status.phase ≡ "Ready")
    × (db.status.endpoint ≡ payload.endpoint)
    × (db.status.port ≡ payload.port)

updated_ready :
    (payload : CallbackRequest) (db : Database)
    → payload.status ≡ "success"
    → payload.phase ≡ "Ready"
    → ((updated payload db).status.phase ≡ "Ready")
      × ((updated payload db).status.endpoint ≡ payload.endpoint)
      × ((updated payload db).status.port ≡ payload.port)
      × ((updated payload db).status.broker_ref ≡ db.status.broker_ref)
      × ((updated payload db).spec ≡ db.spec)
unfolding updated
updated_ready payload db succeeded ready =
    (ground arith, ground arith, ground arith, ground arith, ground arith)

module _ (env : Env) (host : Host) (codec : Codec) (way : Route) (payload : CallbackRequest)
    (log : Log) where
  -- The callback of a deployed database.
  Deployed-IsInUse :
      (first asked : Database) (key : ObjectKey) (s : Run) (items : List Database)
      → Stores env first key
      → CodecLaws codec
      → Deployed first asked s
      → (sent : Delivers env host codec way payload s log)
      → TellsReady payload (stored first s.calls)
      → env.list_databases s.calls payload.namespace ≡ ok items
      → First payload.deployment_id items (stored first s.calls)
      → ((notify_status host codec way.url payload log).0 ≡ none)
        × IsInUse s.registry asked payload (
            stored first
              (serve env codec way.mux way.unrouted way.path
                (received (first_request host codec way.url payload sent.body log))
                s).1.calls)
  Deployed-IsInUse first asked key s items stores laws (r, b, held, i, suits, spec, ref, id) sent
        tells listed found =
      let db = stored first s.calls in
      let (told, wrote) =
        notify_status-serve env host codec way.mux way.unrouted way.url way.path sent.body
          sent.signature sent.key payload sent.time sent.broker db (updated payload db) s log laws
          sent.reaches sent.routed sent.made tells.typed sent.marshalled sent.decoded sent.signed
          sent.stamped sent.parsed sent.timely sent.known sent.keyed (items, listed, found)
          (stores.updates_status s.calls (updated payload db)) in
      let (phase, endpoint, port, kept_ref, kept_spec) =
        updated_ready payload db tells.succeeded tells.ready in
      (
        ap (λ (r : Option Error × Log). r.0) told,
        subst (λ h. IsInUse s.registry asked payload (stored first h)) (sym wrote)
            ((r, b, held, i, suits, kept_ref ∙ ref), kept_spec ∙ spec, phase, endpoint, port),
      )

-- A database that is not provisioned and not being deleted gets into use: it is handed to a broker
-- in at most three reconciliations, the broker's callback ends without an error, and the database
-- that is stored then has the phase Ready, the endpoint and port of the callback, the specification
-- that it had at first, and the name of a broker that is in the cache of the registry at the end of
-- the reconciliations and suits it. This is so where the API server answers with what it has stored
-- and takes every write; where the database's tenant is found, there is a registry, and a suitable
-- broker is listed, and cached while the cache is not refreshed; where a broker that the registry
-- selects for the database accepts: a request for a deployment can be marshalled, can be made for
-- the broker's URL, and is answered with success and a body that decodes to a deployment ID that is
-- not empty; where the callback tells of success with the phase Ready for a database with the
-- deployment that is stored, can be sent and signed and is admitted by the manager; where the
-- database is the first with that deployment in the listing of the callback's namespace; and where
-- finalizers and codecs are as documented, adding a finalizer changes nothing else of the metadata,
-- and Go's map iteration visits each entry.
pub reconciled-IsInUse :
    (env : Env) (host : Host) (codec : Codec) (way : Route) (payload : CallbackRequest) (log : Log)
    (first : Database) (key : ObjectKey) (g : Registry) (recorder : Bool) (t : Tenant) (s : Run)
    (items : List Database)
    → Stores env first key
    → FinalizerLaws env
    → AddKeeps env
    → CodecLaws codec
    → ((h : History) → Reorders (env.order h))
    → ((h : History) → Available (criteria_for (stored first s.calls)) g (discovery_at env h))
    → Accepting env g (criteria_for (stored first s.calls))
    → ((h : History) → resolve_tenant (reader_at env h) (database (stored first s.calls)) ≡ ok t)
    → env.is_zero (stored first s.calls).meta.deletion_timestamp ≡ true
    → (stored first s.calls).status.deployment_id ≡ ""
    → s.registry ≡ some g
    → (sent : Delivers env host codec way payload (reconciled env recorder 2 key s).1 log)
    → TellsReady payload (stored first (reconciled env recorder 2 key s).1.calls)
    → env.list_databases (reconciled env recorder 2 key s).1.calls payload.namespace ≡ ok items
    → First payload.deployment_id items (stored first (reconciled env recorder 2 key s).1.calls)
    → ((reconciled env recorder 2 key s).0 ≡ finished)
      × ((notify_status host codec way.url payload log).0 ≡ none)
      × IsInUse (reconciled env recorder 2 key s).1.registry (stored first s.calls) payload (
          stored first
            (serve env codec way.mux way.unrouted way.path
              (received (first_request host codec way.url payload sent.body log))
              (reconciled env recorder 2 key s).1).1.calls)
reconciled-IsInUse env host codec way payload log first key g recorder t s items stores finalizers
      adds laws reorders available accepting resolves live fresh held sent tells listed found =
    let (ends, deployed) =
      reconciled-Ends env first key g recorder t s stores finalizers adds reorders available
        accepting resolves live fresh held in
    let (told, used) =
      Deployed-IsInUse env host codec way payload log first (stored first s.calls) key
        (reconciled env recorder 2 key s).1 items stores laws deployed sent tells listed found in
    (ends, told, used)
