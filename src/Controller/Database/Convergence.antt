-- ===== src/Controller/Database/Convergence.antt =====
-- The reconciliations of internal/controller/database_controller.go one after the other, as
-- controller-runtime runs a request again that has asked for it, against an API server that stores
-- what it is sent.
use kidp.Prelude.{
  String, ◌<>◌, ◌==◌, ◌≡◌, ◌≢◌, refl, sym, ◌∙◌, ap, subst, inl, inr, true, Bool-cases,
}
use kidp.Prelude.{Option, none, some, [], ◌∷◌, In, arith}
use kidp.Result.{ok, Error}
use kidp.Api.Meta.{ObjectKey}
use kidp.Api.Broker.{Broker}
use kidp.Api.Database.{Database, DatabaseSpec}
use kidp.Registry.{Registry, SelectionCriteria, list_brokers, select_broker}
use kidp.Registry.Choice.{Reorders}
use kidp.Registry.Member.{select_broker-Suits}
use kidp.Registry.Available.{Available, select_broker_finds}
use kidp.Resolver.{
  Reader, resolve_tenant, resolve_from, resolve_step, resolve_owner, named_tenant, owner_of,
  labelled_tenant,
}
use kidp.Client.{
  Env, Run, History, Outcome, Object, HttpRequest, HttpResponse, http, update, update_status,
  database, finished, ◌>>=◌,
}
use kidp.Status.{update_status_with_fallback}
use kidp.Controller.Database.{
  start_provisioning, provision_on, provision_with, provision_database, select_with, discovery_at,
  settle, with_phase, store_deployment, with_deployment, criteria_for, provision_request,
}
use kidp.BrokerClient.Types.{ProvisionRequest, ProvisionResponse}
use kidp.BrokerCalls.{provision, post_request, is_success}
use kidp.Registry.Matching.{Suits}

-- The database as the API server has it after the writes of a history.
abbrev written : Object → Database → Database
written (database x) old = x
written other old = old

abbrev pub stored : Database → History → Database
stored first [] = first
stored first (update o ∷ h) = written o (stored first h)
stored first (update_status o ∷ h) = written o (stored first h)
stored first (other ∷ h) = stored first h

-- The API server answers with what it has stored, and takes every write.
pub record Stores (env : Env) (first : Database) (key : ObjectKey) : Type 0 where
  pub gets : (h : History) → env.databases.get h key ≡ ok (stored first h)
  pub updates : (h : History) (db : Database) → env.databases.update h db ≡ ok db
  pub updates_status : (h : History) (db : Database) → env.databases.update_status h db ≡ ok db

pub resolve_keeps :
    (R : Reader) (d e : Database)
    → d.spec ≡ e.spec
    → d.meta.namespace ≡ e.meta.namespace
    → resolve_tenant R (database d) ≡ resolve_tenant R (database e)
unfolding resolve_tenant resolve_from resolve_step resolve_owner named_tenant owner_of
    labelled_tenant
resolve_keeps R d e p q = ground arith

-- Requests to the broker can be marshalled and made, and it answers with success and a body that
-- decodes to the ID of a deployment.
abbrev pub Accepts : Env → Broker → History → Type 0
Accepts env b h =
    (r : ProvisionRequest)
    → (body : String) × (resp : HttpResponse) × (a : ProvisionResponse) × (env.marshal_provision r
        ≡ ok body)
      × (env.new_request "POST" (b.spec.endpoint <> "/v1/provision") ≡ none)
      × (env.send h (post_request (b.spec.endpoint <> "/v1/provision") body) ≡ ok resp)
      × (is_success resp.status_code ≡ true)
      × (env.decode_provision resp.body ≡ ok a)
      × (a.deployment_id ≢ "")

-- A broker that the registry selects for the criteria accepts.
abbrev pub Accepting : Env → Registry → SelectionCriteria → Type 0
Accepting env g c =
    (h : History) (b : Broker)
    → (select_broker env.floats g (discovery_at env h) c).1 ≡ ok b
    → Accepts env b h

module _ (env : Env) where
  answered :
      (url body : String) (req : ProvisionRequest) (s : Run) (resp : HttpResponse)
      (a : ProvisionResponse)
      → let r = post_request (url <> "/v1/provision") body in
        env.marshal_provision req ≡ ok body
        → env.new_request "POST" (url <> "/v1/provision") ≡ none
        → env.send s.calls r ≡ ok resp
        → is_success resp.status_code ≡ true
        → env.decode_provision resp.body ≡ ok a
        → provision env url req s ≡ (ok a, record s { calls = http r ∷ s.calls })
  unfolding provision
  answered url body req s resp a m n sent good decoded = ground arith

  provision_answers :
      (b : Broker) (req : ProvisionRequest) (s : Run)
      → Accepts env b s.calls
      → (a : ProvisionResponse) × (r : HttpRequest) × (provision env b.spec.endpoint req s
          ≡ (ok a, record s { calls = http r ∷ s.calls }))
        × (a.deployment_id ≢ "")
  provision_answers b req s accepts =
      let (body, resp, a, m, made, sent, good, decoded, named) = accepts req in
      (
        a,
        post_request (b.spec.endpoint <> "/v1/provision") body,
        answered b.spec.endpoint body req s resp a m made sent good decoded,
        named,
      )

-- The database, first as `first`, is with a broker that is in the cache of the registry that the
-- run holds and suits `db`, and has a deployment.
abbrev pub Deployed : Database → Database → Run → Type 0
Deployed first db s =
    (r : Registry) × (b : Broker) × (s.registry ≡ some r)
    × In b (list_brokers r)
    × Suits b (criteria_for db)
    × ((stored first s.calls).spec ≡ db.spec)
    × ((stored first s.calls).status.broker_ref
        ≡ some (record { name = b.meta.name; namespace = b.meta.namespace }))
    × ((stored first s.calls).status.deployment_id ≢ "")

-- What a run ends with that has provisioned the database.
abbrev pub Ends : Database → Database → Outcome × Run → Type 0
Ends first db r = (r.0 ≡ finished) × Deployed first db r.1

module _ (env : Env) (first : Database) (key : ObjectKey) (stores : Stores env first key) where
  store_deployment_lem :
      (db : Database) (s : Run)
      → store_deployment env db s
        ≡ ((none, db), record s { calls = update_status (database db) ∷ s.calls })
  unfolding store_deployment
  store_deployment_lem db s = rw (stores.updates_status s.calls db, store_deployment)

  provision_on-Deployed :
      (r : Registry) (b : Broker) (db : Database) (s : Run)
      → s.registry ≡ some r
      → In b (list_brokers r)
      → Suits b (criteria_for db)
      → Accepts env b s.calls
      → (x : Database) × (s' : Run) × (provision_on env b db s ≡ ((none, x), s'))
        × Deployed first db s'
  unfolding provision_on
  provision_on-Deployed g b db s held i suits accepts =
      let (a, r, p, named) = provision_answers env b (provision_request env db) s accepts in
      let s1 : Run = record s { calls = http r ∷ s.calls } in
      let x = with_deployment b a db in
      (
        x,
        record s1 { calls = update_status (database x) ∷ s1.calls },
        rw (p, store_deployment_lem x s1, provision_on),
        (g, b, held, i, suits, refl, refl, named),
      )

  -- The whole of `provisionDatabase` and what follows it.
  provision_with-Deployed :
      (g : Registry) (db : Database) (s : Run)
      → Reorders (env.order s.calls)
      → Available (criteria_for db) g (discovery_at env s.calls)
      → Accepting env g (criteria_for db)
      → (x : Database) × (s' : Run) × (provision_with env (some g) db s ≡ ((none, x), s'))
        × Deployed first db s'
  unfolding provision_with select_with
  provision_with-Deployed g db s reorders available accepting =
      let d = discovery_at env s.calls in
      let (b, q) = select_broker_finds env.floats g d (criteria_for db) reorders available in
      let (i, suits) = select_broker-Suits env.floats g d (criteria_for db) b reorders q in
      let r = (select_broker env.floats g d (criteria_for db)).0 in
      let s1 : Run = record s { registry = some r } in
      let (x, s', p, deployed) =
        provision_on-Deployed r b db s1 refl i suits (accepting s.calls b q) in
      (x, s', picked b q ∙ p, deployed)
    where
      picked :
          (b : Broker)
          → (select_broker env.floats g (discovery_at env s.calls) (criteria_for db)).1 ≡ ok b
          → provision_with env (some g) db s
            ≡ provision_on env b db (record s {
              registry =
                  some (select_broker env.floats g (discovery_at env s.calls) (criteria_for db)).0;
            })
      picked b q = rw (q, provision_with)

  module _ (g : Registry) (engine : Database) (reorders : (h : History) → Reorders (env.order h))
      (available : (h : History) → Available (criteria_for engine) g (discovery_at env h))
      (accepting : Accepting env g (criteria_for engine)) where
    provision_database-Deployed :
        (db : Database) (s : Run)
        → db.spec ≡ engine.spec
        → s.registry ≡ some g
        → (x : Database) × (s' : Run) × (provision_database env db s ≡ ((none, x), s'))
          × Deployed first engine s'
    unfolding provision_database
    provision_database-Deployed db s spec held =
        let same : criteria_for engine ≡ criteria_for db = ap (λ e. asked e) (sym spec) in
        let (x, s', p, (r, b, there, i, suits, kept, ref, id)) =
          provision_with-Deployed g db s (reorders s.calls)
            (subst (λ c. Available c g (discovery_at env s.calls)) same (available s.calls))
            (subst (Accepting env g) same accepting) in
        (
          x,
          s',
          ap (λ o. provision_with env o db s) held ∙ p,
          (r, b, there, i, subst (Suits b) (sym same) suits, kept ∙ spec, ref, id),
        )
      where
        asked : DatabaseSpec → SelectionCriteria
        asked e = record {
          resource_type = "Database";
          cloud_provider = "";
          region = "";
          provider = e.engine;
        }

    provisioned-Ends :
        (db : Database) (s : Run)
        → db.spec ≡ engine.spec
        → s.registry ≡ some g
        → Ends first engine ((provision_database env db >>= settle env) s)
    unfolding settle
    provisioned-Ends db s spec held =
        let (x, s', p, deployed) = provision_database-Deployed db s spec held in
        subst (λ (r : (Option Error × Database) × Run). Ends first engine (settle env r.0 r.1))
          (sym p) (refl, deployed)

    pub start_provisioning-Ends :
        (db : Database) (s : Run)
        → db.spec ≡ engine.spec
        → s.registry ≡ some g
        → Ends first engine (start_provisioning env db s)
    unfolding start_provisioning update_status_with_fallback
    start_provisioning-Ends db s spec held = elim (Bool-cases (db.status.phase == "Provisioning")) [
      | inl q ↦ rw (q, start_provisioning) (provisioned-Ends db s spec held)
      | inr q ↦
          let saved = with_phase "Provisioning" db in
          rw
            (
              q,
              stores.updates_status s.calls saved,
              start_provisioning,
              update_status_with_fallback,
            )
            (provisioned-Ends saved (record s { calls = update_status (database saved) ∷ s.calls })
              spec held)
    ]
