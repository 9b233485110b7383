-- ===== src/Controller/Database/Placement.antt =====
-- `provisionDatabase` of internal/controller/database_controller.go: where a database is placed,
-- and what is kept of it.
use kidp.Prelude.{◌<◌, String, ◌<>◌, ◌≡◌, refl, subst, sym, inl, inr, arith}
use kidp.Prelude.{Option, none, some, Bool, true, In}
use kidp.Result.{ok, err, Error, wrapf, Result-cases}
use kidp.Api.Broker.{Broker}
use kidp.Api.Database.{Database}
use kidp.Api.Tenant.{Tenant}
use kidp.Api.Meta.{tenant_label, read}
use kidp.Registry.{Registry, list_brokers, select_broker}
use kidp.Registry.Matching.{Suits}
use kidp.Registry.Choice.{Reorders}
use kidp.Registry.Member.{select_broker-Suits}
use kidp.BrokerClient.Types.{ProvisionResponse}
use kidp.BrokerCalls.{post_request, provision}
use kidp.Resolver.{reader_at, resolve_tenant}
use kidp.Client.{Env, Run, Call, http, update_status, database, database_kind}
use kidp.Status.{update_status_with_fallback}
use kidp.Controller.Database.{select_with, provision_database, provision_with, provision_on}
use kidp.Controller.Database.{store_deployment, with_deployment, provision_request, criteria_for}
use kidp.Controller.Database.{discovery_at, reconcile_tenant, assign_label}
use kidp.Controller.Database.{reconcile_live, reconcile_database, finalizer_name}
use kidp.Controller.Database.Requests.{broker_calls, select_count, suspend_count}

module _ (env : Env) where
  -- The run has asked the broker to provision the database.
  abbrev pub Asked : Database → Broker → Run → Type 0
  Asked db b s =
      (body : String) × (env.marshal_provision (provision_request env db) ≡ ok body)
      × In (http (post_request (b.spec.endpoint <> "/v1/provision") body)) s.calls

  -- The registry that the run holds has chosen the broker, which is then in its cache.
  abbrev pub Selected : Option Registry → Database → Broker → Run → Type 0
  Selected held db b s =
      (g : Registry) × (held ≡ some g)
      × ((select_broker env.floats g (discovery_at env s.calls) (criteria_for db)).1 ≡ ok b)
      × In b
          (list_brokers (select_broker env.floats g (discovery_at env s.calls) (criteria_for db)).0)

  select_with-Selected :
      (g : Registry) (db : Database) (s : Run) (b : Broker)
      → Reorders (env.order s.calls)
      → (select_with env g (criteria_for db) s).0 ≡ ok b
      → Selected (some g) db b s × Suits b (criteria_for db)
  unfolding select_with
  select_with-Selected g db s b reorders h =
      let (i, suits) =
        select_broker-Suits env.floats g (discovery_at env s.calls) (criteria_for db) b reorders
          h in
      ((g, refl, h, i), suits)

  provision_asks :
      (db : Database) (b : Broker) (s : Run)
      → broker_calls s < broker_calls (provision env b.spec.endpoint (provision_request env db) s).1
      → Asked db b (provision env b.spec.endpoint (provision_request env db) s).1
  unfolding provision
  provision_asks db b s h = elim (Result-cases (env.marshal_provision (provision_request env db))) [
    | inl (body, m) ↦ (body, m, ground arith)
    | inr (e, m) ↦ ground arith
  ]

  provision_ok :
      (db : Database) (b : Broker) (s : Run) (resp : ProvisionResponse)
      → (provision env b.spec.endpoint (provision_request env db) s).0 ≡ ok resp
      → broker_calls s < broker_calls (provision env b.spec.endpoint (provision_request env db) s).1
  unfolding provision
  provision_ok db b s resp h = ground arith

  pub status_writes :
      (db : Database) (s : Run)
      → In
          (update_status (database db))
          (update_status_with_fallback env database_kind db s).1.calls
  unfolding update_status_with_fallback
  status_writes db s = ground arith

  store_keeps :
      (db : Database) (s : Run) (c : Call) → In c s.calls → In c (store_deployment env db s).1.calls
  unfolding store_deployment
  store_keeps db s c i = ground arith

  store_writes :
      (db : Database) (s : Run)
      → In (update_status (database db)) (store_deployment env db s).1.calls
  unfolding store_deployment
  store_writes db s = ground arith

  store_count :
      (db : Database) (s : Run) → broker_calls (store_deployment env db s).1 ≡ broker_calls s
  unfolding store_deployment
  store_count db s = ground arith

  pub provision_on_ok :
      (b : Broker) (db : Database) (s : Run) (resp : ProvisionResponse)
      → let p = provision env b.spec.endpoint (provision_request env db) s in
        p.0 ≡ ok resp
        → provision_on env b db s ≡ store_deployment env (with_deployment b resp db) p.1
  unfolding provision_on
  provision_on_ok b db s resp q = rw q

  pub provision_on_err :
      (b : Broker) (db : Database) (s : Run) (e : Error)
      → let p = provision env b.spec.endpoint (provision_request env db) s in
        p.0 ≡ err e
        → provision_on env b db s ≡ ((some (wrapf "failed to call broker provision" e), db), p.1)
  unfolding provision_on
  provision_on_err b db s e q = rw q

  provision_on_asks :
      (b : Broker) (db : Database) (s : Run)
      → broker_calls s < broker_calls (provision_on env b db s).1
      → Asked db b (provision_on env b db s).1
  provision_on_asks b db s h =
      let p = provision env b.spec.endpoint (provision_request env db) s in
      elim (Result-cases p.0) [
        | inl (resp, q) ↦
            let (body, m, i) = provision_asks db b s (provision_ok db b s resp q) in
            (body, m, rw (provision_on_ok b db s resp q) (store_keeps _ p.1 _ i))
        | inr (e, q) ↦
            let z = provision_on_err b db s e q in
            let (body, m, i) =
              provision_asks db b s (subst (λ y. broker_calls s < broker_calls y.1) z h) in
            (
              body,
              m,
              subst
                  (λ y.
                    In (http (post_request (b.spec.endpoint <> "/v1/provision") body)) y.1.calls)
                  (sym z) i,
            )
      ]

  pub provision_with_selected :
      (g : Registry) (db : Database) (s : Run) (b : Broker)
      → (select_with env g (criteria_for db) s).0 ≡ ok b
      → provision_with env (some g) db s
        ≡ provision_on env b db (select_with env g (criteria_for db) s).1
  unfolding provision_with
  provision_with_selected g db s b q = rw q

  unselected_calls :
      (g : Registry) (db : Database) (s : Run) (e : Error)
      → (select_with env g (criteria_for db) s).0 ≡ err e
      → ¬ (broker_calls s < broker_calls (provision_with env (some g) db s).1)
  unfolding provision_with
  unselected_calls g db s e q = rw q (λ h. omega (arith, select_count env g (criteria_for db) s))

  provision_with_asks :
      (g : Registry) (db : Database) (s : Run)
      → Reorders (env.order s.calls)
      → broker_calls s < broker_calls (provision_with env (some g) db s).1
      → (b : Broker) × Selected (some g) db b s
        × Suits b (criteria_for db)
        × Asked db b (provision_with env (some g) db s).1
  unfolding select_with
  provision_with_asks g db s reorders h =
      let p = select_with env g (criteria_for db) s in
      elim (Result-cases p.0) [
        | inl (b, q) ↦
            let z = provision_with_selected g db s b q in
            let (chosen, suits) = select_with-Selected g db s b reorders q in
            (
              b,
              chosen,
              suits,
              subst (λ y. Asked db b y.1) (sym z)
                  (provision_on_asks b db p.1 (subst (λ y. broker_calls s < broker_calls y.1) z h)),
            )
        | inr (e, q) ↦ absurd (unselected_calls g db s e q h)
      ]

  provision_any_asks :
      (o : Option Registry) (db : Database) (s : Run)
      → Reorders (env.order s.calls)
      → broker_calls s < broker_calls (provision_with env o db s).1
      → (b : Broker) × Selected o db b s
        × Suits b (criteria_for db)
        × Asked db b (provision_with env o db s).1
  unfolding provision_with
  provision_any_asks none db s reorders h = absurd (omega arith)
  provision_any_asks (some g) db s reorders h = provision_with_asks g db s reorders h

  -- A database is only ever provisioned by a broker that is Ready, offers its engine and has
  -- room: where `provisionDatabase` calls a broker, it posts the request for the database to the
  -- endpoint of the broker that `SelectBroker` has returned for the database's criteria, and that
  -- broker is in the registry's cache, as it is after the selection, and suits. Go's map iteration
  -- visits each entry.
  pub provision_database-Suits :
      (db : Database) (s : Run)
      → Reorders (env.order s.calls)
      → broker_calls s < broker_calls (provision_database env db s).1
      → (b : Broker) × Selected s.registry db b s
        × Suits b (criteria_for db)
        × Asked db b (provision_database env db s).1
  unfolding provision_database
  provision_database-Suits db s reorders h = provision_any_asks s.registry db s reorders h

-- A live database is provisioned only with its finalizer in place, with its tenant found and
-- named by its label, and without a deployment: otherwise no broker is called.
pub reconcile_database_guards :
    (env : Env) (recorder : Bool) (db : Database) (s : Run)
    → env.is_zero db.meta.deletion_timestamp ≡ true
    → broker_calls s < broker_calls (reconcile_database env recorder db s).1
    → (env.contains_finalizer db.meta finalizer_name ≡ true)
      × ((t : Tenant) × (resolve_tenant (reader_at env s.calls) (database db) ≡ ok t)
          × (read db.meta.labels tenant_label ≡ t.meta.name))
      × (db.status.deployment_id ≡ "")
unfolding reconcile_database reconcile_live reconcile_tenant assign_label
reconcile_database_guards env recorder db s live h =
    elim (Result-cases (resolve_tenant (reader_at env s.calls) (database db))) [
      | inl (t, q) ↦ (ground arith, (t, q, ground arith), ground arith)
      | inr (e, q) ↦ absurd (ground (arith, suspend_count env recorder db e s))
    ]
