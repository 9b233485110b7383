-- ===== src/Controller/Database/Liveness.antt =====
-- Where the reconciliations of internal/controller/database_controller.go end, one after the other,
-- as controller-runtime runs a request again that has asked for it.
use kidp.Prelude.{
  ℕ, zero, suc, ◌==◌, ◌≡◌, refl, sym, ◌∙◌, ap, subst, Bool, true, false, if◌then◌else◌, Bool-cases,
  inl, inr,
}
use kidp.Prelude.{some, ◌∷◌, arith}
use kidp.Result.{ok}
use kidp.Api.Meta.{ObjectMeta, ObjectKey, tenant_label, read, or_make, set_label, read-set_label}
use kidp.Api.Database.{Database}
use kidp.Api.Tenant.{Tenant}
use kidp.Registry.{Registry}
use kidp.Registry.Choice.{Reorders}
use kidp.Registry.Available.{Available}
use kidp.Resolver.{reader_at, resolve_tenant}
use kidp.Client.{Env, Run, History, Exec, Outcome, update, database, pure, requeued, ◌>>=◌}
use kidp.Client.Documented.{FinalizerLaws, AddKeeps}
use kidp.Controller.Database.{
  finalizer_name, with_meta, criteria_for, discovery_at, reconcile, reconcile_database,
  reconcile_live, reconcile_tenant, assign_label, start_provisioning,
}
use kidp.Controller.Database.Convergence.{
  stored, Stores, Accepting, resolve_keeps, Ends, start_provisioning-Ends,
}

-- One reconciliation, and up to `n` more while they ask for it.
unfoldable pub reconciled : Env → Bool → ℕ → ObjectKey → Exec Outcome
reconciled env recorder zero key = reconcile env recorder key
reconciled env recorder (suc n) key = do
  o ← reconcile env recorder key
  if o.requeue then reconciled env recorder n key else pure o

-- `db` is what the API server has; it is not provisioned yet and not being deleted.
record Waiting (env : Env) (first engine : Database) (g : Registry) (db : Database) (s : Run)
    : Type 0 where
  pub present : stored first s.calls ≡ db
  pub spec : db.spec ≡ engine.spec
  pub namespace : db.meta.namespace ≡ engine.meta.namespace
  pub live : env.is_zero db.meta.deletion_timestamp ≡ true
  pub fresh : db.status.deployment_id ≡ ""
  pub registry : s.registry ≡ some g

module _ (env : Env) (first : Database) (key : ObjectKey) (stores : Stores env first key)
    (recorder : Bool) where
  reconcile_found :
      (db : Database) (s : Run)
      → stored first s.calls ≡ db
      → env.is_zero db.meta.deletion_timestamp ≡ true
      → reconcile env recorder key s ≡ reconcile_live env recorder db s
  unfolding reconcile reconcile_database
  reconcile_found db s p live = rw (stores.gets s.calls, p, live, reconcile, reconcile_database)

  adds_finalizer :
      (db : Database) (s : Run)
      → env.contains_finalizer db.meta finalizer_name ≡ false
      → reconcile_live env recorder db s ≡ (
        requeued,
        record s {
          calls =
              update (database (with_meta (env.add_finalizer db.meta finalizer_name) db)) ∷ s.calls;
        },
      )
  unfolding reconcile_live
  adds_finalizer db s missing = rw (
    missing,
    stores.updates s.calls (with_meta (env.add_finalizer db.meta finalizer_name) db),
    reconcile_live,
  )

  assigns :
      (db : Database) (t : Tenant) (s : Run)
      → ((assign_label env recorder db t s).0 ≡ requeued)
        × ((assign_label env recorder db t s).1.registry ≡ s.registry)
        × (stored first (assign_label env recorder db t s).1.calls
            ≡ with_meta (set_label db.meta tenant_label t.meta.name) db)
  unfolding assign_label
  assigns db t s = (
    ground
        (arith, stores.updates s.calls (with_meta (set_label db.meta tenant_label t.meta.name) db)),
    ground
        (arith, stores.updates s.calls (with_meta (set_label db.meta tenant_label t.meta.name) db)),
    ground
        (arith, stores.updates s.calls (with_meta (set_label db.meta tenant_label t.meta.name) db)),
  )

  module _ (t : Tenant) where
    resolved :
        (db : Database) (s : Run)
        → env.contains_finalizer db.meta finalizer_name ≡ true
        → resolve_tenant (reader_at env s.calls) (database db) ≡ ok t
        → reconcile_live env recorder db s ≡ reconcile_tenant env recorder db t s
    unfolding reconcile_live
    resolved db s there q = rw (there, q, reconcile_live)

    labels :
        (db : Database) (s : Run)
        → (read db.meta.labels tenant_label == t.meta.name) ≡ false
        → reconcile_tenant env recorder db t s ≡ assign_label env recorder db t s
    unfolding reconcile_tenant
    labels db s other = rw (other, reconcile_tenant)

    provisions :
        (db : Database) (s : Run)
        → (read db.meta.labels tenant_label == t.meta.name) ≡ true
        → db.status.deployment_id ≡ ""
        → reconcile_tenant env recorder db t s
          ≡ start_provisioning env
              (with_meta (record db.meta { labels = some (or_make db.meta.labels) }) db)
              s
    unfolding reconcile_tenant
    provisions db s same fresh = ground arith

module _ (env : Env) (first : Database) (key : ObjectKey) (stores : Stores env first key)
    (g : Registry) (engine : Database) (reorders : (h : History) → Reorders (env.order h))
    (available : (h : History) → Available (criteria_for engine) g (discovery_at env h))
    (accepting : Accepting env g (criteria_for engine)) (recorder : Bool) (t : Tenant)
    (laws : FinalizerLaws env) (adds : AddKeeps env)
    (resolves : (h : History) → resolve_tenant (reader_at env h) (database engine) ≡ ok t) where
  abbrev Done : Outcome × Run → Type 0
  Done r = Ends first engine r

  stops :
      (n : ℕ) (s : Run)
      → Done (reconcile env recorder key s)
      → Done (reconciled env recorder n key s)
  unfolding reconciled
  stops zero s d = d
  stops (suc n) s d = rw (d.0, reconciled) (refl, d.1)

  requeues :
      (n : ℕ) (s : Run)
      → (reconcile env recorder key s).0 ≡ requeued
      → reconciled env recorder (suc n) key s
        ≡ reconciled env recorder n key (reconcile env recorder key s).1
  unfolding reconciled
  requeues n s q = rw (q, reconciled)

  tenant_of :
      (db : Database) (s : Run)
      → Waiting env first engine g db s
      → resolve_tenant (reader_at env s.calls) (database db) ≡ ok t
  tenant_of db s w =
      resolve_keeps (reader_at env s.calls) db engine w.spec w.namespace ∙ resolves s.calls

  labelled-Done :
      (db : Database) (s : Run)
      → Waiting env first engine g db s
      → env.contains_finalizer db.meta finalizer_name ≡ true
      → (read db.meta.labels tenant_label == t.meta.name) ≡ true
      → Done (reconcile env recorder key s)
  labelled-Done db s w there same =
      subst Done
        (sym (
          reconcile_found env first key stores recorder db s w.present w.live
          ∙ resolved env first key stores recorder t db s there (tenant_of db s w)
          ∙ provisions env first key stores recorder t db s same w.fresh))
        (start_provisioning-Ends env first key stores g engine reorders available accepting
          (with_meta (record db.meta { labels = some (or_make db.meta.labels) }) db) s w.spec
          w.registry)

  -- The database after a write that has left it as it was but for its metadata.
  moved :
      (db : Database) (m : ObjectMeta) (s s' : Run)
      → Waiting env first engine g db s
      → m.namespace ≡ db.meta.namespace
      → m.deletion_timestamp ≡ db.meta.deletion_timestamp
      → s'.registry ≡ s.registry
      → stored first s'.calls ≡ with_meta m db
      → Waiting env first engine g (with_meta m db) s'
  moved db m s s' w n d r p = record {
    present = p;
    spec = w.spec;
    namespace = n ∙ w.namespace;
    live = ap env.is_zero d ∙ w.live;
    fresh = w.fresh;
    registry = r ∙ w.registry;
  }

  finalized-Done :
      (n : ℕ) (db : Database) (s : Run)
      → Waiting env first engine g db s
      → env.contains_finalizer db.meta finalizer_name ≡ true
      → Done (reconciled env recorder (suc n) key s)
  finalized-Done n db s w there =
      elim (Bool-cases (read db.meta.labels tenant_label == t.meta.name)) [
        | inl same ↦ stops (suc n) s (labelled-Done db s w there same)
        | inr other ↦
            let run =
              reconcile_found env first key stores recorder db s w.present w.live
              ∙ resolved env first key stores recorder t db s there (tenant_of db s w)
              ∙ labels env first key stores recorder t db s other in
            let (asks, kept, there_now) = assigns env first key stores recorder db t s in
            let s' = (reconcile env recorder key s).1 in
            let m = set_label db.meta tenant_label t.meta.name in
            subst Done (sym (requeues n s (ap (λ (r : Outcome × Run). r.0) run ∙ asks))) (
              stops n s' (
                labelled-Done (with_meta m db) s'
                  (moved db m s s' w refl refl (ap (λ (r : Outcome × Run). r.1.registry) run ∙ kept)
                    (ap (λ (r : Outcome × Run). stored first r.1.calls) run ∙ there_now))
                  (laws.contains_of_list m db.meta finalizer_name refl ∙ there) (found db)))
      ]
    where
      found :
          (db : Database)
          → (read (set_label db.meta tenant_label t.meta.name).labels tenant_label == t.meta.name)
            ≡ true
      found db = ground (arith, read-set_label db.meta tenant_label t.meta.name)

  Waiting-Done :
      (n : ℕ) (db : Database) (s : Run)
      → Waiting env first engine g db s
      → Done (reconciled env recorder (suc (suc n)) key s)
  Waiting-Done n db s w = elim (Bool-cases (env.contains_finalizer db.meta finalizer_name)) [
    | inl there ↦ finalized-Done (suc n) db s w there
    | inr missing ↦
        let run =
          reconcile_found env first key stores recorder db s w.present w.live
          ∙ adds_finalizer env first key stores recorder db s missing in
        let s' = (reconcile env recorder key s).1 in
        let m = env.add_finalizer db.meta finalizer_name in
        subst Done (sym (requeues (suc n) s (ap (λ (r : Outcome × Run). r.0) run))) (
          finalized-Done n (with_meta m db) s'
            (moved db m s s' w (ap (λ x. x.namespace) (adds db.meta finalizer_name))
              (ap (λ x. x.deletion_timestamp) (adds db.meta finalizer_name))
              (ap (λ (r : Outcome × Run). r.1.registry) run)
              (ap (λ (r : Outcome × Run). stored first r.1.calls) run))
            (laws.contains-add db.meta finalizer_name))
  ]

-- A database that is not provisioned and not being deleted is with a broker after at most three
-- reconciliations, each run because the one before has asked for it: it then has a deployment and
-- the specification that it had at first, and names a broker that is in the cache of the registry
-- at the end of the run and is Ready, offers its engine and has room. This is so where the API
-- server answers with what it has stored and takes every write; where the database's tenant is
-- found, there is a registry, and a suitable broker is listed, and cached while the cache is not
-- refreshed; where a broker that the registry selects for the database accepts: a request for a
-- deployment can be marshalled, can be made for the broker's URL, and is answered with success and
-- a body that decodes to a deployment ID that is not empty; and where finalizers are as documented,
-- adding one changes nothing else of the metadata, and Go's map iteration visits each entry.
pub reconciled-Ends :
    (env : Env) (first : Database) (key : ObjectKey) (g : Registry) (recorder : Bool) (t : Tenant)
    (s : Run)
    → Stores env first key
    → FinalizerLaws env
    → AddKeeps env
    → ((h : History) → Reorders (env.order h))
    → ((h : History) → Available (criteria_for (stored first s.calls)) g (discovery_at env h))
    → Accepting env g (criteria_for (stored first s.calls))
    → ((h : History) → resolve_tenant (reader_at env h) (database (stored first s.calls)) ≡ ok t)
    → env.is_zero (stored first s.calls).meta.deletion_timestamp ≡ true
    → (stored first s.calls).status.deployment_id ≡ ""
    → s.registry ≡ some g
    → Ends first (stored first s.calls) (reconciled env recorder 2 key s)
reconciled-Ends env first key g recorder t s stores laws adds reorders available accepting resolves
      live fresh held =
    Waiting-Done env first key stores g (stored first s.calls) reorders available accepting recorder
      t laws adds resolves 0 (stored first s.calls) s
      (record {
        present = refl;
        spec = refl;
        namespace = refl;
        live = live;
        fresh = fresh;
        registry = held;
      })
