-- ===== src/Controller/Database/Progress.antt =====
-- How internal/controller/database_controller.go gets on from one reconciliation to the next.
use kidp.Prelude.{ℕ, ◌<◌, String, ◌==◌, not, ◌≡◌, refl, if◌then◌else◌, Bool, true, false, arith}
use kidp.Prelude.{not_In_of_any, Bool-cases, Option, none, some, In, inl, inr, string_dec, ◌∷◌}
use kidp.Result.{ok, Error, Result-cases}
use kidp.Api.Meta.{tenant_label, read, or_make, set_label, read-set_label}
use kidp.Api.Database.{Database, allowed_phases}
use kidp.Api.Tenant.{Tenant}
use kidp.Resolver.{reader_at, resolve_tenant}
use kidp.Client.{Env, Run, update, event, update_status, database}
use kidp.Client.Documented.{FinalizerLaws}
use kidp.Controller.Database.{
  finalizer_name, with_meta, with_phase, suspend, reconcile_tenant, assign_label,
}
use kidp.Controller.Database.{start_provisioning, settle, reconcile_live}
use kidp.Controller.Database.Placement.{status_writes}

-- The writes that a database still needs before it can be provisioned for the tenant.
abbrev pub stage : Env → String → Database → ℕ
stage env tenant db =
    if not (env.contains_finalizer db.meta finalizer_name)
    then 2
    else if not (read db.meta.labels tenant_label == tenant)
    then 1
    else 0

module _ (env : Env) (recorder : Bool) where
  settle_ends : (r : Option Error × Database) (s : Run) → (settle env r s).0.requeue ≡ false
  unfolding settle
  settle_ends (none, db) s = refl
  settle_ends (some e, db) s = refl

  start_provisioning_ends :
      (db : Database) (s : Run) → (start_provisioning env db s).0.requeue ≡ false
  unfolding start_provisioning
  start_provisioning_ends db s = grind (arith, settle_ends)

  suspend_ends :
      (db : Database) (e : Error) (s : Run) → (suspend env recorder db e s).0.requeue ≡ false
  unfolding suspend
  suspend_ends db e s = ground arith

  -- A reconciliation that asks to be run again has written the database at least one stage further,
  -- of the two that come before provisioning: the finalizer, and the label of the tenant that the
  -- database resolves to. The finalizers are as the Kubernetes library documents them.
  pub reconcile_live_advances :
      FinalizerLaws env
      → (tenant : String) (db : Database) (s : Run)
      → ((t : Tenant)
          → resolve_tenant (reader_at env s.calls) (database db) ≡ ok t
          → t.meta.name ≡ tenant)
      → (reconcile_live env recorder db s).0.requeue ≡ true
      → (db' : Database) × In (update (database db')) (reconcile_live env recorder db s).1.calls
        × (stage env tenant db' < stage env tenant db)
  unfolding reconcile_live reconcile_tenant assign_label
  reconcile_live_advances L tenant db s named h =
      elim (Bool-cases (env.contains_finalizer db.meta finalizer_name)) [
        | inr missing ↦ (
          with_meta (env.add_finalizer db.meta finalizer_name) db,
          ground arith,
          ground (arith, L.contains-add db.meta finalizer_name),
        )
        | inl present ↦ elim (Result-cases (resolve_tenant (reader_at env s.calls) (database db))) [
          | inl (t, q) ↦ (
            with_meta (set_label db.meta tenant_label t.meta.name) db,
            ground (
              arith,
              start_provisioning_ends
                  (with_meta (record db.meta { labels = some (or_make db.meta.labels) }) db) s,
            ),
            ground (
              arith,
              named t q,
              start_provisioning_ends
                  (with_meta (record db.meta { labels = some (or_make db.meta.labels) }) db) s,
              L.contains_of_list (set_label db.meta tenant_label t.meta.name) db.meta finalizer_name
                  refl,
              read-set_label db.meta tenant_label t.meta.name,
            ),
          )
          | inr (e, q) ↦ absurd (ground (arith, suspend_ends db e s))
        ]
      ]

-- The status that the reconciler writes for a database whose tenant is not found has a phase that
-- the custom resource's schema does not admit.
pub suspend_not_admitted :
    (env : Env) (recorder : Bool) (db : Database) (e : Error) (s : Run)
    → (db' : Database) × In (update_status (database db')) (suspend env recorder db e s).1.calls
      × ¬ In db'.status.phase allowed_phases
unfolding suspend string_dec
suspend_not_admitted env true db e s = (
  with_phase "Suspended" db,
  ground (
    arith,
    status_writes env (with_phase "Suspended" db) (record s {
      calls =
          event (database db) "Warning" "TenantUnresolved" "tenant could not be resolved: " (some e)
          ∷ s.calls;
    }),
  ),
  not_In_of_any "Suspended" allowed_phases refl,
)
suspend_not_admitted env false db e s = (
  with_phase "Suspended" db,
  ground (arith, status_writes env (with_phase "Suspended" db) s),
  not_In_of_any "Suspended" allowed_phases refl,
)
