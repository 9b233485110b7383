-- ===== src/Controller/Database/Phases.antt =====
-- The phases that internal/controller/database_controller.go writes, against the enumeration that
-- api/v1/database_types.go puts on them.
use kidp.Prelude.{◌≡◌, refl, ◌⊎◌, inl, inr, Bool, In, arith}
use kidp.Result.{ok}
use kidp.Api.Database.{Database, allowed_phases}
use kidp.Api.Tenant.{Tenant}
use kidp.Client.{Env, Run, database}
use kidp.Resolver.{reader_at, resolve_tenant}
use kidp.Controller.Database.{reconcile_live, reconcile_database}
use kidp.Controller.Database.Writes.{AllWrites}
use kidp.Controller.Database.Keeping.{
  Echoes, Survives, reconcile_tenant-Safe, handle_deletion-AllWrites,
}

-- The API server admits the phase; an empty one is left out of what is sent.
abbrev pub IsAdmitted : Database → Type 0
IsAdmitted db = (db.status.phase ≡ "") ⊎ In db.status.phase allowed_phases

IsAdmitted-Survives : Survives IsAdmitted
IsAdmitted-Survives = record {
  provisioning = λ db f. inr (inr (inl refl));
  failed = λ db f. inr (inr (inr (inr (inl refl))));
  deployed = λ b resp db f. f;
  relabelled = λ m db same f. f;
}

module _ (env : Env) (echoes : Echoes env) (recorder : Bool) (t : Tenant) where
  reconcile_live-IsAdmitted :
      (db : Database) (s : Run)
      → resolve_tenant (reader_at env s.calls) (database db) ≡ ok t
      → IsAdmitted db
      → AllWrites IsAdmitted s.calls
      → AllWrites IsAdmitted (reconcile_live env recorder db s).1.calls
  unfolding reconcile_live
  reconcile_live-IsAdmitted db s q f h =
      ground
        (arith, reconcile_tenant-Safe env echoes IsAdmitted IsAdmitted-Survives recorder db t s f h)

-- Every phase that a run of the reconciler writes for a database whose tenant is resolved is one of
-- the enumeration that the CRD has for it, or empty: if the phase of the database that was read is,
-- the writes before the run are, and the API server answers an accepted write with the object it
-- was sent.
pub reconcile_database-IsAdmitted :
    (env : Env) (recorder : Bool) (t : Tenant) (db : Database) (s : Run)
    → Echoes env
    → resolve_tenant (reader_at env s.calls) (database db) ≡ ok t
    → IsAdmitted db
    → AllWrites IsAdmitted s.calls
    → AllWrites IsAdmitted (reconcile_database env recorder db s).1.calls
unfolding reconcile_database
reconcile_database-IsAdmitted env recorder t db s echoes q f h = ground (
  arith,
  handle_deletion-AllWrites env IsAdmitted db s f h,
  reconcile_live-IsAdmitted env echoes recorder t db s q f h,
)
