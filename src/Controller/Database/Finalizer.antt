-- ===== src/Controller/Database/Finalizer.antt =====
-- The finalizer in what internal/controller/database_controller.go writes of a live database.
use kidp.Prelude.{◌≡◌, ◌∙◌, inl, inr, Bool, true, Bool-cases, arith}
use kidp.Result.{Error, Result-cases}
use kidp.Api.Database.{Database}
use kidp.Client.{Env, Run, database}
use kidp.Client.Documented.{FinalizerLaws}
use kidp.Resolver.{reader_at, resolve_tenant}
use kidp.Controller.Database.{finalizer_name, suspend, reconcile_live}
use kidp.Controller.Database.Writes.{AllWrites}
use kidp.Controller.Database.Keeping.{Echoes, Survives, status-Safe, reconcile_tenant-Safe}

module _ (env : Env) (echoes : Echoes env) (laws : FinalizerLaws env) where
  abbrev pub IsFinalized : Database → Type 0
  IsFinalized db = env.contains_finalizer db.meta finalizer_name ≡ true

  IsFinalized-Survives : Survives IsFinalized
  IsFinalized-Survives = record {
    provisioning = λ db f. f;
    failed = λ db f. f;
    deployed = λ b resp db f. f;
    relabelled = λ m db same f. laws.contains_of_list m db.meta finalizer_name same ∙ f;
  }

  module _ (recorder : Bool) where
    suspend-IsFinalized :
        (db : Database) (e : Error) (s : Run)
        → IsFinalized db
        → AllWrites IsFinalized s.calls
        → AllWrites IsFinalized (suspend env recorder db e s).1.calls
    unfolding suspend
    suspend-IsFinalized db e s f h =
        grind (arith, status-Safe env echoes IsFinalized IsFinalized-Survives)

    -- Whatever a live database is reconciled to, each of its writes has the finalizer.
    pub reconcile_live-Safe :
        (db : Database) (s : Run)
        → AllWrites IsFinalized s.calls
        → AllWrites IsFinalized (reconcile_live env recorder db s).1.calls
    unfolding reconcile_live
    reconcile_live-Safe db s h = elim (Bool-cases (env.contains_finalizer db.meta finalizer_name)) [
      | inr missing ↦ ground (arith, laws.contains-add db.meta finalizer_name)
      | inl there ↦ elim (Result-cases (resolve_tenant (reader_at env s.calls) (database db))) [
        | inl (t, q) ↦
            rw (there, q, reconcile_live)
              (reconcile_tenant-Safe env echoes IsFinalized IsFinalized-Survives recorder db t s
                there h)
        | inr (e, q) ↦ rw (there, q, reconcile_live) (suspend-IsFinalized db e s there h)
      ]
    ]
