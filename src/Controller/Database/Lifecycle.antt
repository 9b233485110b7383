-- ===== src/Controller/Database/Lifecycle.antt =====
-- The life of a database: reconciliations of internal/controller/database_controller.go, callbacks
-- of internal/webhook/server.go and changes by its users, in any order.
use kidp.Prelude.{
  String, ◌≡◌, ◌≢◌, sym, ◌∙◌, ap, subst, inl, inr, Bool, true, false, Bool-cases, arith,
}
use kidp.Prelude.{some, []}
use kidp.Api.Meta.{ObjectMeta, Time}
use kidp.Api.Database.{Database, DatabaseSpec}
use kidp.Callbacks.{CallbackRequest}
use kidp.Client.{Env, Run, Outcome}
use kidp.Client.Documented.{FinalizerLaws}
use kidp.Webhook.{updated}
use kidp.Controller.Database.{
  finalizer_name, with_meta, handle_deletion, reconcile_live, reconcile_database,
}
use kidp.Controller.Database.Writes.{AllWrites, Writes, Writes-AllWrites}
use kidp.Controller.Database.Keeping.{Echoes, handle_deletion-AllWrites}
use kidp.Controller.Database.Finalizer.{reconcile_live-Safe}

-- `RemoveFinalizer` leaves the time of the deletion alone.
abbrev pub RemoveKeeps : Env → Type 0
RemoveKeeps env =
    (m : ObjectMeta) (f : String)
    → (env.remove_finalizer m f).deletion_timestamp ≡ m.deletion_timestamp

module _ (env : Env) where
  abbrev IsDeleting : Database → Type 0
  IsDeleting db = env.is_zero db.meta.deletion_timestamp ≡ false

  handle_deletion-IsDeleting :
      RemoveKeeps env
      → (db : Database) (s : Run) → IsDeleting db
      → AllWrites IsDeleting s.calls
      → AllWrites IsDeleting (handle_deletion env db s).1.calls
  handle_deletion-IsDeleting keeps db s d a =
      handle_deletion-AllWrites env IsDeleting db s
        (ap env.is_zero (keeps db.meta finalizer_name) ∙ d) a

-- A live database that has a deployment has the finalizer.
abbrev pub IsCovered : Env → Database → Type 0
IsCovered env db =
    env.is_zero db.meta.deletion_timestamp ≡ true
    → db.status.deployment_id ≢ ""
    → env.contains_finalizer db.meta finalizer_name ≡ true

reconcile_database-IsCovered :
    (env : Env) (recorder : Bool) (db db' : Database) (s : Run)
    → Echoes env
    → FinalizerLaws env
    → RemoveKeeps env
    → s.calls ≡ []
    → Writes db' (reconcile_database env recorder db s).1.calls
    → IsCovered env db'
unfolding reconcile_database
reconcile_database-IsCovered env recorder db db' s echoes laws keeps start w live deployed =
    elim (Bool-cases (env.is_zero db.meta.deletion_timestamp)) [
      | inl q ↦
          Writes-AllWrites (λ x. env.contains_finalizer x.meta finalizer_name ≡ true) db' _
            (reconcile_live-Safe env echoes laws recorder db s (empty_start _)) (ran_live q)
      | inr q ↦ absurd (
          bool_apart live (
            Writes-AllWrites (λ x. env.is_zero x.meta.deletion_timestamp ≡ false) db' _
              (handle_deletion-IsDeleting env keeps db s q (empty_start _)) (ran_deletion q)))
    ]
  where
    empty_start : (P : Database → Type 0) → AllWrites P s.calls
    empty_start P = subst (AllWrites P) (sym start) tt

    bool_apart : {b : Bool} → b ≡ true → b ≡ false → ⊥
    bool_apart p q = cc

    ran_live :
        env.is_zero db.meta.deletion_timestamp ≡ true
        → Writes db' (reconcile_live env recorder db s).1.calls
    ran_live q = subst (λ (r : Outcome × Run). Writes db' r.1.calls) same w
      where
        same : reconcile_database env recorder db s ≡ reconcile_live env recorder db s
        same = rw (q, reconcile_database)

    ran_deletion :
        env.is_zero db.meta.deletion_timestamp ≡ false
        → Writes db' (handle_deletion env db s).1.calls
    ran_deletion q = subst (λ (r : Outcome × Run). Writes db' r.1.calls) same w
      where
        same : reconcile_database env recorder db s ≡ handle_deletion env db s
        same = rw (q, reconcile_database)

-- The environment has the functions of the Kubernetes library that `lib` has.
abbrev pub SharesLibrary : Env → Env → Type 0
SharesLibrary lib env =
    (env.contains_finalizer ≡ lib.contains_finalizer) × (env.is_zero ≡ lib.is_zero)

-- One change of a database: a write of a reconciliation in one of the environments `Runs`, an
-- accepted callback, or what its users do to it.
pub data Step (lib : Env) (Runs : Env → Type 0) (db db' : Database) : Type 0 where
  reconciles :
      (env : Env) (recorder : Bool) (s : Run)
      → Runs env
      → s.calls ≡ []
      → Writes db' (reconcile_database env recorder db s).1.calls
      → Step lib Runs db db'
  called_back : (callback : CallbackRequest) → db' ≡ updated callback db → Step lib Runs db db'
  specified : (spec : DatabaseSpec) → db' ≡ record db { spec = spec } → Step lib Runs db db'
  deleted :
      (t : Time)
      → lib.is_zero (some t) ≡ false
      → db' ≡ with_meta (record db.meta { deletion_timestamp = some t }) db
      → Step lib Runs db db'

pub data Steps (lib : Env) (Runs : Env → Type 0) (db : Database) : Database → Type 0 where
  here : Steps lib Runs db db
  later : {x y : Database} → Steps lib Runs db x → Step lib Runs x y → Steps lib Runs db y

updated_meta :
    (callback : CallbackRequest) (db : Database)
    → ((updated callback db).meta ≡ db.meta)
      × ((updated callback db).status.deployment_id ≡ db.status.deployment_id)
unfolding updated
updated_meta callback db = ground arith

called_back-IsCovered :
    (lib : Env) (callback : CallbackRequest) (db : Database)
    → IsCovered lib db
    → IsCovered lib (updated callback db)
called_back-IsCovered lib callback db c =
    let (same_meta, same_id) = updated_meta callback db in
    λ live deployed.
      ap (λ m. lib.contains_finalizer m finalizer_name) same_meta
      ∙ c (ap (λ m. lib.is_zero m.deletion_timestamp) (sym same_meta) ∙ live)
          (λ e. deployed (same_id ∙ e))

module _ (lib : Env) (Runs : Env → Type 0) (shares : (env : Env) → Runs env → SharesLibrary lib env)
    (echoes : (env : Env) → Runs env → Echoes env)
    (laws : (env : Env) → Runs env → FinalizerLaws env)
    (keeps : (env : Env) → Runs env → RemoveKeeps env) where
  Step-IsCovered : {x y : Database} → Step lib Runs x y → IsCovered lib x → IsCovered lib y
  Step-IsCovered {x} {y} (reconciles env recorder s runs start w) c = λ live deployed.
      ap (λ has. has y.meta finalizer_name) (sym (shares env runs).0)
      ∙ reconcile_database-IsCovered env recorder x y s (echoes env runs) (laws env runs)
          (keeps env runs) start w
          (ap (λ test. test y.meta.deletion_timestamp) (shares env runs).1 ∙ live) deployed
  Step-IsCovered {x} (called_back callback q) c =
      subst (IsCovered lib) (sym q) (called_back-IsCovered lib callback x c)
  Step-IsCovered (specified spec q) c = subst (IsCovered lib) (sym q) c
  Step-IsCovered {x} (deleted t gone q) c =
      subst (IsCovered lib) (sym q) (λ live deployed. absurd (apart live gone))
    where
      apart : {b : Bool} → b ≡ true → b ≡ false → ⊥
      apart p q = cc

  -- A database without a deployment at first is reconciled, called back about, specified anew and
  -- deleted, in whatever order: once it has a deployment and is not being deleted, it has the
  -- finalizer that holds its deletion back. Each reconciliation begins with no calls and takes the
  -- version that is there, in an environment of a set whose members all have the same tests of a
  -- finalizer and of a time; in each of them the API server answers an accepted write with the
  -- object that it was sent, finalizers are as documented, and removing one leaves the time of the
  -- deletion alone. A callback changes the database as the manager does on accepting it, users
  -- change the specification alone, and a deletion sets a time that is not zero.
  pub Steps-IsCovered :
      (first db : Database)
      → first.status.deployment_id ≡ ""
      → Steps lib Runs first db
      → lib.is_zero db.meta.deletion_timestamp ≡ true
      → db.status.deployment_id ≢ ""
      → lib.contains_finalizer db.meta finalizer_name ≡ true
  Steps-IsCovered first db fresh steps = reached steps
    where
      reached : {x : Database} → Steps lib Runs first x → IsCovered lib x
      reached here = λ live deployed. absurd (deployed fresh)
      reached (later s st) = Step-IsCovered st (reached s)
