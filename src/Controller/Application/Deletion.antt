-- ===== src/Controller/Application/Deletion.antt =====
-- The deletion of an application in internal/controller/application_controller.go.
use kidp.Prelude.{◌<◌, ◌≡◌, ◌≢◌, refl, ap, ◌↔◌, inl, inr, some, true, List, [], ◌∷◌, In, arith}
use kidp.Result.{ok}
use kidp.Api.Database.{Database}
use kidp.Api.Application.{Application}
use kidp.Client.{Env, Run, Outcome, History, update, update_status, application, failed_with}
use kidp.Controller.Application.{owned_databases, check_owned_resources, handle_deletion}
use kidp.Controller.Application.{
  finalizer_name, block_deletion, release, still_owns, with_meta, with_phase,
}

abbrev pub IsOwner : Application → Database → Type 0
IsOwner a db =
    (db.spec.owner.kind ≡ "Application")
    × (db.spec.owner.name ≡ a.meta.name)
    × (db.meta.namespace ≡ a.meta.namespace)

owned_databases-zero :
    (a : Application) (dbs : List Database)
    → (owned_databases a dbs ≡ 0) ↔ ((db : Database) → In db dbs → ¬ IsOwner a db)
unfolding owned_databases
owned_databases-zero a [] = (λ h db i. elim i [ ], λ h. refl)
owned_databases-zero a (db ∷ dbs) = (
  λ h x i o. elim i [
    | inl p ↦ ground arith
    | inr j ↦ (owned_databases-zero a dbs).0 (ground arith) x j o
  ],
  λ h. ground (arith, h db (inl refl), (owned_databases-zero a dbs).1 (λ x j. h x (inr j))),
)

-- The application as it is written to let it go.
abbrev pub released : Env → Application → Application
released env a = with_meta (env.remove_finalizer a.meta finalizer_name) a

module _ (env : Env) (a : Application) (s : Run) (dbs : List Database) where
  deletion_released :
      env.contains_finalizer a.meta finalizer_name ≡ true
      → env.list_databases s.calls "" ≡ ok dbs
      → owned_databases a dbs ≡ 0
      → (handle_deletion env a s).1.calls ≡ update (application (released env a)) ∷ s.calls
  unfolding handle_deletion check_owned_resources release
  deletion_released f listed z = ground arith

  deletion_blocked :
      env.contains_finalizer a.meta finalizer_name ≡ true
      → env.list_databases s.calls "" ≡ ok dbs
      → owned_databases a dbs ≢ 0
      → handle_deletion env a s ≡ (
        failed_with (still_owns a (owned_databases a dbs)),
        record s { calls = update_status (application (with_phase "Deleting" a)) ∷ s.calls },
      )
  unfolding handle_deletion check_owned_resources block_deletion
  deletion_blocked f listed z = ground arith

  -- An application under deletion that has its finalizer is written back without it, in a single
  -- request, exactly if no listed database of its namespace has it for an owner; where one has, the
  -- only request is the write of the status with the phase Deleting, and the run ends in the error
  -- that counts the owned databases, of which there are some. The databases can be listed.
  pub application_handle_deletion_iff_unowned :
      env.contains_finalizer a.meta finalizer_name ≡ true
      → env.list_databases s.calls "" ≡ ok dbs
      → (((handle_deletion env a s).1.calls ≡ update (application (released env a)) ∷ s.calls)
          ↔ ((db : Database) → In db dbs → ¬ IsOwner a db))
        × ((db : Database)
            → In db dbs
            → IsOwner a db
            → ((handle_deletion env a s).1.calls
                ≡ update_status (application (with_phase "Deleting" a)) ∷ s.calls)
              × ((handle_deletion env a s).0.error ≡ some (still_owns a (owned_databases a dbs)))
              × (0 < owned_databases a dbs))
  application_handle_deletion_iff_unowned f listed = (
    (
      λ h db i o. apart (ap (λ (r : Outcome × Run). r.1.calls) (blocked db i o)) h,
      λ h. deletion_released f listed ((owned_databases-zero a dbs).1 h),
    ),
    λ db i o. (
      ap (λ (r : Outcome × Run). r.1.calls) (blocked db i o),
      ap (λ (r : Outcome × Run). r.0.error) (blocked db i o),
      ground (arith, some_owned db i o),
    ),
  )
    where
      some_owned : (db : Database) → In db dbs → IsOwner a db → owned_databases a dbs ≢ 0
      some_owned db i o z = (owned_databases-zero a dbs).0 z db i o

      blocked :
          (db : Database)
          → In db dbs
          → IsOwner a db
          → handle_deletion env a s ≡ (
            failed_with (still_owns a (owned_databases a dbs)),
            record s { calls = update_status (application (with_phase "Deleting" a)) ∷ s.calls },
          )
      blocked db i o = deletion_blocked f listed (some_owned db i o)

      apart :
          {h : History} {x y : Application}
          → h ≡ update_status (application x) ∷ s.calls
          → ¬ (h ≡ update (application y) ∷ s.calls)
      apart p q = cc
