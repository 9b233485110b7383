-- ===== src/Controller/Team/Deletion.antt =====
-- The deletion of a team in internal/controller/team_controller.go.
use kidp.Prelude.{◌<◌, ◌≡◌, ◌≢◌, refl, ap, ◌↔◌, inl, inr, some, true}
use kidp.Prelude.{List, [], ◌∷◌, In, arith}
use kidp.Result.{ok}
use kidp.Api.Database.{Database}
use kidp.Api.Team.{Team}
use kidp.Client.{Env, Run, Outcome, History, update, update_status, team, failed_with}
use kidp.Controller.Team.{owned_databases, check_owned_resources, handle_deletion, finalizer_name}
use kidp.Controller.Team.{block_deletion, release, still_owns, with_meta, with_phase}

abbrev pub IsOwner : Team → Database → Type 0
IsOwner t db = (db.spec.owner.kind ≡ "Team") × (db.spec.owner.name ≡ t.meta.name)

owned_databases-zero :
    (t : Team) (dbs : List Database)
    → (owned_databases t dbs ≡ 0) ↔ ((db : Database) → In db dbs → ¬ IsOwner t db)
unfolding owned_databases
owned_databases-zero t [] = (λ h db i. elim i [ ], λ h. refl)
owned_databases-zero t (db ∷ dbs) = (
  λ h x i o. elim i [
    | inl p ↦ ground arith
    | inr j ↦ (owned_databases-zero t dbs).0 (ground arith) x j o
  ],
  λ h. ground (arith, h db (inl refl), (owned_databases-zero t dbs).1 (λ x j. h x (inr j))),
)

-- The team as it is written to let it go.
abbrev pub released : Env → Team → Team
released env t = with_meta (env.remove_finalizer t.meta finalizer_name) t

module _ (env : Env) (t : Team) (s : Run) (dbs : List Database) where
  deletion_released :
      env.contains_finalizer t.meta finalizer_name ≡ true
      → env.list_databases s.calls "" ≡ ok dbs
      → owned_databases t dbs ≡ 0
      → (handle_deletion env t s).1.calls ≡ update (team (released env t)) ∷ s.calls
  unfolding handle_deletion check_owned_resources release
  deletion_released f listed z = ground arith

  deletion_blocked :
      env.contains_finalizer t.meta finalizer_name ≡ true
      → env.list_databases s.calls "" ≡ ok dbs
      → owned_databases t dbs ≢ 0
      → handle_deletion env t s ≡ (
        failed_with (still_owns t (owned_databases t dbs)),
        record s { calls = update_status (team (with_phase "Deleting" t)) ∷ s.calls },
      )
  unfolding handle_deletion check_owned_resources block_deletion
  deletion_blocked f listed z = ground arith

  -- A team under deletion that has its finalizer is written back without it, in a single request,
  -- exactly if no listed database, in any namespace, has the team for an owner; where one has, the
  -- only request is the write of the status with the phase Deleting, and the run ends in the error
  -- that counts the owned databases, of which there are some. The databases can be listed.
  pub handle_deletion_iff_unowned :
      env.contains_finalizer t.meta finalizer_name ≡ true
      → env.list_databases s.calls "" ≡ ok dbs
      → (((handle_deletion env t s).1.calls ≡ update (team (released env t)) ∷ s.calls)
          ↔ ((db : Database) → In db dbs → ¬ IsOwner t db))
        × ((db : Database)
            → In db dbs
            → IsOwner t db
            → ((handle_deletion env t s).1.calls
                ≡ update_status (team (with_phase "Deleting" t)) ∷ s.calls)
              × ((handle_deletion env t s).0.error ≡ some (still_owns t (owned_databases t dbs)))
              × (0 < owned_databases t dbs))
  handle_deletion_iff_unowned f listed = (
    (
      λ h db i o. apart (ap (λ (r : Outcome × Run). r.1.calls) (blocked db i o)) h,
      λ h. deletion_released f listed ((owned_databases-zero t dbs).1 h),
    ),
    λ db i o. (
      ap (λ (r : Outcome × Run). r.1.calls) (blocked db i o),
      ap (λ (r : Outcome × Run). r.0.error) (blocked db i o),
      ground (arith, some_owned db i o),
    ),
  )
    where
      some_owned : (db : Database) → In db dbs → IsOwner t db → owned_databases t dbs ≢ 0
      some_owned db i o z = (owned_databases-zero t dbs).0 z db i o

      blocked :
          (db : Database)
          → In db dbs
          → IsOwner t db
          → handle_deletion env t s ≡ (
            failed_with (still_owns t (owned_databases t dbs)),
            record s { calls = update_status (team (with_phase "Deleting" t)) ∷ s.calls },
          )
      blocked db i o = deletion_blocked f listed (some_owned db i o)

      apart :
          {h : History} {x y : Team}
          → h ≡ update_status (team x) ∷ s.calls
          → ¬ (h ≡ update (team y) ∷ s.calls)
      apart p q = cc
