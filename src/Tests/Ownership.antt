-- ===== src/Tests/Ownership.antt =====
-- Teams and applications that own a database, and suspended ones.
use kidp.Prelude.{
  ◌<◌, ◌≡◌, refl, ◌⊎◌, ◌↔◌, string_dec, inl, inr, pos, ◌≢◌, true, some, List, [], ◌∷◌, In,
}
use kidp.Result.{ok, err, not_found}
use kidp.Status.{update_status_with_fallback}
use kidp.Api.Tenant.{Tenant}
use kidp.Api.Database.{Database, allowed_phases}
use kidp.Api.Team.{Team, team_phases}
use kidp.Api.Application.{Application, application_phases}
use kidp.Client.{Env, application, database, team, update, update_status}
use kidp.Resolver.{
  reader_at, cluster_key, resolve_tenant, resolve_from, resolve_step, resolve_owner, named_tenant,
  owner_of, fetch_owner, fetch_team,
}
use kidp.Controller.Database as Databases
use kidp.Controller.Refused.{phases_not_admitted}
use kidp.Controller.Team as Teams
use kidp.Controller.Team.Deletion as TeamDeletion
use kidp.Controller.Team.Deletion.{released, handle_deletion_iff_unowned}
use kidp.Controller.Team.Suspension
use kidp.Controller.Team.Suspension.{Writes, reconciles, edited, here, later, suspended_stays}
use kidp.Controller.Application as Applications
use kidp.Tests.Fixtures.{answering, started, platform, team_in, to_acme, shop, labelled, deployed}

abbrev databases : List Database
databases = labelled ∷ deployed ∷ []

team_finalizer : (answering 200).contains_finalizer platform.meta Teams.finalizer_name ≡ true
unfolding string_dec
team_finalizer = refl

handle_deletion_iff_unowned_example :
    (((Teams.handle_deletion (answering 200) platform started).1.calls
        ≡ update (team (released (answering 200) platform)) ∷ [])
      ↔ ((db : Database) → In db databases → ¬ TeamDeletion.IsOwner platform db))
    × ((db : Database)
        → In db databases
        → TeamDeletion.IsOwner platform db
        → ((Teams.handle_deletion (answering 200) platform started).1.calls
            ≡ update_status (team (Teams.with_phase "Deleting" platform)) ∷ [])
          × ((Teams.handle_deletion (answering 200) platform started).0.error
              ≡ some (Teams.still_owns platform (Teams.owned_databases platform databases)))
          × (0 < Teams.owned_databases platform databases))
handle_deletion_iff_unowned_example =
    handle_deletion_iff_unowned (answering 200) platform started databases team_finalizer refl

-- The team, suspended, and its tenant missing and found again.
abbrev suspended : Team
suspended = team_in "Suspended" to_acme

abbrev without_tenant : Env
without_tenant = record (answering 200) {
  teams = record (answering 200).teams { get = λ h key. ok (team_in "Suspended" to_acme) };
  tenants = record (answering 200).tenants { get = λ h key. err (not_found key.name) };
}

abbrev with_team : Team → Env
with_team t = record (answering 200) {
  teams = record (answering 200).teams { get = λ h key. ok t };
}

abbrev ending : Team
ending = record (team_in "Suspended" to_acme) {
  meta = record (team_in "Suspended" to_acme).meta { deletion_timestamp = some (pos 0) };
}

suspended_again :
    Writes suspended (Teams.reconcile without_tenant (cluster_key "platform") started).1.calls
unfolding Teams.reconcile Teams.reconcile_live Teams.verify_tenant Teams.suspend
    update_status_with_fallback string_dec
suspended_again = inr (inl refl)

blocked_again :
    Writes
      (Teams.with_phase "Deleting" ending)
      (Teams.reconcile (with_team ending) (cluster_key "platform") started).1.calls
unfolding Teams.reconcile Teams.handle_deletion Teams.check_owned_resources Teams.block_deletion
    Teams.owned_databases string_dec
blocked_again = inr (inl refl)

-- It is suspended once more, then deleted, and its deletion is blocked.
suspensions : Suspension.Steps suspended (Teams.with_phase "Deleting" ending)
suspensions =
    later
      (later
        (later here
          (reconciles without_tenant (cluster_key "platform") started refl refl suspended_again))
        (edited ending.meta ending.spec refl))
      (reconciles (with_team ending) (cluster_key "platform") started refl refl blocked_again)

suspended_stays_example :
    ((Teams.with_phase "Deleting" ending).status.phase ≡ "Suspended")
    ⊎ ((Teams.with_phase "Deleting" ending).status.phase ≡ "Deleting")
suspended_stays_example =
    suspended_stays suspended (Teams.with_phase "Deleting" ending) refl suspensions

application_finalizer :
    (answering 200).contains_finalizer shop.meta Applications.finalizer_name ≡ true
unfolding string_dec
application_finalizer = refl

-- A database of the application, and the environment in which it is listed too, the team and the
-- application are being deleted, and the tenant is missing.
abbrev of_shop : Database
of_shop = record labelled {
  spec = record labelled.spec {
    owner = record { kind = "Application"; name = "shop"; namespace = "" };
  };
}

abbrev ending_shop : Application
ending_shop = record shop { meta = record shop.meta { deletion_timestamp = some (pos 0) } }

abbrev ends : Env
ends = record (answering 200) {
  databases = record (answering 200).databases { get = λ h key. ok labelled };
  teams = record (answering 200).teams { get = λ h key. ok ending };
  applications = record (answering 200).applications { get = λ h key. ok ending_shop };
  tenants = record (answering 200).tenants { get = λ h key. err (not_found key.name) };
  list_databases = λ h ns. ok (labelled ∷ of_shop ∷ []);
}

unresolved : (tenant : Tenant) → resolve_tenant (reader_at ends []) (database labelled) ≢ ok tenant
unfolding resolve_tenant resolve_from resolve_step resolve_owner named_tenant owner_of fetch_owner
    fetch_team string_dec
unresolved tenant q = cc

database_finalizer :
    (answering 200).contains_finalizer labelled.meta Databases.finalizer_name ≡ true
unfolding string_dec
database_finalizer = refl

phases_not_admitted_example :
    ((db' : Database) × In
        (update_status (database db'))
        (Databases.reconcile ends true (cluster_key "orders") started).1.calls
      × ¬ In db'.status.phase allowed_phases)
    × ((t' : Team) × In
          (update_status (team t'))
          (Teams.reconcile ends (cluster_key "platform") started).1.calls
        × ¬ In t'.status.phase team_phases)
    × ((a' : Application) × In
          (update_status (application a'))
          (Applications.reconcile ends true (cluster_key "shop") started).1.calls
        × ¬ In a'.status.phase application_phases)
phases_not_admitted_example =
    phases_not_admitted ends true started labelled ending ending_shop (cluster_key "orders")
      (cluster_key "platform") (cluster_key "shop") (labelled ∷ of_shop ∷ []) labelled of_shop refl
      refl database_finalizer unresolved refl refl refl team_finalizer (inl refl) (refl, refl) refl
      refl application_finalizer (inr (inl refl)) (refl, refl, refl)
