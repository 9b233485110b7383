-- ===== src/Controller/Database/Requests.antt =====
-- How often one run of internal/controller/database_controller.go calls a broker.
use kidp.Prelude.{ℕ, ◌+◌, ◌≤◌, ◌≡◌, refl, String, arith, Option, none, some, Bool}
use kidp.Result.{Error}
use kidp.Api.Meta.{ObjectKey}
use kidp.Api.Broker.{Broker}
use kidp.Api.Database.{Database}
use kidp.Api.Tenant.{Tenant}
use kidp.Registry.{Registry, SelectionCriteria}
use kidp.BrokerClient.Types.{ProvisionRequest, DeprovisionRequest}
use kidp.BrokerCalls.{provision, deprovision}
use kidp.Client.{Env, Run, database_kind}
use kidp.Client.Trace.{is_http, count}
use kidp.Status.{update_status_with_fallback}
use kidp.Controller.Database.{select_with, provision_database, cleanup_database, handle_deletion}
use kidp.Controller.Database.{
  start_provisioning, suspend, reconcile_tenant, reconcile_live, reconcile,
}
use kidp.Controller.Database.{reconcile_database, provision_on, provision_with, deprovision_on}
use kidp.Controller.Database.{
  deprovisioning_broker, cleanup_with, found_or_selected, settle, with_phase,
}
use kidp.Controller.Database.{store_deployment, assign_label}

-- The calls of brokers in a run.
abbrev pub broker_calls : Run → ℕ
broker_calls s = count is_http s.calls

module _ (env : Env) where
  provision_count :
      (url : String) (r : ProvisionRequest) (s : Run)
      → broker_calls (provision env url r s).1 ≤ broker_calls s + 1
  unfolding provision
  provision_count url r s = ground arith

  deprovision_count :
      (url : String) (r : DeprovisionRequest) (s : Run)
      → broker_calls (deprovision env url r s).1 ≤ broker_calls s + 1
  unfolding deprovision
  deprovision_count url r s = ground arith

  pub select_count :
      (g : Registry) (c : SelectionCriteria) (s : Run)
      → broker_calls (select_with env g c s).1 ≡ broker_calls s
  unfolding select_with
  select_count g c s = refl

  pub status_count :
      (db : Database) (s : Run)
      → broker_calls (update_status_with_fallback env database_kind db s).1 ≡ broker_calls s
  unfolding update_status_with_fallback
  status_count db s = ground arith

  provision_on_count :
      (b : Broker) (db : Database) (s : Run)
      → broker_calls (provision_on env b db s).1 ≤ broker_calls s + 1
  unfolding provision_on store_deployment
  provision_on_count b db s = grind (arith, provision_count, status_count)

  provision_with_count :
      (o : Option Registry) (db : Database) (s : Run)
      → broker_calls (provision_with env o db s).1 ≤ broker_calls s + 1
  unfolding provision_with
  provision_with_count none db s = omega arith
  provision_with_count (some g) db s = grind (arith, select_count, provision_on_count)

  cleanup_with_count :
      (o : Option Registry) (db : Database) (s : Run)
      → broker_calls (cleanup_with env o db s).1 ≤ broker_calls s + 1
  unfolding cleanup_with deprovisioning_broker found_or_selected deprovision_on
  cleanup_with_count none db s = omega arith
  cleanup_with_count (some g) db s = grind (arith, select_count, deprovision_count)

  pub handle_deletion_count :
      (db : Database) (s : Run) → broker_calls (handle_deletion env db s).1 ≤ broker_calls s + 1
  unfolding handle_deletion cleanup_database
  handle_deletion_count db s = grind (arith, cleanup_with_count)

  settle_count :
      (r : Option Error × Database) (s : Run) → broker_calls (settle env r s).1 ≡ broker_calls s
  unfolding settle
  settle_count (none, db) s = refl
  settle_count (some e, db) s = status_count (with_phase "Failed" db) s

  pub start_provisioning_count :
      (db : Database) (s : Run) → broker_calls (start_provisioning env db s).1 ≤ broker_calls s + 1
  unfolding start_provisioning provision_database
  start_provisioning_count db s = grind (arith, status_count, provision_with_count, settle_count)

  module _ (recorder : Bool) where
    pub suspend_count :
        (db : Database) (e : Error) (s : Run)
        → broker_calls (suspend env recorder db e s).1 ≡ broker_calls s
    unfolding suspend
    suspend_count db e s = grind (arith, status_count)

    reconcile_tenant_count :
        (db : Database) (t : Tenant) (s : Run)
        → broker_calls (reconcile_tenant env recorder db t s).1 ≤ broker_calls s + 1
    unfolding reconcile_tenant assign_label
    reconcile_tenant_count db t s = grind (arith, start_provisioning_count)

    reconcile_database_count :
        (db : Database) (s : Run)
        → broker_calls (reconcile_database env recorder db s).1 ≤ broker_calls s + 1
    unfolding reconcile_database reconcile_live
    reconcile_database_count db s =
        grind (arith, handle_deletion_count, suspend_count, reconcile_tenant_count)

    -- One reconciliation calls a broker at most once, whatever the answers: it never provisions
    -- twice, and never provisions and deprovisions.
    pub reconcile_count :
        (key : ObjectKey) (s : Run)
        → broker_calls (reconcile env recorder key s).1 ≤ broker_calls s + 1
    unfolding reconcile
    reconcile_count key s = grind (arith, reconcile_database_count)
