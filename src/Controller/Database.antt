-- ===== src/Controller/Database.antt =====
-- internal/controller/database_controller.go. `recorder` says whether the reconciler has an event
-- recorder; the registry that it may have stands in the run.
pub mod Requests
pub mod Deletion
pub mod Placement
pub mod Orphans
pub mod Progress
pub mod Writes
pub mod Keeping
pub mod Finalizer
pub mod Phases
pub mod Lifecycle
pub mod Convergence
pub mod Liveness
pub mod Release
use kidp.Prelude.{String, ◌<>◌, ◌==◌, is_empty, not, ◌&&◌, if◌then◌else◌, Bool, true, false}
use kidp.Prelude.{Option, none, some, List, [], ◌∷◌}
use kidp.Result.{Result, ok, err, Error, errorf, wrapf, is_not_found}
use kidp.Json.{text, end, field}
use kidp.Api.Meta.{ObjectKey, ObjectMeta, tenant_label, read, or_make, set_label}
use kidp.Api.Owner.{ObjectReference}
use kidp.Api.Broker.{Broker}
use kidp.Api.Database.{Database}
use kidp.Api.Tenant.{Tenant}
use kidp.Registry.{Registry, Discovery, SelectionCriteria, select_broker}
use kidp.BrokerClient.Types.{ProvisionRequest, ProvisionResponse, DeprovisionRequest}
use kidp.BrokerCalls.{provision, deprovision}
use kidp.Client.{Env, History, Run, Call, Exec, Outcome, pure, branch, reads, ◌>>=◌, ◌>>◌, database}
use kidp.Client.{
  database_kind, update_object, update_object_status, emit_event, finished, requeued, failed_with,
}
use kidp.Status.{update_status_with_fallback}
use kidp.Resolver.{reader_at, resolve_tenant}

abbrev pub finalizer_name : String
finalizer_name = "platform.company.com/database-cleanup"

abbrev pub default_callback_url : String
default_callback_url =
    "http://manager-webhook-service.kidp-system.svc.cluster.local:9090/v1/callback"

abbrev pub with_phase : String → Database → Database
with_phase phase db = record db { status = record db.status { phase = phase } }

abbrev pub with_meta : ObjectMeta → Database → Database
with_meta m db = record db { meta = m }

-- Both calls of the broker ask for a broker of the engine.
abbrev pub criteria_for : Database → SelectionCriteria
criteria_for db = record {
  resource_type = "Database";
  cloud_provider = "";
  region = "";
  provider = db.spec.engine;
}

-- The deployment's ID and the broker that gave it.
abbrev pub with_deployment : Broker → ProvisionResponse → Database → Database
with_deployment b resp db = record db {
  status = record db.status {
    deployment_id = resp.deployment_id;
    broker_ref = some (record { name = b.meta.name; namespace = b.meta.namespace });
  };
}

module _ (env : Env) where
  abbrev pub callback_url : String
  callback_url = if is_empty env.callback_url then default_callback_url else env.callback_url

  abbrev pub discovery_at : History → Discovery
  discovery_at h = record { listing = env.list_brokers h; clock = env.clock h; order = env.order h }

  -- `r.BrokerRegistry.SelectBroker`
  unfoldable pub select_with : Registry → SelectionCriteria → Exec (Result Broker)
  select_with registry criteria s =
      let (registry', r) = select_broker env.floats registry (discovery_at s.calls) criteria in
      (r, record s { registry = some registry' })

  abbrev pub provision_request : Database → ProvisionRequest
  provision_request db = record {
    resource_type = "database";
    resource_name = db.meta.name;
    namespace = db.meta.namespace;
    team = db.spec.owner.kind <> "/" <> db.spec.owner.name;
    owner = db.spec.owner.name;
    callback_url = callback_url;
    spec = some (
        field "engine" (text db.spec.engine)
          (field "version" (text db.spec.version) (field "size" (text db.spec.size) end)));
  }

  abbrev pub deprovision_request : Database → DeprovisionRequest
  deprovision_request db = record {
    deployment_id = db.status.deployment_id;
    resource_type = "database";
    resource_name = db.meta.name;
    namespace = db.meta.namespace;
    callback_url = callback_url;
  }

  -- The end of `provisionDatabase`. The database comes back as it stands in memory, with the
  -- deployment's ID also where it could not be stored.
  unfoldable pub store_deployment : Database → Exec (Option Error × Database)
  store_deployment db = do
    r ← update_object_status env database_kind db
    branch r
        (λ e.
          if is_not_found e
          then (do
            u ← update_object env database_kind db
            branch u
                (λ x.
                  pure (some (wrapf "failed to update status with deploymentId (fallback)" x), db))
                (λ saved. pure (none, saved)))
          else (pure (some (wrapf "failed to update status with deploymentId" e), db)))
        (λ saved. pure (none, saved))

  unfoldable pub provision_on : Broker → Database → Exec (Option Error × Database)
  provision_on b db = do
    r ← provision env b.spec.endpoint (provision_request db)
    branch r (λ e. pure (some (wrapf "failed to call broker provision" e), db))
        (λ resp. store_deployment (with_deployment b resp db))

  unfoldable pub provision_with : Option Registry → Database → Exec (Option Error × Database)
  provision_with none db = pure (some (errorf "broker registry not configured"), db)
  provision_with (some registry) db = do
    r ← select_with registry (criteria_for db)
    branch r (λ e. pure (some (wrapf "failed to select broker" e), db)) (λ b. provision_on b db)

  unfoldable pub provision_database : Database → Exec (Option Error × Database)
  provision_database db s = provision_with s.registry db s

  -- The broker that handled the provisioning, if it is recorded and still there.
  abbrev pub recorded_broker : Database → Option ObjectReference → History → Option Broker
  recorded_broker db none h = none
  recorded_broker db (some ref) h =
      if is_empty ref.name
      then none
      else elim (env.brokers.get h (record {
        namespace = if is_empty ref.namespace then db.meta.namespace else ref.namespace;
        name = ref.name;
      })) [ ok b ↦ some b | err e ↦ none ]

  -- The recorded broker, or else a selected one; an error of the selection is only logged.
  unfoldable pub found_or_selected : Registry → Database → Option Broker → Exec (Option Broker)
  found_or_selected registry db (some b) = pure (some b)
  found_or_selected registry db none = do
    r ← select_with registry (criteria_for db)
    branch r (λ e. pure none) (λ b. pure (some b))

  unfoldable pub deprovisioning_broker : Registry → Database → Exec (Option Broker)
  deprovisioning_broker registry db = do
    recorded ← reads (recorded_broker db db.status.broker_ref)
    found_or_selected registry db recorded

  unfoldable pub deprovision_on : Database → Option Broker → Exec (Option Error)
  deprovision_on db none = pure none
  deprovision_on db (some b) = do
    r ← deprovision env b.spec.endpoint (deprovision_request db)
    branch r (λ e. pure (some (wrapf "failed to call broker deprovision" e))) (λ _. pure none)

  unfoldable pub cleanup_with : Option Registry → Database → Exec (Option Error)
  cleanup_with none db = pure none
  cleanup_with (some registry) db =
      if is_empty db.status.deployment_id
      then pure none
      else do b ← deprovisioning_broker registry db; deprovision_on db b

  unfoldable pub cleanup_database : Database → Exec (Option Error)
  cleanup_database db s = cleanup_with s.registry db s

  -- The end of `handleDeletion`.
  abbrev pub release : Database → Exec Outcome
  release db = do
    r ← update_object env database_kind (with_meta (env.remove_finalizer db.meta finalizer_name) db)
    branch r (λ e. pure (failed_with e)) (λ _. pure finished)

  unfoldable pub handle_deletion : Database → Exec Outcome
  handle_deletion db =
      if not (env.contains_finalizer db.meta finalizer_name) then pure finished else do
        failure ← cleanup_database db
        elim failure [ some e ↦ pure (failed_with e) | none ↦ release db ]

  -- After the call of the broker: the phase becomes Failed where there was an error.
  unfoldable pub settle : Option Error × Database → Exec Outcome
  settle (none, db) = pure finished
  settle (some e, db) = do
    update_status_with_fallback env database_kind (with_phase "Failed" db)
    pure (failed_with e)

  unfoldable pub start_provisioning : Database → Exec Outcome
  start_provisioning db = do
    r ←
        if db.status.phase == "Provisioning"
        then pure (ok db)
        else update_status_with_fallback env database_kind (with_phase "Provisioning" db)
    branch r (λ e. pure (failed_with e)) (λ saved. provision_database saved >>= settle)

  module _ (recorder : Bool) where
    unfoldable pub suspend : Database → Error → Exec Outcome
    suspend db terr = do
      emit_event recorder (
          Call.event (database db) "Warning" "TenantUnresolved" "tenant could not be resolved: "
            (some terr))
      r ← update_status_with_fallback env database_kind (with_phase "Suspended" db)
      branch r (λ e. pure (failed_with e)) (λ _. pure finished)

    unfoldable pub assign_label : Database → Tenant → Exec Outcome
    assign_label db tenant =
        let labelled = with_meta (set_label db.meta tenant_label tenant.meta.name) db in
        do
          r ← update_object env database_kind labelled
          branch r (λ e. pure (failed_with e))
              (λ saved. do
                emit_event recorder (
                    Call.event (database saved) "Normal" "TenantAssigned"
                      ("Assigned tenant " <> tenant.meta.name <> " to database " <> saved.meta.name)
                      none)
                pure requeued)

    unfoldable pub reconcile_tenant : Database → Tenant → Exec Outcome
    reconcile_tenant db tenant =
        if not (read db.meta.labels tenant_label == tenant.meta.name)
        then assign_label db tenant
        else if not (is_empty db.status.deployment_id)
        then pure finished
        else start_provisioning
            (with_meta (record db.meta { labels = some (or_make db.meta.labels) }) db)

    unfoldable pub reconcile_live : Database → Exec Outcome
    reconcile_live db =
        if not (env.contains_finalizer db.meta finalizer_name)
        then (do
          r ←
              update_object env database_kind
                (with_meta (env.add_finalizer db.meta finalizer_name) db)
          branch r (λ e. pure (failed_with e)) (λ _. pure requeued))
        else do
          resolved ← reads (λ h. resolve_tenant (reader_at env h) (database db))
          branch resolved (suspend db) (reconcile_tenant db)

    unfoldable pub reconcile_database : Database → Exec Outcome
    reconcile_database db =
        if not (env.is_zero db.meta.deletion_timestamp)
        then handle_deletion db
        else reconcile_live db

    unfoldable pub reconcile : ObjectKey → Exec Outcome
    reconcile key = do
      found ← reads (λ h. env.databases.get h key)
      branch found (λ e. pure (if is_not_found e then finished else failed_with e))
          reconcile_database
