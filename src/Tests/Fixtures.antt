-- ===== src/Tests/Fixtures.antt =====
-- A small cluster: a tenant with one team, one application, one database and one broker, and what
-- stands around the reconcilers.
use kidp.Prelude.{ℕ, pos, String, ◌==◌, Bool, true, false}
use kidp.Prelude.{Option, none, some, List, [], ◌∷◌, any, if◌then◌else◌, ◌≡◌, refl, ap, arith}
use kidp.Result.{Result, ok, err, not_found}
use kidp.Api.Meta.{ObjectMeta, Namespace, ObjectKey, tenant_label}
use kidp.Api.Owner.{OwnerReference, ObjectReference}
use kidp.Api.Broker.{Broker}
use kidp.Api.Database.{Database}
use kidp.Api.Tenant.{Tenant}
use kidp.Api.Team.{Team}
use kidp.Api.Application.{Application}
use kidp.Registry.{SelectionCriteria, new_registry}
use kidp.Tests.Numbers.{whole}
use kidp.Time.{seconds}
use kidp.Client.{Env, Endpoint, Run, History}
use kidp.Client.Documented.{FinalizerLaws}

abbrev pub named : String → String → ObjectMeta
named namespace name = record {
  name = name;
  namespace = namespace;
  labels = none;
  finalizers = [];
  deletion_timestamp = none;
  generation = pos 1;
}

abbrev pub acme : Tenant
acme = record {
  meta = named "" "acme";
  spec = record {
    display_name = "Acme";
    description = "";
    domain = "";
    contacts = [];
    billing_code = "";
    quotas = none;
  };
  status = record {
    phase = "Active";
    conditions = [];
    resource_count = none;
    current_spend = 0;
    last_updated = pos 0;
  };
}

-- A team in the phase, with the reference to a tenant.
abbrev pub team_in : String → Option ObjectReference → Team
team_in phase tenant_ref = record {
  meta = record (named "acme-apps" "platform") {
    finalizers = "platform.company.com/team-cleanup" ∷ [];
  };
  spec = record {
    display_name = "";
    description = "";
    members = [];
    owners = [];
    tenant_ref = tenant_ref;
    cost_center = "";
    budget = none;
    quotas = none;
  };
  status = record {
    phase = phase;
    conditions = [];
    resource_count = none;
    current_spend = 0;
    last_updated = pos 0;
  };
}

abbrev pub to_acme : Option ObjectReference
to_acme = some (record { name = "acme"; namespace = "" })

abbrev pub platform : Team
platform = team_in "Active" to_acme

abbrev pub by_team : OwnerReference
by_team = record { kind = "Team"; name = "platform"; namespace = "" }

abbrev pub shop : Application
shop = record {
  meta = record (named "acme-apps" "shop") {
    labels = some ((tenant_label, "acme") ∷ []);
    finalizers = "platform.company.com/application-cleanup" ∷ [];
  };
  spec = record {
    display_name = "";
    description = "";
    owner = by_team;
    repository = "";
    contacts = [];
  };
  status = record {
    phase = "Suspended";
    conditions = [];
    observed_generation = pos 1;
    last_deployed = none;
  };
}

-- The database with its finalizers, its label, the ID of its deployment and its broker.
abbrev pub orders_with :
    List String → Option (List (String × String)) → String → Option ObjectReference → Database
orders_with finalizers labels deployment_id broker_ref = record {
  meta = record (named "acme-apps" "orders") { labels = labels; finalizers = finalizers };
  spec = record {
    owner = by_team;
    engine = "postgresql";
    version = "15";
    size = "small";
    target = "";
    backup = none;
    encryption = none;
    high_availability = false;
    parameters = none;
  };
  status = record {
    phase = "";
    conditions = [];
    endpoint = "";
    port = pos 0;
    connection_secret_ref = none;
    cloud_resource_id = "";
    deployment_id = deployment_id;
    broker_ref = broker_ref;
    cost = none;
    last_backup = none;
    observed_generation = pos 0;
  };
}

abbrev pub cleanup : List String
cleanup = "platform.company.com/database-cleanup" ∷ []

abbrev pub fresh : Database
fresh = orders_with [] none "" none

abbrev pub labelled : Database
labelled = orders_with cleanup (some ((tenant_label, "acme") ∷ [])) "" none

abbrev pub deployed : Database
deployed =
    orders_with cleanup (some ((tenant_label, "acme") ∷ [])) "deploy-1"
      (some (record { name = "local"; namespace = "default" }))

-- A broker with a limit of deployments and those it has.
abbrev pub broker_with : String → ℕ → ℕ → Broker
broker_with name limit active = record {
  meta = named "default" name;
  spec = record {
    endpoint = "http://broker";
    region = "local";
    cloud_provider = "on-prem";
    capabilities =
        record { resource_type = "Database"; providers = "postgresql" ∷ []; regions = [] } ∷ [];
    authentication = none;
    health_check = none;
    priority = pos 100;
    max_concurrent_deployments = pos limit;
  };
  status = record {
    phase = "Ready";
    last_heartbeat = none;
    active_deployments = pos active;
    version = "";
    conditions = [];
    observed_generation = pos 1;
    message = "";
    callback_public_key = "";
  };
}

abbrev pub local : Broker
local = broker_with "local" 10 2

abbrev pub full : Broker
full = broker_with "full" 3 3

abbrev pub wanted : SelectionCriteria
wanted = record {
  resource_type = "Database";
  cloud_provider = "";
  region = "";
  provider = "postgresql";
}

abbrev pub acme_apps : Namespace
acme_apps = record {
  meta = record (named "" "acme-apps") { labels = some ((tenant_label, "acme") ∷ []) };
}

abbrev get_named : {A : Type 0} → String → A → History → ObjectKey → Result A
get_named name a h key = if key.name == name then ok a else err (not_found key.name)

abbrev endpoint_of : {A : Type 0} → String → A → Endpoint A
endpoint_of name a = record {
  get = get_named name a;
  update = λ h b. ok b;
  update_status = λ h b. ok b;
}

abbrev has_finalizer : ObjectMeta → String → Bool
has_finalizer m f = any (λ g. g == f) m.finalizers

abbrev without : String → List String → List String
without f [] = []
without f (g ∷ gs) = if g == f then without f gs else g ∷ without f gs

-- Every write succeeds, and every request is answered with the status.
abbrev pub answering : ℕ → Env
answering code = record {
  databases = endpoint_of "orders" deployed;
  teams = endpoint_of "platform" platform;
  applications = endpoint_of "shop" shop;
  tenants = endpoint_of "acme" acme;
  brokers = endpoint_of "local" local;
  namespaces = endpoint_of "acme-apps" acme_apps;
  list_databases = λ h ns. ok (labelled ∷ deployed ∷ []);
  list_brokers = λ h. ok (full ∷ local ∷ []);
  create_namespace = λ h ns. ok ns;
  clock = λ h n. seconds 1000;
  order = λ h bs. bs;
  floats = whole;
  new_request = λ method url. none;
  send = λ h r. ok (record { status_code = code; body = "" });
  marshal_provision = λ r. ok "";
  decode_provision =
      λ body. ok (record { status = "accepted"; deployment_id = "deploy-2"; message = "" });
  marshal_deprovision = λ r. ok "";
  decode_deprovision = λ body. ok (record { status = "accepted"; message = "" });
  error_text = λ e. "error";
  number_text = λ n. "number";
  callback_url = "";
  contains_finalizer = has_finalizer;
  add_finalizer = λ m f. record m { finalizers = f ∷ m.finalizers };
  remove_finalizer = λ m f. record m { finalizers = without f m.finalizers };
  set_status_condition = λ cs c. c ∷ cs;
  is_zero = λ t. elim t [ none ↦ true | some z ↦ false ];
}

without-free : (f : String) (fs : List String) → any (λ g. g == f) (without f fs) ≡ false
without-free f [] = refl
without-free f (g ∷ gs) = ground (arith, without-free f gs)

pub answering-FinalizerLaws : (code : ℕ) → FinalizerLaws (answering code)
answering-FinalizerLaws code = record {
  contains-add = λ m f. ground arith;
  contains-remove = λ m f. without-free f m.finalizers;
  contains_of_list = λ m n f h. ap (λ fs. any (λ g. g == f) fs) h;
}

-- A run at its start, with the registry before its first refresh.
abbrev pub started : Run
started = record { calls = []; registry = some new_registry }
