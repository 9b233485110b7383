-- ===== src/Client.antt =====
-- What the reconcilers and the webhook reach outside of themselves, and how a run is written.
-- The API server, the brokers' HTTP endpoints, the clock and the Go and Kubernetes libraries are
-- the record `Env`, whose answers may depend on all requests that the run has made before. A run
-- passes on those requests, newest first, and the broker registry that the manager shares.
pub mod Trace
pub mod Documented
use kidp.Prelude.{ℕ, pos, String, Bool, true, false, Option, none, some, List, ◌∷◌, if◌then◌else◌}
use kidp.Result.{Result, ok, err, Error}
use kidp.Api.Meta.{ObjectMeta, ObjectKey, Condition, Namespace, Time, Duration}
use kidp.Api.Database.{Database}
use kidp.Api.Broker.{Broker}
use kidp.Api.Team.{Team}
use kidp.Api.Tenant.{Tenant}
use kidp.Api.Application.{Application}
use kidp.BrokerClient.Types.{ProvisionRequest, ProvisionResponse, DeprovisionRequest}
use kidp.BrokerClient.Types.{DeprovisionResponse}
use kidp.Registry.{Floats, Registry}

-- `client.Object` at the types that the program uses.
pub data Object : Type 0 where
  database : Database → Object
  team : Team → Object
  application : Application → Object
  tenant : Tenant → Object
  broker : Broker → Object
  namespace : Namespace → Object

pub record HttpRequest : Type 0 where
  pub method : String
  pub url : String
  pub headers : List (String × String)
  pub body : String
  pub timeout : Duration

pub record HttpResponse : Type 0 where
  pub status_code : ℕ
  pub body : String

-- A request that changes something outside, or that reports to the outside.
pub data Call : Type 0 where
  update : Object → Call
  update_status : Object → Call
  create : Object → Call
  event : Object → String → String → String → Option Error → Call
  http : HttpRequest → Call

abbrev pub History : Type 0
History = List Call

-- The answers for one kind of resource. The answer to a write is the object that the client
-- decodes into the one that was written.
pub record Endpoint (A : Type 0) : Type 0 where
  pub get : History → ObjectKey → Result A
  pub update : History → A → Result A
  pub update_status : History → A → Result A

pub record Env : Type 0 where
  pub databases : Endpoint Database
  pub teams : Endpoint Team
  pub applications : Endpoint Application
  pub tenants : Endpoint Tenant
  pub brokers : Endpoint Broker
  pub namespaces : Endpoint Namespace
  -- `client.List`, for databases with the namespace asked for ("" for all)
  pub list_databases : History → String → Result (List Database)
  pub list_brokers : History → Result (List Broker)
  pub create_namespace : History → Namespace → Result Namespace
  -- The readings of the clock after a history, and the order of Go's `range` over a map.
  pub clock : History → ℕ → Time
  pub order : History → List Broker → List Broker
  pub floats : Floats
  -- net/http and encoding/json: `new_request` says whether a method and a URL make a request.
  pub new_request : String → String → Option Error
  pub send : History → HttpRequest → Result HttpResponse
  pub marshal_provision : ProvisionRequest → Result String
  pub decode_provision : String → Result ProvisionResponse
  pub marshal_deprovision : DeprovisionRequest → Result String
  pub decode_deprovision : String → Result DeprovisionResponse
  -- fmt: the texts that `%v` makes of an error and `%d` of a number
  pub error_text : Error → String
  pub number_text : ℕ → String
  -- The variable KIDP_CALLBACK_URL, "" if it is not set.
  pub callback_url : String
  -- controllerutil, apimachinery's meta and metav1
  pub contains_finalizer : ObjectMeta → String → Bool
  pub add_finalizer : ObjectMeta → String → ObjectMeta
  pub remove_finalizer : ObjectMeta → String → ObjectMeta
  pub set_status_condition : List Condition → Condition → List Condition
  pub is_zero : Option Time → Bool

-- What one run carries along.
pub record Run : Type 0 where
  pub calls : History
  pub registry : Option Registry

abbrev pub Exec : Type 0 → Type 0
Exec A = Run → A × Run

abbrev pub pure : {A : Type 0} → A → Exec A
pure a s = (a, s)

infixl 5 ◌>>=◌ ◌>>◌
abbrev pub ◌>>=◌ : {A B : Type 0} → Exec A → (A → Exec B) → Exec B
◌>>=◌ m f s = let (a, s') = m s in f a s'

abbrev pub ◌>>◌ : {A B : Type 0} → Exec A → Exec B → Exec B
m >> k = m >>= λ _. k

-- `if err := m; err != nil { failed err }`, then the rest.
abbrev pub branch : {A B : Type 0} → Result A → (Error → Exec B) → (A → Exec B) → Exec B
branch (ok a) failed rest = rest a
branch (err e) failed rest = failed e

-- A read of what the history so far leads to.
abbrev pub reads : {A : Type 0} → (History → A) → Exec A
reads f s = (f s.calls, s)

-- One kind of resource: how its objects stand in a request, and where its answers come from.
pub record Kind (A : Type 0) : Type 0 where
  pub object : A → Object
  pub endpoint : Env → Endpoint A

abbrev pub database_kind : Kind Database
database_kind = record { object = database; endpoint = λ env. env.databases }

abbrev pub team_kind : Kind Team
team_kind = record { object = team; endpoint = λ env. env.teams }

abbrev pub application_kind : Kind Application
application_kind = record { object = application; endpoint = λ env. env.applications }

abbrev pub tenant_kind : Kind Tenant
tenant_kind = record { object = tenant; endpoint = λ env. env.tenants }

abbrev pub broker_kind : Kind Broker
broker_kind = record { object = broker; endpoint = λ env. env.brokers }

module _ {A : Type 0} (env : Env) (kind : Kind A) where
  -- `client.Update` and `client.Status().Update`
  abbrev pub update_object : A → Exec (Result A)
  update_object a s = (
    (kind.endpoint env).update s.calls a,
    record s { calls = Call.update (kind.object a) ∷ s.calls },
  )

  abbrev pub update_object_status : A → Exec (Result A)
  update_object_status a s = (
    (kind.endpoint env).update_status s.calls a,
    record s { calls = Call.update_status (kind.object a) ∷ s.calls },
  )

-- `Recorder.Eventf`, if there is a recorder: the type, the reason, the text, and the error that is
-- formatted behind it.
abbrev pub emit_event : Bool → Call → Exec (Unit {0})
emit_event recorder c s = if recorder then (tt, record s { calls = c ∷ s.calls }) else (tt, s)

abbrev pub send_request : Env → HttpRequest → Exec (Result HttpResponse)
send_request env r s = (env.send s.calls r, record s { calls = Call.http r ∷ s.calls })

-- `ctrl.Result` and the error beside it.
pub record Outcome : Type 0 where
  pub requeue : Bool
  pub requeue_after : Duration
  pub error : Option Error

abbrev pub finished : Outcome
finished = record { requeue = false; requeue_after = pos 0; error = none }

abbrev pub requeued : Outcome
requeued = record { requeue = true; requeue_after = pos 0; error = none }

abbrev pub failed_with : Error → Outcome
failed_with e = record { requeue = false; requeue_after = pos 0; error = some e }
