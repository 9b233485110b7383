-- ===== src/BrokerServer.antt =====
-- The broker's HTTP endpoints in cmd/broker/main.go, and the models of pkg/broker/models.go that
-- they read and write.
pub mod Validation
pub mod Agreement
pub mod Discovery
pub mod Routes
pub mod Exchange
pub mod Ending
use kidp.Prelude.{ℕ, ℤ, String, ◌<>◌, ◌==◌, is_empty, if◌then◌else◌, Bool, true, false, not, ◌&&◌}
use kidp.Prelude.{Option, none, some, List, [], Dict}
use kidp.Result.{Result, ok, err, Error, errorf}
use kidp.Json.{Json}
use kidp.BrokerModels.{ResourceStateRequest, ResourceStateResponse, ErrorResponse}
use kidp.Api.Meta.{Duration, read}
use kidp.BrokerClient.Types.{ProvisionRequest, ProvisionResponse, DeprovisionRequest}
use kidp.BrokerClient.Types.{DeprovisionResponse}

-- What `handleHealth` answers.
pub record Health : Type 0 where
  pub status : String
  pub version : String
  pub time : String
  pub uptime : String
  pub uptime_seconds : ℤ
  pub active_deployments : ℕ
  pub total_deployments : ℕ
  pub failed_deployments : ℕ

-- The values that the handlers answer with as JSON: beside the structs, the three texts of
-- `handleStatus`, readiness with its reason and version, health and the document of
-- `handleRoot`.
pub data Payload : Type 0 where
  failure : ErrorResponse → Payload
  accepted_provision : ProvisionResponse → Payload
  accepted_deprovision : DeprovisionResponse → Payload
  deployment_status : String → String → String → Payload
  readiness : Bool → String → String → Payload
  resource_states : ResourceStateResponse → Payload
  health : Health → Payload
  document : Json → Payload

-- `http.Error` and `respondJSON`
pub data Reply : Type 0 where
  plain : ℕ → String → Reply
  json : ℕ → Payload → Reply

abbrev pub status_of : Reply → ℕ
status_of (plain status message) = status
status_of (json status data_sent) = status

-- A request as the handlers read it; the query is what the URL's query part says.
pub record Query : Type 0 where
  pub method : String
  pub query : Dict String
  pub body : String

-- What the process takes from outside: the decoder of encoding/json, fmt's texts, the bytes of
-- crypto/rand as hex or the error of the read, the clock's nanoseconds as a text, and the listing
-- of the namespaces where there is a Kubernetes client. Of the time it takes the present one as a
-- text, how long the server has been up, and `Duration.String` and `int64` of `Duration.Seconds`.
pub record Process : Type 0 where
  pub decode_provision : String → Result ProvisionRequest
  pub decode_deprovision : String → Result DeprovisionRequest
  pub decode_state : String → Result ResourceStateRequest
  pub error_text : Error → String
  pub random_hex : Result String
  pub nano_text : String
  pub namespace_listing : Option (Option Error)
  pub version : String
  pub now_text : String
  pub uptime : Duration
  pub duration_text : Duration → String
  pub whole_seconds : Duration → ℤ

abbrev required : String → String → Option Error → Option Error
required value message rest = if is_empty value then some (errorf message) else rest

-- The three methods `Validate`.
unfoldable pub validate_provision : ProvisionRequest → Option Error
validate_provision r = required r.resource_type "resourceType is required" (
    required r.resource_name "resourceName is required" (
      required r.namespace "namespace is required" (
        required r.team "team is required" (
          required r.callback_url "callbackUrl is required"
            (elim r.spec [ none ↦ some (errorf "spec is required") | some fields ↦ none ])))))

unfoldable pub validate_deprovision : DeprovisionRequest → Option Error
validate_deprovision r = required r.deployment_id "deploymentId is required" (
    required r.resource_type "resourceType is required" (
      required r.resource_name "resourceName is required" (
        required r.namespace "namespace is required"
          (required r.callback_url "callbackUrl is required" none))))

unfoldable pub validate_state : ResourceStateRequest → Option Error
validate_state r = required r.namespace "namespace is required" none

module _ (p : Process) where
  abbrev bad_request : String → String → Reply
  bad_request name message =
      json 400 (failure (record { error = name; message = message; code = 400 }))

  abbrev unparsed : Error → Reply
  unparsed e = bad_request "invalid_request" ("Failed to parse request body: " <> p.error_text e)

  -- The answer to a request whose validation has ended, with `reply` for a valid one.
  abbrev pub validated : Option Error → Reply → Reply
  validated (some e) reply = bad_request "validation_failed" (p.error_text e)
  validated none reply = reply

  unfoldable pub generate_deployment_id : String
  generate_deployment_id = elim p.random_hex [
    | ok hex ↦ "deploy-" <> hex
    | err e ↦ "deploy-" <> p.nano_text
  ]

  unfoldable pub handle_provision : Query → Reply
  handle_provision q =
      if not (q.method == "POST")
      then plain 405 "Method not allowed"
      else elim (p.decode_provision q.body) [
        | err e ↦ unparsed e
        | ok r ↦ validated (validate_provision r) (
            json 202 (
              accepted_provision (record {
                status = "accepted";
                deployment_id = generate_deployment_id;
                message =
                    "Provisioning request accepted for " <> r.resource_type <> "/"
                    <> r.resource_name;
              })))
      ]

  unfoldable pub handle_deprovision : Query → Reply
  handle_deprovision q =
      if not (q.method == "POST")
      then plain 405 "Method not allowed"
      else elim (p.decode_deprovision q.body) [
        | err e ↦ unparsed e
        | ok r ↦ validated (validate_deprovision r) (
            json 202 (
              accepted_deprovision (record {
                status = "accepted";
                message = "Deprovisioning request accepted for deployment " <> r.deployment_id;
              })))
      ]

  unfoldable pub handle_status : Query → Reply
  handle_status q =
      let id = read (some q.query) "id" in
      if not (q.method == "GET")
      then plain 405 "Method not allowed"
      else if is_empty id
      then plain 400 "Missing deployment ID"
      else json 200 (deployment_status id "unknown" "Status endpoint - implementation pending")

  -- The filters of a GET.
  abbrev from_query : Dict String → ResourceStateRequest
  from_query m = record {
    resource_type = read (some m) "resourceType";
    resource_name = read (some m) "resourceName";
    namespace = read (some m) "namespace";
    deployment_id = read (some m) "deploymentId";
  }

  abbrev answer_state : Result ResourceStateRequest → Reply
  answer_state (err e) = unparsed e
  answer_state (ok r) =
      validated (validate_state r)
        (json 200 (resource_states (record { resources = []; total = 0; namespace = r.namespace })))

  unfoldable pub handle_get_resources : Query → Reply
  handle_get_resources q =
      if not (q.method == "GET") && not (q.method == "POST")
      then plain 405 "Method not allowed"
      else if q.method == "GET"
      then answer_state (ok (from_query q.query))
      else answer_state (p.decode_state q.body)

  unfoldable pub handle_readiness : Query → Reply
  handle_readiness q =
      if not (q.method == "GET") then plain 405 "Method not allowed" else elim p.namespace_listing [
        | some (some e) ↦
            json 503
              (readiness false ("kubernetes API not accessible: " <> p.error_text e) p.version)
        | some none ↦ json 200 (readiness true "ok" p.version)
        | none ↦ json 503 (readiness false "kubernetes client not initialized" p.version)
      ]

  unfoldable pub handle_health : Query → Reply
  handle_health q =
      if not (q.method == "GET")
      then plain 405 "Method not allowed"
      else json 200 (
          health (record {
            status = "healthy";
            version = p.version;
            time = p.now_text;
            uptime = p.duration_text p.uptime;
            uptime_seconds = p.whole_seconds p.uptime;
            active_deployments = 0;
            total_deployments = 0;
            failed_deployments = 0;
          }))
