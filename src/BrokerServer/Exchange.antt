-- ===== src/BrokerServer/Exchange.antt =====
-- The manager's calls of a broker, pkg/brokerclient/client.go, answered by the broker's server of
-- cmd/broker/main.go.
use kidp.Prelude.{String, ◌<>◌, ◌≡◌}
use kidp.Prelude.{none, []}
use kidp.Result.{Result, ok}
use kidp.Api.Database.{Database}
use kidp.BrokerClient.Types.{ProvisionRequest, ProvisionResponse}
use kidp.BrokerCalls.{post_request}
use kidp.Client.{Env, History, HttpRequest, HttpResponse}
use kidp.BrokerServer.{
  Process, Query, Reply, json, accepted_provision, status_of, generate_deployment_id,
}
use kidp.BrokerServer.Routes.{Mux, serve}

-- A request as the server's handlers read it, and a reply as the client reads it; `encode` is how
-- net/http and encoding/json write the reply's body.
abbrev pub query_of : HttpRequest → Query
query_of r = record { method = r.method; query = []; body = r.body }

abbrev pub response_of : (Reply → String) → Reply → HttpResponse
response_of encode reply = record { status_code = status_of reply; body = encode reply }

-- A POST to a path under the endpoint reaches the server, whose reply comes back.
abbrev pub Reaches :
    Env → Process → Mux → (String → Reply) → (Reply → String) → String → String → Type 0
Reaches env p mux unrouted encode endpoint path =
    (h : History) (body : String)
    → let r = post_request (endpoint <> path) body in
      env.send h r ≡ ok (response_of encode (serve p mux unrouted path (query_of r)))

-- What the broker answers to a request that it accepts.
abbrev pub accepted_for : Process → ProvisionRequest → ProvisionResponse
accepted_for p r = record {
  status = "accepted";
  deployment_id = generate_deployment_id p;
  message = "Provisioning request accepted for " <> r.resource_type <> "/" <> r.resource_name;
}

-- The client marshals the request to a body that the server decodes to it again, and decodes the
-- body of the server's answer to that answer.
pub record SharesJson (env : Env) (p : Process) (encode : Reply → String) (r : ProvisionRequest)
    : Type 0 where
  pub requests : (url : String) → env.new_request "POST" url ≡ none
  pub sent :
      (body : String) × (env.marshal_provision r ≡ ok body) × (p.decode_provision body ≡ ok r)
  pub answered :
      env.decode_provision (encode (json 202 (accepted_provision (accepted_for p r))))
      ≡ ok (accepted_for p r)
