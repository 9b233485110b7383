-- ===== src/BrokerServer/Ending.antt =====
-- The end of a deployment: `handleDeletion` of internal/controller/database_controller.go with the
-- broker's server of cmd/broker/main.go.
use kidp.Prelude.{String, ◌<>◌, ◌≡◌}
use kidp.Prelude.{none}
use kidp.Result.{ok}
use kidp.Api.Broker.{Broker}
use kidp.Api.Database.{Database}
use kidp.Registry.{Registry}
use kidp.BrokerClient.Types.{DeprovisionRequest, DeprovisionResponse}
use kidp.Client.{Env}
use kidp.BrokerServer.{Process, Reply, json, accepted_deprovision}

-- What the broker answers to a request that it accepts.
abbrev pub ended_for : DeprovisionRequest → DeprovisionResponse
ended_for r = record {
  status = "accepted";
  message = "Deprovisioning request accepted for deployment " <> r.deployment_id;
}

-- The client marshals the request to a body that the server decodes to it again, and decodes the
-- body of the server's answer to that answer.
pub record SharesEnding (env : Env) (p : Process) (encode : Reply → String) (r : DeprovisionRequest)
    : Type 0 where
  pub requests : (url : String) → env.new_request "POST" url ≡ none
  pub body : String
  pub sent : env.marshal_deprovision r ≡ ok body
  pub read : p.decode_deprovision body ≡ ok r
  pub reply :
      env.decode_deprovision (encode (json 202 (accepted_deprovision (ended_for r))))
      ≡ ok (ended_for r)
