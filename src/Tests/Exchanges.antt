-- ===== src/Tests/Exchanges.antt =====
-- The manager's calls of a broker, answered by the broker's server.
use kidp.Prelude.{String, refl}
use kidp.Result.{ok}
use kidp.BrokerServer.{Reply}
use kidp.BrokerServer.Exchange.{query_of, response_of, accepted_for}
use kidp.BrokerServer.Ending.{ended_for, SharesEnding}
use kidp.BrokerServer.Routes.{serve}
use kidp.BrokerClient.Types.{ProvisionRequest}
use kidp.Client.{Env}
use kidp.Controller.Database.{provision_request, deprovision_request}
use kidp.Tests.Fixtures.{answering, labelled, deployed}
use kidp.Tests.Brokers.{process}
use kidp.Tests.Starting.{exact, unrouted}

abbrev asked : ProvisionRequest
asked = provision_request (answering 200) labelled

abbrev written : Reply → String
written reply = "{}"

-- The cluster where the broker's server answers the calls.
abbrev served_by_broker : Env
served_by_broker = record (answering 200) {
  send =
      λ h r. ok (response_of written (serve process exact unrouted "/v1/provision" (query_of r)));
  decode_provision = λ body. ok (accepted_for process asked);
}

-- The cluster where the broker's server answers the request for the end of the deployment.
abbrev ended_by_broker : Env
ended_by_broker = record (answering 200) {
  send =
      λ h r. ok (response_of written (serve process exact unrouted "/v1/deprovision" (query_of r)));
  decode_deprovision = λ body. ok (ended_for (deprovision_request (answering 200) deployed));
}

abbrev ending_read :
    SharesEnding ended_by_broker process written (deprovision_request ended_by_broker deployed)
ending_read = record { requests = λ url. refl; body = ""; sent = refl; read = refl; reply = refl }
