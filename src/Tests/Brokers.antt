-- ===== src/Tests/Brokers.antt =====
-- Health checks of a broker, and the broker's own endpoints.
use kidp.Prelude.{◌≡◌, refl, ◌⊎◌, ◌↔◌, pos, ◌<ℤ◌, ◌≤ℤ◌, false, none, some, [], ◌∷◌, arith}
use kidp.Result.{ok}
use kidp.Api.Broker.{Broker, HealthCheckConfig}
use kidp.Time.{seconds}
use kidp.Client.{broker, update_status}
use kidp.Registry.{matches_criteria}
use kidp.Controller.Broker.{
  health_request, check_broker_health, health_answer, requeue_interval, reconcile_broker,
}
use kidp.Controller.Broker.Health.{
  Healthy, reconcile_broker_iff_Healthy, failed_check-unmatched, health_check_bounds,
}
use kidp.Controller.Database.{provision_request, deprovision_request}
use kidp.BrokerServer.{Process, Query}
use kidp.Tests.Fixtures.{answering, started, local, labelled, deployed, wanted}

reconcile_broker_iff_Healthy_example :
    (w : Broker) × ((reconcile_broker (answering 200) local started).1.calls
      ≡ update_status (broker w) ∷ (check_broker_health (answering 200) local started).1.calls)
    × (w.spec ≡ local.spec)
    × ((w.status.phase ≡ "Ready") ↔ Healthy (answering 200) local started)
    × ((w.status.phase ≡ "Ready") ⊎ (w.status.phase ≡ "Unhealthy"))
reconcile_broker_iff_Healthy_example = reconcile_broker_iff_Healthy (answering 200) local started

fails : (check_broker_health (answering 503) local started).0.0 ≡ false
unfolding check_broker_health health_answer
fails = refl

failed_check-unmatched_example :
    (w : Broker) × ((reconcile_broker (answering 503) local started).1.calls
      ≡ update_status (broker w) ∷ (check_broker_health (answering 503) local started).1.calls)
    × (matches_criteria w wanted ≡ false)
failed_check-unmatched_example = failed_check-unmatched (answering 503) local started wanted fails

abbrev checked_often : Broker
checked_often = record local {
  spec = record local.spec {
    health_check = some (record {
      endpoint = "/health";
      interval_seconds = pos 5;
      timeout_seconds = pos 60;
      failure_threshold = pos 3;
    });
  };
}

in_range :
    (h : HealthCheckConfig)
    → checked_often.spec.health_check ≡ some h
    → (h.interval_seconds <ℤ pos 2_147_483_648) × (h.timeout_seconds <ℤ pos 2_147_483_648)
in_range h e = ground arith

health_check_bounds_example :
    (seconds 1 ≤ℤ requeue_interval checked_often.spec.health_check)
    × (requeue_interval checked_often.spec.health_check <ℤ pos 9_223_372_036_854_775_808)
    × (pos 0 <ℤ (health_request checked_often).timeout)
    × ((health_request checked_often).timeout ≤ℤ seconds 10)
health_check_bounds_example = health_check_bounds checked_often in_range

abbrev pub process : Process
process = record {
  decode_provision = λ body. ok (provision_request (answering 200) labelled);
  decode_deprovision = λ body. ok (deprovision_request (answering 200) deployed);
  decode_state = λ body. ok (record {
    resource_type = "";
    resource_name = "";
    namespace = "acme-apps";
    deployment_id = "";
  });
  error_text = λ e. "error";
  random_hex = ok "00";
  nano_text = "0";
  namespace_listing = none;
  now_text = "1970-01-01T00:16:40Z";
  uptime = seconds 60;
  duration_text = λ d. "1m0s";
  whole_seconds = λ d. pos 60;
  version = "0.1.0";
}

abbrev pub posted : Query
posted = record { method = "POST"; query = []; body = "{}" }
