-- ===== src/Controller/Broker.antt =====
-- internal/controller/broker_controller.go. The reconciler's HTTP client has the timeout of ten
-- seconds that `SetupWithManager` gives it, and a request ends at the earlier one of that and of
-- its context's deadline.
pub mod Health
use kidp.Prelude.{ℕ, ℤ, pos, pos_part, String, ◌<>◌, is_empty, lt_ℤ, if◌then◌else◌}
use kidp.Prelude.{Bool, true, false, Option, none, some, []}
use kidp.Result.{Result, ok, err, Error, is_not_found}
use kidp.Api.Meta.{ObjectKey, Duration, Time, Condition}
use kidp.Api.Broker.{Broker, HealthCheckConfig}
use kidp.Time.{seconds}
use kidp.BrokerCalls.{is_success}
use kidp.Client.{Env, HttpRequest, HttpResponse, Exec, Outcome, pure, branch, reads, ◌>>=◌}
use kidp.Client.{broker_kind, update_object_status, send_request, finished, failed_with}

abbrev pub health_endpoint : Option HealthCheckConfig → String
health_endpoint none = "/health"
health_endpoint (some h) = if is_empty h.endpoint then "/health" else h.endpoint

abbrev pub health_url : Broker → String
health_url b = b.spec.endpoint <> health_endpoint b.spec.health_check

-- The deadline of the request's context.
unfoldable pub check_timeout : Option HealthCheckConfig → Duration
check_timeout none = seconds 5
check_timeout (some h) =
    if lt_ℤ (pos 0) h.timeout_seconds then seconds (pos_part h.timeout_seconds) else seconds 5

abbrev pub health_request : Broker → HttpRequest
health_request b =
    let deadline = check_timeout b.spec.health_check in
    record {
      method = "GET";
      url = health_url b;
      headers = [];
      body = "";
      timeout = if lt_ℤ (seconds 10) deadline then seconds 10 else deadline;
    }

unfoldable pub requeue_interval : Option HealthCheckConfig → Duration
requeue_interval none = seconds 30
requeue_interval (some h) =
    if lt_ℤ (pos 0) h.interval_seconds then seconds (pos_part h.interval_seconds) else seconds 30

module _ (env : Env) where
  unfoldable pub health_answer : Result HttpResponse → Bool × String
  health_answer (err e) = (false, "Health check failed: " <> env.error_text e)
  health_answer (ok resp) =
      if is_success resp.status_code
      then (true, "Health check passed")
      else (false, "Health check returned status " <> env.number_text resp.status_code)

  unfoldable pub check_broker_health : Broker → Exec (Bool × String)
  unfolding health_answer
  check_broker_health b = elim (env.new_request "GET" (health_url b)) [
    | some e ↦ pure (false, "Failed to create health check request: " <> env.error_text e)
    | none ↦ do r ← send_request env (health_request b); pure (health_answer r)
  ]

  abbrev pub ready_condition : Broker → Bool → String → Condition
  ready_condition b healthy message = record {
    kind = "Ready";
    status = if healthy then "True" else "False";
    observed_generation = b.meta.generation;
    last_transition_time = none;
    reason = if healthy then "BrokerHealthy" else "BrokerUnhealthy";
    message = message;
  }

  -- The status that the reconciler writes, at the time `now`.
  unfoldable pub with_health : Broker → Time → Bool × String → Broker
  with_health b now (healthy, message) = record b {
    status = record b.status {
      observed_generation = b.meta.generation;
      phase = if healthy then "Ready" else "Unhealthy";
      last_heartbeat = if healthy then some now else b.status.last_heartbeat;
      message = if healthy then "Broker is healthy and operational" else message;
      conditions = env.set_status_condition b.status.conditions (ready_condition b healthy message);
    };
  }

  unfoldable pub reconcile_broker : Broker → Exec Outcome
  reconcile_broker b = do
    health ← check_broker_health b
    now ← reads (λ h. env.clock h 0)
    r ← update_object_status env broker_kind (with_health b now health)
    branch r (λ e. pure (failed_with e))
        (λ saved. pure (record {
          requeue = false;
          requeue_after = requeue_interval saved.spec.health_check;
          error = none;
        }))

  unfoldable pub reconcile : ObjectKey → Exec Outcome
  reconcile key = do
    found ← reads (λ h. env.brokers.get h key)
    branch found (λ e. pure (if is_not_found e then finished else failed_with e)) reconcile_broker
