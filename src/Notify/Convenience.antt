-- ===== src/Notify/Convenience.antt =====
-- `NotifySuccess`, `NotifyFailure` and `NotifyProgress` of pkg/broker/callback.go.
use kidp.Prelude.{pos, String, ◌<>◌, Option, none}
use kidp.Result.{Error}
use kidp.Json.{Fields}
use kidp.Callbacks.{CallbackRequest, Codec}
use kidp.Notify.{Host, Log, notify_status}

-- The payloads of the three convenience methods; what they do not name stays at Go's zero value.
abbrev pub blank : CallbackRequest
blank = record {
  deployment_id = "";
  resource_type = "";
  resource_name = "";
  namespace = "";
  status = "";
  phase = "";
  message = "";
  error = "";
  time = pos 0;
  endpoint = "";
  port = pos 0;
  connection_secret = "";
  details = none;
  additional_metadata = none;
  estimated_monthly_cost = 0;
}

abbrev pub success_payload : String → String → Option Fields → CallbackRequest
success_payload deployment_id phase details = record blank {
  deployment_id = deployment_id;
  status = "success";
  phase = phase;
  message = "Successfully completed: " <> phase;
  details = details;
}

abbrev pub failure_payload : String → String → String → CallbackRequest
failure_payload deployment_id phase error_msg = record blank {
  deployment_id = deployment_id;
  status = "failed";
  phase = phase;
  message = error_msg;
  error = error_msg;
}

abbrev pub progress_payload : String → String → String → CallbackRequest
progress_payload deployment_id phase message = record blank {
  deployment_id = deployment_id;
  status = "in-progress";
  phase = phase;
  message = message;
}

module _ (host : Host) (codec : Codec) (url deployment_id phase : String) where
  unfoldable pub notify_success : Option Fields → Log → Option Error × Log
  notify_success details =
      notify_status host codec url (success_payload deployment_id phase details)

  unfoldable pub notify_failure : String → Log → Option Error × Log
  notify_failure error_msg =
      notify_status host codec url (failure_payload deployment_id phase error_msg)

  unfoldable pub notify_progress : String → Log → Option Error × Log
  notify_progress message =
      notify_status host codec url (progress_payload deployment_id phase message)
