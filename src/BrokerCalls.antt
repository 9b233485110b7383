-- ===== src/BrokerCalls.antt =====
-- pkg/brokerclient/client.go: the manager's calls of a broker. `base_url` is the client's state
-- beside its HTTP client, whose timeout of ten seconds each request carries.
use kidp.Prelude.{ℕ, String, ◌<>◌, Bool, ◌&&◌, not, leb, ltb, eqb, if◌then◌else◌, [], ◌∷◌}
use kidp.Prelude.{Option, none, some}
use kidp.Result.{Result, ok, err, Error, errorf_int, wrapf}
use kidp.Time.{seconds}
use kidp.BrokerClient.Types.{ProvisionRequest, ProvisionResponse, DeprovisionRequest}
use kidp.BrokerClient.Types.{DeprovisionResponse}
use kidp.Client.{Env, HttpRequest, HttpResponse, Exec, pure, branch, send_request, ◌>>=◌}

abbrev pub is_success : ℕ → Bool
is_success code = leb 200 code && ltb code 300

-- The request of `Provision` and of `Deprovision`.
abbrev pub post_request : String → String → HttpRequest
post_request url body = record {
  method = "POST";
  url = url;
  headers = ("Content-Type", "application/json") ∷ ("User-Agent", "KIDP-Manager/0.1.0") ∷ [];
  body = body;
  timeout = seconds 10;
}

abbrev pub ping_request : String → HttpRequest
ping_request base_url = record {
  method = "GET";
  url = base_url <> "/health";
  headers = [];
  body = "";
  timeout = seconds 10;
}

abbrev wrap_error : {A : Type 0} → String → Result A → Result A
wrap_error message (ok a) = ok a
wrap_error message (err e) = err (wrapf message e)

module _ (env : Env) where
  -- What both calls do with the answer.
  unfoldable pub read_response : {A : Type 0} → (String → Result A) → HttpResponse → Result A
  read_response decode resp =
      if not (is_success resp.status_code)
      then err (errorf_int "broker returned status" resp.status_code)
      else wrap_error "failed to decode response" (decode resp.body)

  -- What both calls do once the request's body is there.
  unfoldable pub post : {A : Type 0} → (String → Result A) → String → String → Exec (Result A)
  unfolding read_response
  post decode url body = elim (env.new_request "POST" url) [
    | some e ↦ pure (err (wrapf "failed to create request" e))
    | none ↦ do
      r ← send_request env (post_request url body)
      branch r (λ e. pure (err (wrapf "failed to call broker" e)))
          (λ resp. pure (read_response decode resp))
  ]

  unfoldable pub provision : String → ProvisionRequest → Exec (Result ProvisionResponse)
  unfolding post
  provision base_url req =
      branch (env.marshal_provision req) (λ e. pure (err (wrapf "failed to marshal request" e)))
        (λ body. post env.decode_provision (base_url <> "/v1/provision") body)

  unfoldable pub deprovision : String → DeprovisionRequest → Exec (Result DeprovisionResponse)
  unfolding post
  deprovision base_url req =
      branch (env.marshal_deprovision req) (λ e. pure (err (wrapf "failed to marshal request" e)))
        (λ body. post env.decode_deprovision (base_url <> "/v1/deprovision") body)

  ping_answer : HttpResponse → Option Error
  ping_answer resp =
      if not (eqb resp.status_code 200)
      then some (errorf_int "broker health check failed with status" resp.status_code)
      else none

  unfoldable pub ping : String → Exec (Option Error)
  unfolding ping_answer
  ping base_url = elim (env.new_request "GET" (base_url <> "/health")) [
    | some e ↦ pure (some (wrapf "failed to create request" e))
    | none ↦ do
      r ← send_request env (ping_request base_url)
      branch r (λ e. pure (some (wrapf "failed to ping broker" e)))
          (λ resp. pure (ping_answer resp))
  ]
