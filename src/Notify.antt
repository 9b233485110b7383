-- ===== src/Notify.antt =====
-- pkg/broker/callback.go: how a broker reports to the manager. `Host` is what the broker's process
-- finds around it; its answers may depend on all that the process has sent and waited before, which
-- is the log, newest first.
pub mod Retry
pub mod Recovery
pub mod Convenience
pub mod Signing
pub mod Delivery
use kidp.Prelude.{
  ℕ, zero, suc, ◌+◌, ◌-◌, ◌*◌, ◌^◌, ℤ, pos, String, ◌<>◌, is_empty, eqb, wrap64, if◌then◌else◌,
  Bool, true, false, not,
}
use kidp.Prelude.{Option, none, some, List, [], ◌∷◌, length}
use kidp.Result.{Result, ok, err, Error, errorf, errorf_int, wrapf}
use kidp.Json.{Fields}
use kidp.Api.Meta.{Time, Duration}
use kidp.Time.{seconds}
use kidp.BrokerCalls.{is_success}
use kidp.Callbacks.{CallbackRequest, Bytes, Codec, signed_message}
use kidp.Client.{HttpRequest, HttpResponse}

-- One thing that `NotifyStatus` does: a wait that runs to its end, or a request.
pub data Step : Type 0 where
  waited : Duration → Step
  sent : HttpRequest → Step

abbrev pub Log : Type 0
Log = List Step

pub record Host : Type 0 where
  -- The variables BROKER_NAME, BROKER_PRIVATE_KEY and BROKER_PRIVATE_KEY_PATH, "" if not set.
  pub broker_name : String
  pub broker_private_key : String
  pub broker_private_key_path : String
  pub read_file : String → Result Bytes
  pub text_of : Bytes → String
  pub number_text : ℕ → String
  pub clock : Log → Time
  -- The context's error, if it ends before the duration is over.
  pub cancelled : Log → Duration → Option Error
  pub new_request : String → String → Option Error
  pub send : Log → HttpRequest → Result HttpResponse

-- `maxRetries` as `NewCallbackClient` sets it.
abbrev pub max_retries : ℕ
max_retries = 3

-- `time.Duration(1<<uint(attempt-1)) * time.Second`
unfoldable pub backoff : ℕ → Duration
backoff attempt = wrap64 (2 ^ (attempt - 1) * 1_000_000_000)

-- How one pass of the loop ends.
pub data Pass : Type 0 where
  delivered : Pass
  stopped : Error → Pass
  missed : Error → Pass

unfoldable pub judge : Result HttpResponse → Pass
judge (err e) = missed (wrapf "callback request failed" e)
judge (ok resp) =
    if is_success resp.status_code
    then delivered
    else missed (errorf_int "callback returned status" resp.status_code)

module _ (host : Host) (codec : Codec) where
  unfoldable pub private_key : Result Bytes
  private_key =
      if not (is_empty host.broker_private_key)
      then elim (codec.decode64 host.broker_private_key) [
        | ok bytes ↦ ok bytes
        | err e ↦ err (wrapf "failed to decode BROKER_PRIVATE_KEY" e)
      ]
      else if is_empty host.broker_private_key_path
      then err
          (errorf "no private key configured (set BROKER_PRIVATE_KEY or BROKER_PRIVATE_KEY_PATH)")
      else elim (host.read_file host.broker_private_key_path) [
        | ok bytes ↦ elim (codec.decode64 (host.text_of bytes)) [
          | ok decoded ↦ ok decoded
          | err e ↦ ok bytes
        ]
        | err e ↦ err (wrapf "failed to read private key file" e)
      ]

  -- The signature and the public key, both in base64.
  unfoldable pub sign_with : Result Bytes → String → String → Result (String × String)
  sign_with (err e) body timestamp = err e
  sign_with (ok key) body timestamp =
      if not (eqb (length key) 64)
      then err (errorf_int "invalid private key size" (length key))
      else ok (
        codec.encode64 (codec.sign key (signed_message timestamp body)),
        codec.encode64 (codec.public_key key),
      )

  unfoldable pub sign_callback : String → String → Result (String × String)
  sign_callback body timestamp = sign_with private_key body timestamp

  abbrev pub sender_name : String
  sender_name = if is_empty host.broker_name then "unknown-broker" else host.broker_name

  -- The two headers of the signature, none where it could not be made.
  abbrev pub signature_headers : Result (String × String) → List (String × String)
  signature_headers (ok (sig, key)) =
      ("X-KIDP-Signature", sig) ∷ (if is_empty key then [] else ("X-KIDP-Public-Key", key) ∷ [])
  signature_headers (err e) = []

  abbrev pub callback_request : String → String → String → HttpRequest
  callback_request url body timestamp = record {
    method = "POST";
    url = url;
    headers =
        ("Content-Type", "application/json")
        ∷ ("User-Agent", "KIDP-Broker/0.1.0")
        ∷ ("X-KIDP-Broker-Name", sender_name)
        ∷ ("X-KIDP-Timestamp", timestamp)
        ∷ signature_headers (sign_callback body timestamp);
    body = body;
    timeout = seconds 5;
  }

  -- One pass, after the wait.
  unfoldable pub attempt_once : String → CallbackRequest → Log → Pass × Log
  attempt_once url payload log = elim (codec.marshal_callback payload) [
    | err e ↦ (stopped (wrapf "failed to marshal callback payload" e), log)
    | ok body ↦ elim (host.new_request "POST" url) [
      | some e ↦ (stopped (wrapf "failed to create callback request" e), log)
      | none ↦
          let req = callback_request url body (codec.format_time (host.clock log)) in
          (judge (host.send log req), sent req ∷ log)
    ]
  ]

  -- The wait before every pass but the first.
  unfoldable pub wait_before : ℕ → Log → Option Error × Log
  wait_before zero log = (none, log)
  wait_before (suc n) log = elim (host.cancelled log (backoff (suc n))) [
    | some e ↦ (some (wrapf "callback cancelled" e), log)
    | none ↦ (none, waited (backoff (suc n)) ∷ log)
  ]

  abbrev pub failed_after : ℕ → Option Error → Error
  failed_after total none =
      errorf ("callback failed after " <> host.number_text total <> " attempts")
  failed_after total (some e) =
      wrapf ("callback failed after " <> host.number_text total <> " attempts") e

  module _ (url : String) (payload : CallbackRequest) where
    unfoldable pub pass : ℕ → Log → Pass × Log
    pass attempt log =
        let (cancelled, log') = wait_before attempt log in
        elim cancelled [ some e ↦ (stopped e, log') | none ↦ attempt_once url payload log' ]

    module _ (total : ℕ) where
      -- The loop, with the passes left, the number of the next one and the last error.
      unfoldable pub notify_loop : ℕ → ℕ → Option Error → Log → Option Error × Log
      notify_loop zero attempt last log = (some (failed_after total last), log)
      notify_loop (suc left) attempt last log =
          let (end, log') = pass attempt log in
          elim end [
            | delivered ↦ (none, log')
            | stopped e ↦ (some e, log')
            | missed e ↦ notify_loop left (suc attempt) (some e) log'
          ]

  unfoldable pub notify_status : String → CallbackRequest → Log → Option Error × Log
  notify_status url payload = notify_loop url payload max_retries max_retries 0 none
