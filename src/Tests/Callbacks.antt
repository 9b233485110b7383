-- ===== src/Tests/Callbacks.antt =====
-- A signed callback on its way from a broker to the manager.
use kidp.Prelude.{
  ℕ, leb, if◌then◌else◌, ◌+◌, ◌≤◌, ◌≡◌, ◌≢◌, refl, ◌⊎◌, inl, pos, ◌-ℤ◌, String, string_dec, inr,
  ne_of_test, none, some, List, [], ◌∷◌, arith,
}
use kidp.Result.{ok, err, failed}
use kidp.Api.Database.{Database}
use kidp.Time.{seconds}
use kidp.Callbacks.{CallbackRequest, Codec}
use kidp.Webhook.Serving.{serve}
use kidp.Webhook.{
  handle_health, updated, Incoming, handle_database_callback, handle_callback, route,
}
use kidp.Webhook.Admission.{Timely, Admitted, Refused, handle_callback_admits}
use kidp.Webhook.Effects.{handle_database_callback_unnamed, Finds}
use kidp.Notify.{
  sent, Host, private_key, sign_with, sign_callback, callback_request, attempt_once, judge, pass,
  wait_before, notify_loop, notify_status,
}
use kidp.Notify.Retry.{waits, requests, notify_status-waits}
use kidp.Notify.Recovery.{AwayTwice, notify_status_recovers}
use kidp.Notify.Signing.{received, callback_request-Admitted, Convenience-refused}
use kidp.Notify.Delivery.{response_of, first_request, notify_status-serve}
use kidp.Notify.Convenience.{blank, success_payload}
use kidp.Tests.Unary.{unary_codec, unary-CodecLaws, encode, repeated}
use kidp.Client.{database, update_status}
use kidp.Tests.Fixtures.{answering, started, local, labelled, deployed}

abbrev pub ready : CallbackRequest
ready = record blank {
  deployment_id = "deploy-1";
  resource_type = "database";
  namespace = "acme-apps";
  status = "success";
  phase = "Ready";
  endpoint = "orders.acme";
  port = pos 5432;
}

abbrev pub codec : Codec
codec = unary_codec ready

abbrev signed_headers : List (String × String)
signed_headers =
    ("X-KIDP-Broker-Name", "local")
    ∷ ("X-KIDP-Timestamp", "1970-01-01T00:16:40Z")
    ∷ ("X-KIDP-Signature", encode (repeated 64 0))
    ∷ ("X-KIDP-Public-Key", encode (repeated 32 0))
    ∷ []

abbrev pub posted : Incoming
posted = record { method = "POST"; headers = signed_headers; body = "{}" }

handle_callback_admits_example :
    ((callback : CallbackRequest) × Admitted (answering 200) codec posted callback started
      × (handle_callback (answering 200) codec posted started
          ≡ route (answering 200) codec posted callback started))
    ⊎ (¬ ((callback : CallbackRequest) × Admitted (answering 200) codec posted callback started)
        × Refused
            (answering 200)
            codec
            posted
            (handle_callback (answering 200) codec posted started)
            started)
handle_callback_admits_example = handle_callback_admits (answering 200) codec posted started

-- A broker with a key of 64 bytes, and a manager that answers with the status.
abbrev pub host : ℕ → Host
host code = record {
  broker_name = "local";
  broker_private_key = encode (repeated 64 7);
  broker_private_key_path = "";
  read_file = λ path. err (failed path);
  text_of = encode;
  number_text = λ n. "number";
  clock = λ log. seconds 1000;
  cancelled = λ log d. none;
  new_request = λ method url. none;
  send = λ log r. ok (record { status_code = code; body = "" });
}

notify_status-waits_example :
    (requests (notify_status (host 503) codec "http://manager" ready []).1 ≤ 3 + 0)
    × ((waits (notify_status (host 503) codec "http://manager" ready []).1 ≡ [])
        ⊎ (waits (notify_status (host 503) codec "http://manager" ready []).1 ≡ seconds 1 ∷ [])
        ⊎ (waits (notify_status (host 503) codec "http://manager" ready []).1
            ≡ seconds 2 ∷ seconds 1 ∷ []))
notify_status-waits_example = notify_status-waits (host 503) codec "http://manager" ready []

delivered_once : (notify_status (host 200) codec "http://manager" ready []).0 ≡ none
unfolding notify_status notify_loop pass wait_before attempt_once judge
delivered_once = refl

-- A manager that is away for the first two requests.
abbrev away : Host
away = record (host 200) {
  send = λ log r.
      if leb 2 (requests log)
      then ok (record { status_code = 200; body = "" })
      else err (failed "connection refused");
}

away-AwayTwice : AwayTwice away
away-AwayTwice log r h = (record { status_code = 200; body = "" }, ground arith, refl)

notify_status_recovers_example : (notify_status away codec "http://manager" ready []).0 ≡ none
notify_status_recovers_example =
    notify_status_recovers away codec "http://manager" ready "{}" [] refl refl (λ log d. refl)
      away-AwayTwice

abbrev pub stamp : String
stamp = "1970-01-01T00:16:40Z"

abbrev pub signature : String
signature = encode (repeated 64 7)

abbrev pub public : String
public = encode (repeated 32 7)

signs : sign_callback (host 200) codec "{}" stamp ≡ ok (signature, public)
unfolding sign_callback sign_with private_key string_dec
signs = refl

pub stamped : ◌≢◌ {A = String} stamp ""
unfolding string_dec
stamped = ne_of_test stamp "" refl

in_time :
    Timely
      (answering 200)
      codec
      (received (callback_request (host 200) codec "http://manager" "{}" stamp))
      (seconds 1000)
      started
unfolding ◌-ℤ◌
in_time = (omega arith, omega arith)

known_broker :
    (answering 200).brokers.get [] (record { namespace = "default"; name = "local" }) ≡ ok local
unfolding string_dec
known_broker = refl

callback_request-Admitted_example :
    Admitted
      (answering 200)
      codec
      (received (callback_request (host 200) codec "http://manager" "{}" stamp))
      ready
      started
unfolding string_dec
callback_request-Admitted_example =
    callback_request-Admitted (answering 200) (host 200) codec "http://manager" "{}" stamp signature
      public ready (seconds 1000) local started (unary-CodecLaws ready) signs stamped refl refl refl
      in_time known_broker (inl refl)

-- The broker's requests reach the manager, whatever their URL is.
abbrev wired : Host
wired = record (host 200) {
  send = λ log r. ok (
      response_of
        (serve (answering 200) codec (λ patterns path. some path) (λ path. handle_health)
          "/v1/callback" (received r) started).0);
}

wired_signs : sign_callback wired codec "{}" stamp ≡ ok (signature, public)
unfolding sign_callback sign_with private_key string_dec
wired_signs = refl

not_deployed : ◌≢◌ {A = String} "" "deploy-1"
unfolding string_dec
not_deployed = ne_of_test "" "deploy-1" refl

deployed_first : Finds (answering 200) ready started deployed
deployed_first = (labelled ∷ deployed ∷ [], refl, inr (not_deployed, inl (refl, refl)))

notify_status-serve_example :
    (notify_status wired codec "http://manager" ready []
      ≡ (none, sent (first_request wired codec "http://manager" ready "{}" []) ∷ []))
    × ((serve
          (answering 200)
          codec
          (λ patterns path. some path)
          (λ path. handle_health)
          "/v1/callback"
          (received (first_request wired codec "http://manager" ready "{}" []))
          started).1.calls
        ≡ update_status (database (updated ready deployed)) ∷ [])
unfolding string_dec
notify_status-serve_example =
    notify_status-serve (answering 200) wired codec (λ patterns path. some path)
      (λ path. handle_health) "http://manager" "/v1/callback" "{}" signature public ready
      (seconds 1000) local deployed (updated ready deployed) started [] (unary-CodecLaws ready) refl
      refl refl refl refl refl wired_signs stamped refl in_time known_broker (inl refl)
      deployed_first refl

abbrev pub success : CallbackRequest
success = success_payload "deploy-1" "Ready" none

Convenience-refused_example :
    (handle_callback (answering 200) (unary_codec success) posted started).0.status ≢ 200
Convenience-refused_example =
    Convenience-refused (answering 200) (unary_codec success) posted started success refl
      ("deploy-1", "Ready", inl (none, refl))

abbrev unnamed : CallbackRequest
unnamed = record ready { deployment_id = "" }

handle_database_callback_unnamed_example :
    (w : Database) × ((handle_database_callback (answering 200) unnamed started).1.calls
      ≡ update_status (database w) ∷ [])
    × (w.meta ≡ labelled.meta)
    × (w.status.phase ≡ "Ready")
handle_database_callback_unnamed_example =
    handle_database_callback_unnamed (answering 200) unnamed labelled (deployed ∷ []) started refl
      refl refl
