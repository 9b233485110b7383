-- ===== src/Webhook.antt =====
-- internal/webhook/server.go: the manager's endpoint for the brokers' callbacks.
pub mod Admission
pub mod Effects
pub mod Serving
pub mod Listening
use kidp.Prelude.{
  ℕ, pos, String, ◌<>◌, ◌==◌, is_empty, eqb, lt_ℤ, if◌then◌else◌, Bool, true, false, not, ◌&&◌,
  ◌||◌,
}
use kidp.Prelude.{Option, none, some, List, [], ◌∷◌, Dict, length, find}
use kidp.Result.{Result, ok, err, Error, errorf, errorf_int, wrapf}
use kidp.Api.Meta.{Time, ObjectKey, Condition}
use kidp.Time.{minutes, sub}
use kidp.Api.Owner.{SecretReference}
use kidp.Api.Database.{Database}
use kidp.Api.Broker.{Broker}
use kidp.Callbacks.{CallbackRequest, Bytes, Codec, signed_message, header}
use kidp.Client.{
  Env, History, Exec, pure, branch, reads, ◌>>=◌, database_kind, update_object_status,
}

-- The parts of a request that the handler reads.
pub record Incoming : Type 0 where
  pub method : String
  pub headers : Dict String
  pub body : String

pub record Response : Type 0 where
  pub status : ℕ
  pub body : String

-- `http.Error`
abbrev pub refuse : String → ℕ → Exec Response
refuse message code = pure (record { status = code; body = message <> "\n" })

-- The body is the JSON of the one field.
abbrev pub handle_health : Response
handle_health = record { status = 200; body = "{\"status\":\"healthy\"}\n" }

unfoldable pub verify_signature : Codec → String → String → String → String → Option Error
verify_signature codec body timestamp signature_b64 pub_key_b64 =
    elim (codec.decode64 signature_b64) [
      | err e ↦ some (wrapf "failed to decode signature" e)
      | ok sig_bytes ↦ elim (codec.decode64 pub_key_b64) [
        | err e ↦ some (wrapf "failed to decode public key" e)
        | ok pub_bytes ↦
            if not (eqb (length pub_bytes) 32)
            then some (errorf_int "invalid public key size" (length pub_bytes))
            else if not (codec.verify pub_bytes (signed_message timestamp body) sig_bytes)
            then some (errorf "signature verification failed")
            else none
      ]
    ]

-- The condition that replaces all others.
abbrev pub callback_condition : CallbackRequest → String → String → String → Condition
callback_condition callback status reason message = record {
  kind = "Ready";
  status = status;
  observed_generation = pos 0;
  last_transition_time = some callback.time;
  reason = reason;
  message = message;
}

abbrev pub secret_of : CallbackRequest → Option SecretReference → Option SecretReference
secret_of callback old =
    if not (is_empty callback.connection_secret)
    then some (record { name = callback.connection_secret; namespace = callback.namespace })
    else old

-- The database with the status that a callback gives it.
unfoldable pub updated : CallbackRequest → Database → Database
updated callback db =
    if callback.status == "success" && callback.phase == "Ready"
    then record db {
      status = record db.status {
        phase = callback.phase;
        endpoint = callback.endpoint;
        port = callback.port;
        connection_secret_ref = secret_of callback db.status.connection_secret_ref;
        conditions =
            callback_condition callback "True" "ProvisioningSucceeded" callback.message ∷ [];
      };
    }
    else if callback.status == "failed"
    then record db {
      status = record db.status {
        phase = callback.phase;
        conditions = callback_condition callback "False" "ProvisioningFailed" callback.error ∷ [];
      };
    }
    else record db { status = record db.status { phase = callback.phase } }

abbrev pub has_deployment : String → Database → Bool
has_deployment id db = db.status.deployment_id == id

module _ (env : Env) where
  unfoldable pub update_found : CallbackRequest → Option Database → Exec (Option Error)
  update_found callback none =
      pure (some (errorf ("database not found for deploymentId: " <> callback.deployment_id)))
  update_found callback (some db) = do
    r ← update_object_status env database_kind (updated callback db)
    branch r (λ e. pure (some (wrapf "failed to update database status" e))) (λ _. pure none)

  unfoldable pub handle_database_callback : CallbackRequest → Exec (Option Error)
  handle_database_callback callback = do
    listed ← reads (λ h. env.list_databases h callback.namespace)
    branch listed (λ e. pure (some (wrapf "failed to list databases" e)))
        (λ items. update_found callback (find (has_deployment callback.deployment_id) items))

  module _ (codec : Codec) (req : Incoming) where
    abbrev pub answer : Option Error → Exec Response
    answer (some e) = refuse "Failed to process callback" 500
    answer none = pure (record { status = 200; body = "{\"status\":\"accepted\"}\n" })

    -- The switch over the resource type.
    unfoldable pub route : CallbackRequest → Exec Response
    route callback =
        if callback.resource_type == "database"
        then handle_database_callback callback >>= answer
        else refuse "Unknown resource type" 400

    -- From the verification of the signature on.
    unfoldable pub handle_signed : CallbackRequest → String → String → Exec Response
    handle_signed callback pub_b64 raw_body =
        elim (verify_signature codec raw_body (header req.headers "X-KIDP-Timestamp")
          (header req.headers "X-KIDP-Signature") pub_b64) [
            | some e ↦ refuse "Invalid signature" 401
            | none ↦ route callback
          ]

    -- The key that the broker's status holds, or else the one that the request brings along.
    abbrev pub key_for : Broker → String
    key_for b =
        if is_empty b.status.callback_public_key
        then header req.headers "X-KIDP-Public-Key"
        else b.status.callback_public_key

    unfoldable pub handle_from : CallbackRequest → Broker → Exec Response
    handle_from callback b =
        if is_empty (key_for b)
        then refuse "No public key available" 401
        else branch (codec.marshal_callback callback) (λ e. refuse "Server error" 500)
            (handle_signed callback (key_for b))

    -- `time.Since(ts) > 5*time.Minute || time.Until(ts) > 1*time.Minute`
    unfoldable pub outside_skew : Time → History → Bool
    outside_skew ts h =
        lt_ℤ (minutes 5) (sub (env.clock h 0) ts) || lt_ℤ (minutes 1) (sub ts (env.clock h 1))

    unfoldable pub handle_at : CallbackRequest → Time → Exec Response
    handle_at callback ts = do
      outside ← reads (outside_skew ts)
      found ← reads (λ h.
          env.brokers.get h
            (record { namespace = "default"; name = header req.headers "X-KIDP-Broker-Name" }))
      if outside
          then refuse "Timestamp outside allowed range" 401
          else branch found (λ e. refuse "Unknown broker" 401) (handle_from callback)

    unfoldable pub handle_decoded : CallbackRequest → Exec Response
    handle_decoded callback =
        if is_empty (header req.headers "X-KIDP-Broker-Name")
          || is_empty (header req.headers "X-KIDP-Timestamp")
          || is_empty (header req.headers "X-KIDP-Signature")
        then refuse "Missing signature headers" 401
        else branch (codec.parse_time (header req.headers "X-KIDP-Timestamp"))
            (λ e. refuse "Invalid timestamp" 400) (handle_at callback)

    unfoldable pub handle_callback : Exec Response
    handle_callback =
        if not (req.method == "POST")
        then refuse "Method not allowed" 405
        else branch (codec.decode_callback req.body) (λ e. refuse "Invalid request body" 400)
            handle_decoded
