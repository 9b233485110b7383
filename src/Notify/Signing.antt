-- ===== src/Notify/Signing.antt =====
-- The callbacks of pkg/broker/callback.go as internal/webhook/server.go receives them.
use kidp.Prelude.{
  ℕ, suc, String, string_dec, ne_of_test, is_empty, lookup, ◌≡◌, ◌≢◌, refl, sym, ◌∙◌, ap, subst,
  ◌⊎◌, inl, inr,
}
use kidp.Prelude.{false, Option, none, List, length, arith}
use kidp.Result.{Result, ok, Result-cases}
use kidp.Json.{Fields}
use kidp.Api.Meta.{Time}
use kidp.Api.Broker.{Broker}
use kidp.Callbacks.{CallbackRequest, Bytes, Codec, CodecLaws, signed_message, header}
use kidp.Client.{Env, Run, HttpRequest}
use kidp.Webhook.{Incoming, verify_signature, handle_callback}
use kidp.Webhook.Admission.{Timely, Verified, Admitted, verify_signature_iff}
use kidp.Webhook.Effects.{handle_callback_accepts_iff}
use kidp.Notify.{Host, sender_name, private_key, sign_with, sign_callback}
use kidp.Notify.{callback_request}
use kidp.Notify.Convenience.{success_payload, failure_payload, progress_payload}

module _ (host : Host) (codec : Codec) (laws : CodecLaws codec) where
  sign_callback_key :
      (body timestamp sig key : String)
      → sign_callback host codec body timestamp ≡ ok (sig, key)
      → (bytes : Bytes) × (sig ≡ codec.encode64 (codec.sign bytes (signed_message timestamp body)))
        × (key ≡ codec.encode64 (codec.public_key bytes))
  unfolding sign_callback sign_with
  sign_callback_key body timestamp sig key h = elim (Result-cases (private_key host codec)) [
    | inl (bytes, e) ↦ (bytes, ground arith, ground arith)
    | inr (x, e) ↦ ground arith
  ]

  sign_callback-Verified :
      (body timestamp sig key : String)
      → sign_callback host codec body timestamp ≡ ok (sig, key)
      → Verified codec body timestamp sig key
  sign_callback-Verified body timestamp sig key h =
      let (bytes, s, k) = sign_callback_key body timestamp sig key h in
      (
        codec.sign bytes (signed_message timestamp body),
        codec.public_key bytes,
        ap codec.decode64 s ∙ laws.decode-encode (codec.sign bytes (signed_message timestamp body)),
        ap codec.decode64 k ∙ laws.decode-encode (codec.public_key bytes),
        laws.public_key_size bytes,
        laws.verify-sign bytes (signed_message timestamp body),
      )

  encoded_nonempty :
      (text : String) (bytes : Bytes) (n : ℕ)
      → text ≡ codec.encode64 bytes
      → length bytes ≡ suc n
      → text ≢ ""
  encoded_nonempty text bytes n t l e = ground (arith, laws.encode_nonempty bytes (sym t ∙ e))

  sign_callback_nonempty :
      (body timestamp sig key : String)
      → sign_callback host codec body timestamp ≡ ok (sig, key)
      → (sig ≢ "") × (key ≢ "")
  sign_callback_nonempty body timestamp sig key h =
      let (bytes, s, k) = sign_callback_key body timestamp sig key h in
      (
        encoded_nonempty sig _ 63 s (laws.signature_size bytes (signed_message timestamp body)),
        encoded_nonempty key _ 31 k (laws.public_key_size bytes),
      )

-- The manager accepts the signature that a broker makes, under the public key that the broker
-- passes on with it.
pub verify_signature-sign_callback :
    (host : Host) (codec : Codec) (body timestamp sig key : String)
    → CodecLaws codec
    → sign_callback host codec body timestamp ≡ ok (sig, key)
    → verify_signature codec body timestamp sig key ≡ none
verify_signature-sign_callback host codec body timestamp sig key laws h =
    (verify_signature_iff codec body timestamp sig key).1
      (sign_callback-Verified host codec laws body timestamp sig key h)

-- A request as the manager's server receives it.
abbrev pub received : HttpRequest → Incoming
received r = record { method = r.method; headers = r.headers; body = r.body }

abbrev request_headers : Host → Codec → String → String → List (String × String)
request_headers host codec body timestamp = (callback_request host codec "" body timestamp).headers

unknown-nonempty : ◌≢◌ {A = String} "unknown-broker" ""
unfolding string_dec
unknown-nonempty = ne_of_test "unknown-broker" "" refl

blank-untyped : ◌≢◌ {A = String} "" "database"
unfolding string_dec
blank-untyped = ne_of_test "" "database" refl

sender_name-nonempty : (host : Host) (codec : Codec) → sender_name host codec ≢ ""
sender_name-nonempty host codec = ground (arith, unknown-nonempty)

module _ (host : Host) (codec : Codec) (body timestamp sig key : String) where
  named_key : key ≢ "" → is_empty key ≡ false
  named_key n = ground arith

  sent_headers :
      sign_callback host codec body timestamp ≡ ok (sig, key)
      → key ≢ ""
      → (header (request_headers host codec body timestamp) "X-KIDP-Broker-Name"
          ≡ sender_name host codec)
        × (header (request_headers host codec body timestamp) "X-KIDP-Timestamp" ≡ timestamp)
        × (header (request_headers host codec body timestamp) "X-KIDP-Signature" ≡ sig)
        × (header (request_headers host codec body timestamp) "X-KIDP-Public-Key" ≡ key)
  unfolding lookup string_dec
  sent_headers h n = (refl, refl, rw h, rw (h, named_key n))

key_choice :
    (b : Broker) (key passed : String)
    → key ≢ ""
    → passed ≡ key
    → (b.status.callback_public_key ≡ "") ⊎ (b.status.callback_public_key ≡ key)
    → ((b.status.callback_public_key ≢ "") × (key ≡ b.status.callback_public_key))
      ⊎ ((b.status.callback_public_key ≡ "") × (key ≡ passed))
key_choice b key passed n k keyed = ground arith

-- A callback that a broker signs is admitted by the manager, if the manager knows the broker by its
-- name with that key or with none, reads the callback as one that it marshals to the same text, and
-- reads the timestamp, which is not empty, as a time at most five minutes ago and at most one
-- minute ahead.
pub callback_request-Admitted :
    (env : Env) (host : Host) (codec : Codec) (url body timestamp sig key : String)
    (payload : CallbackRequest) (ts : Time) (b : Broker) (s : Run)
    → CodecLaws codec
    → sign_callback host codec body timestamp ≡ ok (sig, key)
    → timestamp ≢ ""
    → codec.parse_time timestamp ≡ ok ts
    → codec.decode_callback body ≡ ok payload
    → codec.marshal_callback payload ≡ ok body
    → Timely env codec (received (callback_request host codec url body timestamp)) ts s
    → env.brokers.get s.calls (record { namespace = "default"; name = sender_name host codec })
      ≡ ok b
    → (b.status.callback_public_key ≡ "") ⊎ (b.status.callback_public_key ≡ key)
    → Admitted env codec (received (callback_request host codec url body timestamp)) payload s
callback_request-Admitted env host codec url body timestamp sig key payload ts b s laws signed
      stamped parsed decoded marshalled timely known keyed =
    let (sig_some, key_some) =
      sign_callback_nonempty host codec laws body timestamp sig key signed in
    let (n, t, g, k) = sent_headers host codec body timestamp sig key signed key_some in
    let verified = sign_callback-Verified host codec laws body timestamp sig key signed in
    let headers = request_headers host codec body timestamp in
    (
      refl,
      decoded,
      λ e. sender_name-nonempty host codec (sym n ∙ e),
      λ e. stamped (sym t ∙ e),
      λ e. sig_some (sym g ∙ e),
      (
        ts,
        ap codec.parse_time t ∙ parsed,
        (
          timely,
          (
            b,
            (
              subst
                  (λ x. env.brokers.get s.calls (record { namespace = "default"; name = x }) ≡ ok b)
                  (sym n) known,
              (
                key,
                body,
                (key_some, key_choice b key (header headers "X-KIDP-Public-Key") key_some k keyed),
                marshalled,
                subst (λ x. Verified codec body x (header headers "X-KIDP-Signature") key) (sym t)
                    (subst (λ x. Verified codec body timestamp x key) (sym g) verified),
              ),
            ),
          ),
        ),
      ),
    )

-- The payloads of the three convenience methods.
abbrev pub Convenience : CallbackRequest → Type 0
Convenience payload =
    (deployment_id phase : String) × (((details : Option Fields) × (payload
          ≡ success_payload deployment_id phase details))
      ⊎ ((text : String) × ((payload ≡ failure_payload deployment_id phase text)
            ⊎ (payload ≡ progress_payload deployment_id phase text))))

same_callback : {r : Result CallbackRequest} {c d : CallbackRequest} → r ≡ ok c → r ≡ ok d → c ≡ d
same_callback p q = cc

Convenience-untyped : (payload : CallbackRequest) → Convenience payload → payload.resource_type ≡ ""
Convenience-untyped payload (i, p, inl (details, q)) = ap (λ x. x.resource_type) q
Convenience-untyped payload (i, p, inr (text, inl q)) = ap (λ x. x.resource_type) q
Convenience-untyped payload (i, p, inr (text, inr q)) = ap (λ x. x.resource_type) q

-- The manager accepts no callback with a payload of `NotifySuccess`, `NotifyFailure` or
-- `NotifyProgress`, since none of them names the type of the resource.
pub Convenience-refused :
    (env : Env) (codec : Codec) (req : Incoming) (s : Run) (payload : CallbackRequest)
    → codec.decode_callback req.body ≡ ok payload
    → Convenience payload
    → (handle_callback env codec req s).0.status ≢ 200
Convenience-refused env codec req s payload d c h =
    let (callback, (posted, decoded, _, _, _, _), typed, _) =
      (handle_callback_accepts_iff env codec req s).0 h in
    blank-untyped (
      sym (Convenience-untyped payload c)
      ∙ (ap (λ x. x.resource_type) (same_callback d decoded) ∙ typed))
