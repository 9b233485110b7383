-- ===== src/BrokerStart/Signing.antt =====
-- The keys that cmd/broker/main.go registers, and the signatures of pkg/broker/callback.go.
use kidp.Prelude.{String, ◌≡◌, ◌≢◌, sym, ◌∙◌, subst}
use kidp.Prelude.{none, [], In, length, lookup, string_dec, arith}
use kidp.Result.{ok, err, Error, errorf}
use kidp.Api.Broker.{Broker}
use kidp.Callbacks.{Bytes, Codec, CodecLaws, signed_message, header}
use kidp.BrokerStart.{registered, Site, serving}
use kidp.BrokerStart.{ClusterAccess, Clients, default_key_path, key_path}
use kidp.BrokerStart.{start}
use kidp.Client.{Env, Run}
use kidp.Webhook.{verify_signature, handle_callback}
use kidp.Webhook.Effects.{handle_callback_accepts_iff}
use kidp.Notify.{Host, private_key, sign_with, sign_callback, callback_request}
use kidp.Notify.Signing.{verify_signature-sign_callback, received}
use kidp.BrokerStart.Pairs.{PairLaws, start-Sound}

module _ (host : Host) (codec : Codec) where
  reads_key :
      (key : Bytes) (e : Error)
      → host.broker_private_key ≡ ""
      → host.broker_private_key_path ≢ ""
      → host.read_file host.broker_private_key_path ≡ ok key
      → codec.decode64 (host.text_of key) ≡ err e
      → private_key host codec ≡ ok key
  unfolding private_key
  reads_key key e unset path file raw = ground arith

  sign_callback_lem :
      (key : Bytes) (body timestamp : String)
      → private_key host codec ≡ ok key
      → length key ≡ 64
      → sign_callback host codec body timestamp
        ≡ ok (
          codec.encode64 (codec.sign key (signed_message timestamp body)),
          codec.encode64 (codec.public_key key),
        )
  unfolding sign_callback sign_with
  sign_callback_lem key body timestamp k l = rw (k, l)

-- A broker that has started to serve signs every callback, and the manager accepts the signature
-- under each public key that the start has registered. This is so where BROKER_PRIVATE_KEY is not
-- set, BROKER_PRIVATE_KEY_PATH is set, and to the same at the start and at the callback, and the
-- file there still holds the key, whose bytes are not a base64 text; the libraries of keys and
-- codes are as documented.
pub start-Signs :
    {Config Clientset : Type 0} (access : ClusterAccess Config Clientset) (site : Site)
    (codec : Codec) (clients : Clients) (host : Host) (key : Bytes) (e : Error)
    (body timestamp : String)
    → CodecLaws codec
    → PairLaws site codec
    → (start access site codec clients []).0 ≡ serving key
    → host.broker_private_key ≡ ""
    → host.broker_private_key_path ≡ site.broker_private_key_path
    → site.broker_private_key_path ≢ ""
    → host.read_file (key_path site codec) ≡ ok key
    → codec.decode64 (host.text_of key) ≡ err e
    → (sig public : String) × (sign_callback host codec body timestamp ≡ ok (sig, public))
      × ((b : Broker)
          → In (registered b) (start access site codec clients []).1
          → verify_signature codec body timestamp sig b.status.callback_public_key ≡ none)
start-Signs access site codec clients host key e body timestamp laws pairs h unset same set file
      raw =
    let (size, agrees) = start-Sound site codec pairs access clients key h in
    let signed =
      sign_callback_lem host codec key body timestamp
        (reads_key host codec key e unset (λ q. set (sym same ∙ q)) (here same set file) raw)
        size in
    (
      codec.encode64 (codec.sign key (signed_message timestamp body)),
      codec.encode64 (codec.public_key key),
      signed,
      λ b i.
          subst
            (λ x.
              verify_signature codec body timestamp
                (codec.encode64 (codec.sign key (signed_message timestamp body))) x
              ≡ none)
            (sym (agrees b i))
            (verify_signature-sign_callback host codec body timestamp _ _ laws signed),
    )
  where
    here :
        host.broker_private_key_path ≡ site.broker_private_key_path
        → site.broker_private_key_path ≢ ""
        → host.read_file (key_path site codec) ≡ ok key
        → host.read_file host.broker_private_key_path ≡ ok key
    here p q r = ground arith

module _ (host : Host) (codec : Codec) where
  no_key :
      host.broker_private_key ≡ ""
      → host.broker_private_key_path ≡ ""
      → (e : Error) × (private_key host codec ≡ err e)
  unfolding private_key string_dec
  no_key u p = (
    errorf "no private key configured (set BROKER_PRIVATE_KEY or BROKER_PRIVATE_KEY_PATH)",
    rw (u, p),
  )

  unsigned_header :
      (url body timestamp : String) (e : Error)
      → private_key host codec ≡ err e
      → header (callback_request host codec url body timestamp).headers "X-KIDP-Signature" ≡ ""
  unfolding sign_callback sign_with lookup string_dec
  unsigned_header url body timestamp e q = rw q

-- A broker whose process has neither BROKER_PRIVATE_KEY nor BROKER_PRIVATE_KEY_PATH set keeps its
-- key at the default path all the same, but signs nothing with it: the manager accepts none of its
-- callbacks.
pub unset_path-refused :
    (env : Env) (site : Site) (host : Host) (codec : Codec) (url body timestamp : String) (s : Run)
    → site.broker_private_key_path ≡ ""
    → host.broker_private_key ≡ ""
    → host.broker_private_key_path ≡ ""
    → (key_path site codec ≡ default_key_path)
      × ((handle_callback env codec
            (received (callback_request host codec url body timestamp))
            s).0.status
          ≢ 200)
unfolding string_dec
unset_path-refused env site host codec url body timestamp s path unset unpath =
    (rw path, λ h. refused h)
  where
    refused :
        (handle_callback env codec
            (received (callback_request host codec url body timestamp))
            s).0.status
          ≡ 200
        → ⊥
    refused h =
        let (e, q) = no_key host codec unset unpath in
        let (callback, (posted, decoded, named, stamped, signed, _), _, _) =
          (handle_callback_accepts_iff env codec
              (received (callback_request host codec url body timestamp)) s).0
            h in
        signed (unsigned_header host codec url body timestamp e q)
