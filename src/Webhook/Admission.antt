-- ===== src/Webhook/Admission.antt =====
-- Which callbacks internal/webhook/server.go lets through to its handlers.
use kidp.Prelude.{◌≤◌, ◌≤ℤ◌, ◌-ℤ◌, String, ◌==◌, is_empty, ◌≡◌, ◌≢◌, subst, ◌↔◌, ◌⊎◌, inl, inr}
use kidp.Prelude.{◌||◌, Bool, true, false, Bool-cases, none, arith, length}
use kidp.Result.{ok, Result-cases}
use kidp.Api.Meta.{Time}
use kidp.Api.Broker.{Broker}
use kidp.Time.{minutes, lt_ℤ-sub}
use kidp.Callbacks.{CallbackRequest, Bytes, Codec, signed_message, header}
use kidp.Client.{Env, Run, Exec}
use kidp.Webhook.{Incoming, Response, verify_signature, route, handle_signed, key_for, handle_from}
use kidp.Webhook.{outside_skew, handle_at, handle_decoded, handle_callback}

module _ (codec : Codec) where
  -- The signature is one of the message under the key, both given in base64.
  abbrev pub Verified : String → String → String → String → Type 0
  Verified body timestamp signature key =
      (sig_bytes : Bytes) × (pub_bytes : Bytes) × (codec.decode64 signature ≡ ok sig_bytes)
      × (codec.decode64 key ≡ ok pub_bytes)
      × (length pub_bytes ≡ 32)
      × (codec.verify pub_bytes (signed_message timestamp body) sig_bytes ≡ true)

  pub verify_signature_iff :
      (body timestamp signature key : String)
      → (verify_signature codec body timestamp signature key ≡ none)
        ↔ Verified body timestamp signature key
  unfolding verify_signature
  verify_signature_iff body timestamp signature key =
      elim (Result-cases (codec.decode64 signature)) [
        | inl (sig_bytes, e) ↦ elim (Result-cases (codec.decode64 key)) [
          | inl (pub_bytes, f) ↦ (
            λ h. (sig_bytes, pub_bytes, e, f, ground arith, ground arith),
            λ (s, p, q, r, l, v). ground arith,
          )
          | inr (x, f) ↦ (λ h. ground arith, λ h. ground arith)
        ]
        | inr (x, e) ↦ (λ h. ground arith, λ h. ground arith)
      ]

module _ (env : Env) (codec : Codec) (req : Incoming) where
  -- The key is the one of the broker's status, or the request's own if the status has none.
  abbrev pub KeyOf : Broker → String → Type 0
  KeyOf b key =
      (key ≢ "")
      × (((b.status.callback_public_key ≢ "") × (key ≡ b.status.callback_public_key))
          ⊎ ((b.status.callback_public_key ≡ "") × (key ≡ header req.headers "X-KIDP-Public-Key")))

  abbrev pub SignedBy : CallbackRequest → Broker → Type 0
  SignedBy callback b =
      (key : String) × (raw : String) × KeyOf b key
      × (codec.marshal_callback callback ≡ ok raw)
      × Verified codec raw (header req.headers "X-KIDP-Timestamp")
          (header req.headers "X-KIDP-Signature") key

  -- At most five minutes old, and at most one minute ahead.
  abbrev pub Timely : Time → Run → Type 0
  Timely ts s = (env.clock s.calls 0 -ℤ ts ≤ℤ minutes 5) × (ts -ℤ env.clock s.calls 1 ≤ℤ minutes 1)

  abbrev pub SentBy : CallbackRequest → Broker → Run → Type 0
  SentBy callback b s =
      (env.brokers.get s.calls
          (record { namespace = "default"; name = header req.headers "X-KIDP-Broker-Name" })
        ≡ ok b)
      × SignedBy callback b

  -- The handler has not moved on the state, and answers with an error.
  abbrev pub Refused : Response × Run → Run → Type 0
  Refused (response, s') s = (s' ≡ s) × (400 ≤ response.status)

  -- The handler `m` goes on to the switch over the resource type exactly if `P` holds.
  abbrev pub Decides : Type 0 → Exec Response → CallbackRequest → Run → Type 0
  Decides P m callback s = (P × (m s ≡ route env codec req callback s)) ⊎ (¬ P × Refused (m s) s)

  handle_signed-Decides :
      (callback : CallbackRequest) (key raw : String) (s : Run)
      → Decides
          (Verified codec raw
            (header req.headers "X-KIDP-Timestamp")
            (header req.headers "X-KIDP-Signature")
            key)
          (handle_signed env codec req callback key raw)
          callback
          s
  unfolding handle_signed
  handle_signed-Decides callback key raw s = ground (
    arith,
    verify_signature_iff codec raw (header req.headers "X-KIDP-Timestamp")
        (header req.headers "X-KIDP-Signature") key,
  )

  key_for-KeyOf : (b : Broker) → key_for env codec req b ≢ "" → KeyOf b (key_for env codec req b)
  key_for-KeyOf b h = ground arith

  key_for_of_KeyOf : (b : Broker) (key : String) → KeyOf b key → key ≡ key_for env codec req b
  key_for_of_KeyOf b key h = ground arith

  handle_from-Decides :
      (callback : CallbackRequest) (b : Broker) (s : Run)
      → Decides (SignedBy callback b) (handle_from env codec req callback b) callback s
  unfolding handle_from
  handle_from-Decides callback b s = elim (Bool-cases (is_empty (key_for env codec req b))) [
    | inl e ↦ inr ground arith
    | inr e ↦ elim (Result-cases (codec.marshal_callback callback)) [
      | inl (raw, f) ↦ elim (handle_signed-Decides callback (key_for env codec req b) raw s) [
        | inl (v, q) ↦
            inl ((key_for env codec req b, raw, key_for-KeyOf b (ground arith), f, v), ground arith)
        | inr (v, q) ↦ inr ((λ (key, raw', k, f', v'). v (ground arith)), ground arith)
      ]
      | inr (x, f) ↦ inr (ground arith)
    ]
  ]

  outside_skew-Timely :
      (ts : Time) (s : Run) → (outside_skew env codec req ts s.calls ≡ false) ↔ Timely ts s
  unfolding outside_skew
  outside_skew-Timely ts s = ground (
    arith,
    lt_ℤ-sub 300_000_000_000 (env.clock s.calls 0) ts,
    lt_ℤ-sub 60_000_000_000 ts (env.clock s.calls 1),
  )

  abbrev pub Arrived : CallbackRequest → Time → Run → Type 0
  Arrived callback ts s = Timely ts s × ((b : Broker) × SentBy callback b s)

  handle_at-Decides :
      (callback : CallbackRequest) (ts : Time) (s : Run)
      → Decides (Arrived callback ts s) (handle_at env codec req callback ts) callback s
  unfolding handle_at
  handle_at-Decides callback ts s = elim (Bool-cases (outside_skew env codec req ts s.calls)) [
    | inl e ↦ inr (ground (arith, outside_skew-Timely ts s))
    | inr e ↦
        elim (Result-cases (
          env.brokers.get s.calls
            (record { namespace = "default"; name = header req.headers "X-KIDP-Broker-Name" }))) [
              | inl (b, f) ↦ elim (handle_from-Decides callback b s) [
                | inl (v, q) ↦ inl (((outside_skew-Timely ts s).0 e, (b, (f, v))), ground arith)
                | inr (v, q) ↦ inr ((λ (t, (b', (f', v'))). v (ground arith)), ground arith)
              ]
              | inr (x, f) ↦ inr (ground arith)
            ]
  ]

  -- What admits a request with the callback `callback`.
  abbrev pub Admitted : CallbackRequest → Run → Type 0
  Admitted callback s =
      (req.method ≡ "POST")
      × (codec.decode_callback req.body ≡ ok callback)
      × (header req.headers "X-KIDP-Broker-Name" ≢ "")
      × (header req.headers "X-KIDP-Timestamp" ≢ "")
      × (header req.headers "X-KIDP-Signature" ≢ "")
      × ((ts : Time) × (codec.parse_time (header req.headers "X-KIDP-Timestamp") ≡ ok ts)
          × Arrived callback ts s)

  abbrev Headed : CallbackRequest → Run → Type 0
  Headed callback s =
      (header req.headers "X-KIDP-Broker-Name" ≢ "")
      × (header req.headers "X-KIDP-Timestamp" ≢ "")
      × (header req.headers "X-KIDP-Signature" ≢ "")
      × ((ts : Time) × (codec.parse_time (header req.headers "X-KIDP-Timestamp") ≡ ok ts)
          × Arrived callback ts s)

  abbrev headless : Bool
  headless =
      is_empty (header req.headers "X-KIDP-Broker-Name")
      || is_empty (header req.headers "X-KIDP-Timestamp")
      || is_empty (header req.headers "X-KIDP-Signature")

  handle_decoded-Decides :
      (callback : CallbackRequest) (s : Run)
      → Decides (Headed callback s) (handle_decoded env codec req callback) callback s
  unfolding handle_decoded
  handle_decoded-Decides callback s =
      elim (Result-cases (codec.parse_time (header req.headers "X-KIDP-Timestamp"))) [
        | inl (ts, e) ↦ elim (handle_at-Decides callback ts s) [
          | inl (a, q) ↦ elim (Bool-cases (headless)) [
            | inl m ↦ inr (ground arith)
            | inr m ↦ inl ((ground arith, ground arith, ground arith, (ts, e, a)), ground arith)
          ]
          | inr (a, q) ↦ inr ((λ (n, t, g, (ts', e', a')). a (ground arith)), ground arith)
        ]
        | inr (x, e) ↦ inr (ground arith)
      ]

-- A request goes on to the switch over the resource type exactly if it is a POST of a callback
-- with the three headers, at most five minutes old and at most one minute ahead of the clock, from
-- a broker that the manager knows, whose signature verifies over the timestamp and the marshalled
-- callback, under the key in the broker's status where it has one. Any other is answered with an
-- error, and nothing is written.
pub handle_callback_admits :
    (env : Env) (codec : Codec) (req : Incoming) (s : Run)
    → ((callback : CallbackRequest) × Admitted env codec req callback s
        × (handle_callback env codec req s ≡ route env codec req callback s))
      ⊎ (¬ ((callback : CallbackRequest) × Admitted env codec req callback s)
          × Refused env codec req (handle_callback env codec req s) s)
unfolding handle_callback
handle_callback_admits env codec req s = elim (Result-cases (codec.decode_callback req.body)) [
  | inl (callback, e) ↦ elim (handle_decoded-Decides env codec req callback s) [
    | inl (a, q) ↦ elim (Bool-cases (req.method == "POST")) [
      | inl m ↦ let (n, t, g, r) = a in inl (callback, (ground arith, e, n, t, g, r), ground arith)
      | inr m ↦ inr ((λ (c, (p, d, n, t, g, r)). ground arith), ground arith)
    ]
    | inr (a, q) ↦ inr (
      (λ (c, (p, d, n, t, g, r)). a (subst (λ x. Headed env codec req x s) (cc) (n, t, g, r))),
      ground arith,
    )
  ]
  | inr (x, e) ↦ inr ((λ (c, (p, d, n, t, g, r)). ground arith), ground arith)
]
