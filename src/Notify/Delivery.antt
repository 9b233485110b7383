-- ===== src/Notify/Delivery.antt =====
-- `NotifyStatus` of pkg/broker/callback.go against the endpoint of internal/webhook/server.go: a
-- callback from the broker that sends it to the status of the database.
use kidp.Prelude.{String, string_dec, ◌≡◌, ◌≢◌, ◌∙◌, ap, subst, ◌⊎◌, inl, inr}
use kidp.Prelude.{Option, none, some, List, ◌∷◌, arith}
use kidp.Result.{ok}
use kidp.Api.Meta.{Time}
use kidp.Api.Database.{Database}
use kidp.Api.Broker.{Broker}
use kidp.Callbacks.{CallbackRequest, Codec, CodecLaws}
use kidp.Client.{Env, Run, HttpRequest, HttpResponse, database, update_status}
use kidp.Webhook.{Incoming, Response, updated, route, handle_callback}
use kidp.Webhook.Admission.{Timely, Admitted, handle_callback_admits}
use kidp.Webhook.Effects.{Finds, Updates, find_iff_First, update_found_lem, Admitted-unique}
use kidp.Webhook.Serving.{serve, callback_patterns}
use kidp.Notify.{
  Host, Log, Pass, delivered, sent, judge, sender_name, sign_callback, callback_request,
  wait_before, pass, notify_loop, notify_status,
}
use kidp.Notify.Recovery.{attempt_once_lem}
use kidp.Notify.Signing.{received, callback_request-Admitted}

module _ (host : Host) (codec : Codec) (url : String) (payload : CallbackRequest) (body : String)
    (log : Log) where
  -- The request of the first attempt.
  abbrev pub first_request : HttpRequest
  first_request = callback_request host codec url body (codec.format_time (host.clock log))

  first_pass :
      codec.marshal_callback payload ≡ ok body
      → host.new_request "POST" url ≡ none
      → judge (host.send log first_request) ≡ delivered
      → pass host codec url payload 0 log ≡ (delivered, sent first_request ∷ log)
  unfolding pass wait_before
  first_pass marshalled made good =
      attempt_once_lem host codec url payload body marshalled made log
      ∙ ap (λ (p : Pass). (p, sent first_request ∷ log)) good

  sent_once :
      pass host codec url payload 0 log ≡ (delivered, sent first_request ∷ log)
      → notify_status host codec url payload log ≡ (none, sent first_request ∷ log)
  unfolding notify_status notify_loop
  sent_once passed =
      rw (ap (λ (r : Pass × Log). r.0) passed, notify_status, notify_loop)
        (ap (λ (r : Pass × Log). (none, r.1)) passed)

module _ (env : Env) (codec : Codec) (req : Incoming) (callback : CallbackRequest) (s : Run) where
  runs_route :
      Admitted env codec req callback s
      → handle_callback env codec req s ≡ route env codec req callback s
  runs_route a = elim (handle_callback_admits env codec req s) [
    | inl (c, b, q) ↦
        subst (λ x. handle_callback env codec req s ≡ route env codec req x s)
          (Admitted-unique env codec req c callback s b a) q
    | inr (n, _) ↦ elim (n (callback, a)) [ ]
  ]

  Found-Updates : (db : Database) → Finds env callback s db → Updates env callback s db
  Found-Updates db (items, listed, first) =
      update_found_lem env callback s items db listed
        ((find_iff_First callback.deployment_id items db).1 first)

  route_stores :
      (db saved : Database)
      → callback.resource_type ≡ "database"
      → Finds env callback s db
      → env.databases.update_status s.calls (updated callback db) ≡ ok saved
      → ((route env codec req callback s).0.status ≡ 200)
        × ((route env codec req callback s).1.calls
            ≡ update_status (database (updated callback db)) ∷ s.calls)
  unfolding route
  route_stores db saved typed found kept =
      let (calls, accepted) = Found-Updates db found in
      let clean = accepted.1 (saved, kept) in (ground arith, ground arith)

-- The manager's answer as the broker's client reads it.
abbrev pub response_of : Response → HttpResponse
response_of r = record { status_code = r.status; body = r.body }

-- A broker reports on a database in one request: `NotifyStatus` ends without an error, and the one
-- thing that the manager writes is the status of the first database of the callback's namespace
-- with the callback's deployment, as the callback gives it. The request can be made and reaches the
-- manager's server, which takes its path for the callbacks'; the callback is about a database, is
-- marshalled to a text that the manager decodes to the callback, and can be signed; the timestamp
-- is not empty and is read as a time at most five minutes ago and at most one minute ahead; the
-- manager knows the broker by its name, with the key that signs or without one, and finds the
-- database; the API server takes the status; and the codecs are as documented.
pub notify_status-serve :
    (env : Env) (host : Host) (codec : Codec) (mux : List String → String → Option String)
    (unrouted : String → Response) (url path body sig key : String) (payload : CallbackRequest)
    (ts : Time) (b : Broker) (db saved : Database) (s : Run) (log : Log)
    → CodecLaws codec
    → host.send log (first_request host codec url payload body log)
      ≡ ok (
          response_of
            (serve env codec mux unrouted path
              (received (first_request host codec url payload body log))
              s).0)
    → mux callback_patterns path ≡ some "/v1/callback"
    → host.new_request "POST" url ≡ none
    → payload.resource_type ≡ "database"
    → codec.marshal_callback payload ≡ ok body
    → codec.decode_callback body ≡ ok payload
    → sign_callback host codec body (codec.format_time (host.clock log)) ≡ ok (sig, key)
    → codec.format_time (host.clock log) ≢ ""
    → codec.parse_time (codec.format_time (host.clock log)) ≡ ok ts
    → Timely env codec (received (first_request host codec url payload body log)) ts s
    → env.brokers.get s.calls (record { namespace = "default"; name = sender_name host codec })
      ≡ ok b
    → (b.status.callback_public_key ≡ "") ⊎ (b.status.callback_public_key ≡ key)
    → Finds env payload s db
    → env.databases.update_status s.calls (updated payload db) ≡ ok saved
    → (notify_status host codec url payload log
        ≡ (none, sent (first_request host codec url payload body log) ∷ log))
      × ((serve env codec mux unrouted path
            (received (first_request host codec url payload body log))
            s).1.calls
          ≡ update_status (database (updated payload db)) ∷ s.calls)
unfolding serve string_dec judge
notify_status-serve env host codec mux unrouted url path body sig key payload ts b db saved s log
      laws wired routed made typed marshalled decoded signed stamped parsed timely known keyed found
      kept =
    let req = first_request host codec url payload body log in
    let admitted =
      callback_request-Admitted env host codec url body (codec.format_time (host.clock log)) sig key
        payload ts b s laws signed stamped parsed decoded marshalled timely known keyed in
    let ran = served ∙ runs_route env codec (received req) payload s admitted in
    let (answered, calls) =
      route_stores env codec (received req) payload s db saved typed found kept in
    (
      sent_once host codec url payload body log (
          first_pass host codec url payload body log marshalled made
            (accepted (ap (λ (r : Response × Run). r.0.status) ran ∙ answered))),
      ap (λ (r : Response × Run). r.1.calls) ran ∙ calls,
    )
  where
    served :
        serve env codec mux unrouted path
          (received (first_request host codec url payload body log))
          s
        ≡ handle_callback env codec (received (first_request host codec url payload body log)) s
    served = rw (routed, serve)

    accepted :
        (serve env codec mux unrouted path
            (received (first_request host codec url payload body log))
            s).0.status
          ≡ 200
        → judge (host.send log (first_request host codec url payload body log)) ≡ delivered
    accepted fine = rw (wired, judge, fine)
