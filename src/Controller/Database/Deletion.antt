-- ===== src/Controller/Database/Deletion.antt =====
-- `handleDeletion` and `cleanupDatabase` of internal/controller/database_controller.go.
use kidp.Prelude.{String, ◌<>◌, ◌≡◌, ◌≢◌, ap, ◌∙◌, ◌⊎◌, inl, inr, arith, none, some}
use kidp.Prelude.{true, ◌∷◌}
use kidp.Result.{ok, Error, wrapf, Result-cases}
use kidp.Api.Broker.{Broker}
use kidp.Api.Database.{Database}
use kidp.Registry.{Registry}
use kidp.BrokerClient.Types.{DeprovisionRequest, DeprovisionResponse}
use kidp.BrokerCalls.{post_request, deprovision, is_success}
use kidp.Client.{failed_with, Outcome, Env, Run, HttpResponse, update, http, database}
use kidp.Client.Trace.{is_update, count}
use kidp.Controller.Database.{cleanup_database, cleanup_with, handle_deletion, deprovision_on}
use kidp.Controller.Database.{recorded_broker, found_or_selected, deprovisioning_broker}
use kidp.Controller.Database.{deprovision_request, with_meta, finalizer_name}

-- The broker at the URL has answered the deprovisioning request with success.
abbrev pub Accepted : Env → Run → String → DeprovisionRequest → String → Type 0
Accepted env s url r body =
    (answer : HttpResponse) × (env.marshal_deprovision r ≡ ok body)
    × (env.send s.calls (post_request (url <> "/v1/deprovision") body) ≡ ok answer)
    × (is_success answer.status_code ≡ true)

module _ (env : Env) where
  deprovision-Accepted :
      (url : String) (r : DeprovisionRequest) (s : Run) (resp : DeprovisionResponse)
      → (deprovision env url r s).0 ≡ ok resp
      → (body : String) × Accepted env s url r body
        × ((deprovision env url r s).1
            ≡ record s { calls = http (post_request (url <> "/v1/deprovision") body) ∷ s.calls })
  unfolding deprovision
  deprovision-Accepted url r s resp h = elim (Result-cases (env.marshal_deprovision r)) [
    | inr (e, m) ↦ ground arith
    | inl (body, m) ↦
        elim (Result-cases (env.send s.calls (post_request (url <> "/v1/deprovision") body))) [
          | inr (e, q) ↦ ground arith
          | inl (answer, q) ↦ (body, (answer, m, q, ground arith), ground arith)
        ]
  ]

  deprovision_updates :
      (url : String) (r : DeprovisionRequest) (s : Run)
      → count is_update (deprovision env url r s).1.calls ≡ count is_update s.calls
  unfolding deprovision
  deprovision_updates url r s = ground arith

  pub cleanup_recorded :
      (db : Database) (b : Broker) (s : Run) (g : Registry)
      → s.registry ≡ some g
      → db.status.deployment_id ≢ ""
      → recorded_broker env db db.status.broker_ref s.calls ≡ some b
      → cleanup_database env db s ≡ deprovision_on env db (some b) s
  unfolding cleanup_database cleanup_with deprovisioning_broker found_or_selected
  cleanup_recorded db b s g e f h = ground arith

  deprovision_on_result :
      (db : Database) (b : Broker) (s : Run)
      → let url = b.spec.endpoint in
        let req = deprovision_request env db in
        ((resp : DeprovisionResponse) × ((deprovision env url req s).0 ≡ ok resp)
          × ((deprovision_on env db (some b) s).0 ≡ none))
        ⊎ ((e : Error) × ((deprovision_on env db (some b) s).0 ≡ some e))
  unfolding deprovision_on
  deprovision_on_result db b s =
      elim (Result-cases (deprovision env b.spec.endpoint (deprovision_request env db) s).0) [
        | inl (resp, q) ↦ inl (resp, q, ground arith)
        | inr (e, q) ↦ inr (wrapf "failed to call broker deprovision" e, ground arith)
      ]

  deprovision_on_run :
      (db : Database) (b : Broker) (s : Run)
      → (deprovision_on env db (some b) s).1
        ≡ (deprovision env b.spec.endpoint (deprovision_request env db) s).1
  unfolding deprovision_on
  deprovision_on_run db b s = ground arith

  handle_deletion_cleaned :
      (db : Database) (s : Run)
      → env.contains_finalizer db.meta finalizer_name ≡ true
      → (cleanup_database env db s).0 ≡ none
      → (handle_deletion env db s).1.calls
        ≡ update (database (with_meta (env.remove_finalizer db.meta finalizer_name) db))
          ∷ (cleanup_database env db s).1.calls
  unfolding handle_deletion
  handle_deletion_cleaned db s f e = ground arith

  handle_deletion_failed :
      (db : Database) (s : Run) (e : Error)
      → env.contains_finalizer db.meta finalizer_name ≡ true
      → (cleanup_database env db s).0 ≡ some e
      → handle_deletion env db s ≡ (failed_with e, (cleanup_database env db s).1)
  unfolding handle_deletion
  handle_deletion_failed db s e f h = ground arith

  -- With a registry, for a database with its finalizer, a deployment, and the broker that is
  -- recorded in its status still there: either that broker has accepted the deprovisioning request,
  -- and the run has sent this request and then the write without the finalizer, and nothing else;
  -- or the run ends in an error and has written no object.
  pub handle_deletion_recorded :
      (db : Database) (b : Broker) (s : Run) (g : Registry)
      → env.contains_finalizer db.meta finalizer_name ≡ true
      → s.registry ≡ some g
      → db.status.deployment_id ≢ ""
      → recorded_broker env db db.status.broker_ref s.calls ≡ some b
      → ((body : String) × Accepted env s b.spec.endpoint (deprovision_request env db) body
          × ((handle_deletion env db s).1.calls
              ≡ update (database (with_meta (env.remove_finalizer db.meta finalizer_name) db))
                ∷ http (post_request (b.spec.endpoint <> "/v1/deprovision") body)
                ∷ s.calls))
        ⊎ ((e : Error) × ((handle_deletion env db s).0.error ≡ some e)
            × (count is_update (handle_deletion env db s).1.calls ≡ count is_update s.calls))
  handle_deletion_recorded db b s g f e d h =
      let c = cleanup_recorded db b s g e d h in
      elim (deprovision_on_result db b s) [
        | inl (resp, q, n) ↦
            let (body, accepted, r) =
              deprovision-Accepted b.spec.endpoint (deprovision_request env db) s resp q in
            inl (
              body,
              accepted,
              cc (
                handle_deletion_cleaned db s f (ap (λ x. x.0) c ∙ n),
                c,
                deprovision_on_run db b s,
                r,
              ),
            )
        | inr (x, q) ↦
            let z = handle_deletion_failed db s x f (ap (λ y. y.0) c ∙ q) in
            inr (x, ap (λ y. y.0.error) z, updates z c)
      ]
    where
      updates :
          {o : Outcome}
          → handle_deletion env db s ≡ (o, (cleanup_database env db s).1)
          → cleanup_database env db s ≡ deprovision_on env db (some b) s
          → count is_update (handle_deletion env db s).1.calls ≡ count is_update s.calls
      updates z c =
          ap (λ y. count is_update y.1.calls) z
          ∙ ap (λ y. count is_update y.1.calls) c
          ∙ ap (λ (y : Run). count is_update y.calls) (deprovision_on_run db b s)
          ∙ deprovision_updates b.spec.endpoint (deprovision_request env db) s
