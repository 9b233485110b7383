-- ===== src/Tests/Databases.antt =====
-- Runs of the database reconciler against brokers that accept and that refuse.
use kidp.Prelude.{
  ◌<◌, ◌≤◌, ◌≡◌, ◌≢◌, refl, sym, ap, ◌⊎◌, ◌<>◌, String, ne_of_test, string_dec, true, some, [], ◌∷◌,
  arith, lookup, insert, ◌-ℤ◌,
}
use kidp.Result.{Result, ok, err, Error, failed}
use kidp.Api.Meta.{tenant_label, read}
use kidp.Api.Owner.{ObjectReference}
use kidp.Api.Broker.{Broker}
use kidp.Api.Tenant.{Tenant}
use kidp.Time.{sub}
use kidp.Registry.{
  new_registry, select_broker, choose, candidates, matches_criteria, supports, select_best,
  select_from, calculate_score, load_score, heartbeat_score, refresh_cache_if_needed, needs_refresh,
  refresh_cache, fill,
}
use kidp.Registry.Matching.{Suits}
use kidp.Registry.Choice.{Reorders}
use kidp.BrokerCalls.{post_request, provision, post}
use kidp.Client.{Env, update, http, database}
use kidp.Client.Trace.{is_update, count}
use kidp.Status.{update_status_with_fallback}
use kidp.Resolver.{
  reader_at, resolve_tenant, resolve_from, resolve_step, resolve_owner, named_tenant, owner_of,
  fetch_owner, fetch_team,
}
use kidp.Controller.Database.{
  finalizer_name, criteria_for, with_meta, select_with, store_deployment, provision_on,
  provision_with, provision_database,
}
use kidp.Controller.Database.{
  recorded_broker, deprovision_request, handle_deletion, start_provisioning, settle,
  reconcile_tenant, reconcile_live, reconcile_database, reconcile,
}
use kidp.Controller.Database.Requests.{broker_calls, reconcile_count}
use kidp.Controller.Database.Orphans.{handle_deletion_gives_up}
use kidp.Controller.Database.Deletion.{Accepted, handle_deletion_recorded}
use kidp.Controller.Database.Placement.{
  Asked, Selected, provision_database-Suits, reconcile_database_guards,
}
use kidp.Tests.Fixtures.{answering, started, fresh, labelled, deployed, local}

reconcile_count_example :
    broker_calls
      (reconcile
        (answering 200)
        true
        (record { namespace = "acme-apps"; name = "orders" })
        started).1
    ≤ 1
reconcile_count_example =
    reconcile_count (answering 200) true (record { namespace = "acme-apps"; name = "orders" })
      started

with_cleanup : (answering 503).contains_finalizer deployed.meta finalizer_name ≡ true
unfolding string_dec
with_cleanup = refl

with_deployment_id : ◌≢◌ {A = String} "deploy-1" ""
unfolding string_dec
with_deployment_id = ne_of_test "deploy-1" "" refl

recorded_local : recorded_broker (answering 503) deployed deployed.status.broker_ref [] ≡ some local
unfolding string_dec
recorded_local = refl

handle_deletion_recorded_example :
    ((body : String) × Accepted
        (answering 503)
        started
        "http://broker"
        (deprovision_request (answering 503) deployed)
        body
      × ((handle_deletion (answering 503) deployed started).1.calls
          ≡ update (
              database (
                with_meta ((answering 503).remove_finalizer deployed.meta finalizer_name) deployed))
            ∷ http (post_request ("http://broker" <> "/v1/deprovision") body)
            ∷ []))
    ⊎ ((e : Error) × ((handle_deletion (answering 503) deployed started).0.error ≡ some e)
        × (count is_update (handle_deletion (answering 503) deployed started).1.calls ≡ 0))
handle_deletion_recorded_example =
    handle_deletion_recorded (answering 503) deployed local started new_registry with_cleanup refl
      with_deployment_id recorded_local

as_listed : Reorders ((answering 200).order [])
as_listed bs b = (λ i. i, λ i. i)

-- The API server fails to read and to list brokers.
abbrev failing : Env
failing = record (answering 200) {
  brokers = record (answering 200).brokers { get = λ h k. err (failed "timeout") };
  list_brokers = λ h. err (failed "timeout");
}

abbrev to_local : ObjectReference
to_local = record { name = "local"; namespace = "default" }

stale : needs_refresh new_registry (failing.clock [] 0) ≡ true
unfolding needs_refresh sub ◌-ℤ◌
stale = refl

handle_deletion_gives_up_example :
    (handle_deletion failing deployed started).1.calls
    ≡ update (database (with_meta (failing.remove_finalizer deployed.meta finalizer_name) deployed))
      ∷ []
handle_deletion_gives_up_example =
    handle_deletion_gives_up failing deployed new_registry started to_local (failed "timeout")
      (failed "timeout") with_cleanup with_deployment_id refl refl refl stale refl

asks : broker_calls started < broker_calls (provision_database (answering 200) labelled started).1
unfolding provision_database provision_with select_with provision_on provision post store_deployment
    update_status_with_fallback select_broker choose candidates matches_criteria supports
    select_best select_from calculate_score load_score heartbeat_score refresh_cache_if_needed
    needs_refresh refresh_cache fill insert sub string_dec ◌-ℤ◌
asks = omega arith

provision_database-Suits_example :
    (b : Broker) × Selected (answering 200) started.registry labelled b started
    × Suits b (criteria_for labelled)
    × Asked (answering 200) labelled b (provision_database (answering 200) labelled started).1
provision_database-Suits_example =
    provision_database-Suits (answering 200) labelled started as_listed asks

provisions :
    broker_calls started < broker_calls (reconcile_database (answering 200) true labelled started).1
unfolding reconcile_database reconcile_live reconcile_tenant start_provisioning settle
    resolve_tenant resolve_from resolve_step resolve_owner named_tenant owner_of fetch_owner
    fetch_team lookup provision_database provision_with select_with provision_on provision post
    store_deployment update_status_with_fallback select_broker choose candidates matches_criteria
    supports select_best select_from calculate_score load_score heartbeat_score
    refresh_cache_if_needed needs_refresh refresh_cache fill insert sub string_dec ◌-ℤ◌
provisions = omega arith

reconcile_database_guards_example :
    ((answering 200).contains_finalizer labelled.meta finalizer_name ≡ true)
    × ((t : Tenant) × (resolve_tenant (reader_at (answering 200) []) (database labelled) ≡ ok t)
        × (read labelled.meta.labels tenant_label ≡ t.meta.name))
    × (labelled.status.deployment_id ≡ "")
reconcile_database_guards_example =
    reconcile_database_guards (answering 200) true labelled started refl provisions

of_acme :
    (t : Tenant)
    → resolve_tenant (reader_at (answering 200) []) (database fresh) ≡ ok t
    → t.meta.name ≡ "acme"
unfolding resolve_tenant resolve_from resolve_step resolve_owner named_tenant owner_of fetch_owner
    fetch_team string_dec
of_acme t q = ap (λ x. x.meta.name) (sym (ok_same q))
  where
    ok_same : {c d : Tenant} → ◌≡◌ {A = Result Tenant} (ok c) (ok d) → c ≡ d
    ok_same p = cc

asks_again : (reconcile_live (answering 200) true fresh started).0.requeue ≡ true
unfolding reconcile_live
asks_again = refl
