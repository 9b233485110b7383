-- ===== src/Tests/Lifecycles.antt =====
-- The life of a database, and several calls of the registry.
use kidp.Client.{Env}
use kidp.Client.Documented.{FinalizerLaws}
use kidp.Prelude.{
  ap, sym, subst, ℕ, ◌≡◌, ◌≢◌, inl, inr, refl, string_dec, true, lookup, insert, ◌-ℤ◌,
}
use kidp.Prelude.{List}
use kidp.Result.{Result, ok}
use kidp.Api.Broker.{Broker}
use kidp.Api.Database.{Database}
use kidp.Time.{sub}
use kidp.Registry.{
  new_registry, needs_refresh, SelectionCriteria, matches_criteria, supports, select_broker, choose,
  candidates, select_best, select_from, calculate_score, load_score, heartbeat_score,
  refresh_cache_if_needed, refresh_cache, fill,
}
use kidp.Registry.Matching.{Suits}
use kidp.Registry.Callers.{asking, answered, World, after_turn, Steps, here, later, takes_turn}
use kidp.Registry.Callers.Interleaved.{IsOneListing, IsKnown, select_broker-interleaved}
use kidp.Resolver.{
  resolve_tenant, resolve_from, resolve_step, resolve_owner, named_tenant, owner_of, fetch_owner,
  fetch_team,
}
use kidp.Controller.Database.{
  finalizer_name, with_phase, with_deployment, select_with, store_deployment, provision_on,
  provision_with, provision_database, start_provisioning, settle, reconcile_tenant, reconcile_live,
  reconcile_database,
}
use kidp.Controller.Database.Writes.{Writes}
use kidp.Controller.Database.Keeping.{Echoes}
use kidp.Controller.Database.Lifecycle
use kidp.Controller.Database.Lifecycle.{
  SharesLibrary, RemoveKeeps, reconciles, called_back, Steps-IsCovered,
}
use kidp.BrokerCalls.{provision, post}
use kidp.Status.{update_status_with_fallback}
use kidp.Webhook.{updated}
use kidp.Tests.Callbacks.{ready}
use kidp.Tests.Numbers.{whole}
use kidp.Tests.Fixtures.{answering, answering-FinalizerLaws, started, labelled, local, wanted}
use kidp.Tests.Selection.{brokers, discovered, as_listed}
use kidp.Tests.Runs.{given_id}

abbrev AsListed : List Broker → Type 0
AsListed items = items ≡ brokers

abbrev begun : World
begun = record { registry = new_registry; phase = λ i. asking wanted }

-- The second caller looks at the cache between two turns of the first.
abbrev overlapped : World
overlapped =
    after_turn whole 0 discovered
      (after_turn whole 1 discovered (after_turn whole 0 discovered begun))

overlaps : Steps whole AsListed begun overlapped
overlaps =
    later
      (later (later here (takes_turn 0 discovered as_listed admitted refl))
        (takes_turn 1 discovered as_listed admitted refl))
      (takes_turn 0 discovered as_listed admitted refl)
  where
    admitted :
        (items : List Broker)
        → ◌≡◌ {A = Result (List Broker)} (ok brokers) (ok items)
        → AsListed items
    admitted items q = cc

select_broker-interleaved_example :
    IsOneListing AsListed new_registry overlapped.registry
    × ((i : ℕ) (c : SelectionCriteria) (b : Broker)
        → overlapped.phase i ≡ answered c (ok b)
        → (begun.phase i ≡ asking c) × Suits b c × IsKnown AsListed new_registry b)
select_broker-interleaved_example =
    select_broker-interleaved whole AsListed begun overlapped (λ i. (wanted, refl)) overlaps

-- The environments of the reconciliations: the writes succeed, whatever brokers answer.
abbrev IsAnswering : Env → Type 0
IsAnswering env = (code : ℕ) × (env ≡ answering code)

answering-Echoes : (code : ℕ) → Echoes (answering code)
answering-Echoes code = record {
  whole_kept = λ h db saved q. same q;
  status_kept = λ h db saved q. same q;
}
  where
    same : {x y : Database} → ◌≡◌ {A = Result Database} (ok x) (ok y) → y ≡ x
    same q = cc

-- The database as a reconciliation leaves it that has called the broker.
abbrev placed : Database
placed =
    with_deployment local (record { status = "accepted"; deployment_id = "deploy-2"; message = "" })
      (with_phase "Provisioning" labelled)

Writes-placed : Writes placed (reconcile_database (answering 200) true labelled started).1.calls
unfolding reconcile_database reconcile_live reconcile_tenant start_provisioning settle
    resolve_tenant resolve_from resolve_step resolve_owner named_tenant owner_of fetch_owner
    fetch_team lookup provision_database provision_with select_with provision_on provision post
    store_deployment update_status_with_fallback select_broker choose candidates matches_criteria
    supports select_best select_from calculate_score load_score heartbeat_score
    refresh_cache_if_needed needs_refresh refresh_cache fill insert sub string_dec ◌-ℤ◌
Writes-placed = inr (inl refl)

-- It is placed, and then its broker calls back.
lives : Lifecycle.Steps (answering 200) IsAnswering labelled (updated ready placed)
lives =
    Lifecycle.later
      (Lifecycle.later Lifecycle.here
        (reconciles (answering 200) true started (200, refl) refl Writes-placed))
      (called_back ready refl)

placed_id : (updated ready placed).status.deployment_id ≢ ""
unfolding updated string_dec
placed_id = given_id

live : (answering 200).is_zero (updated ready placed).meta.deletion_timestamp ≡ true
unfolding updated string_dec
live = refl

shared : (env : Env) → IsAnswering env → SharesLibrary (answering 200) env
shared env (code, q) = (ap (λ e. e.contains_finalizer) q, ap (λ e. e.is_zero) q)

kept : (env : Env) → IsAnswering env → RemoveKeeps env
kept env (code, q) = subst RemoveKeeps (sym q) (λ m f. refl)

Steps-IsCovered_example :
    (answering 200).contains_finalizer (updated ready placed).meta finalizer_name ≡ true
Steps-IsCovered_example =
    Steps-IsCovered (answering 200) IsAnswering shared
      (λ env (code, q). subst Echoes (sym q) (answering-Echoes code))
      (λ env (code, q). subst FinalizerLaws (sym q) (answering-FinalizerLaws code)) kept labelled
      (updated ready placed) refl lives live placed_id
