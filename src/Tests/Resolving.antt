-- ===== src/Tests/Resolving.antt =====
-- The tenant of a database through its team, of a namespace's objects, and of a cycle.
use kidp.Prelude.{
  ℕ, ◌≤◌, ◌≡◌, ◌≢◌, refl, sym, subst, lookup, ◌↔◌, String, ne_of_test, string_dec, none, some, [],
}
use kidp.Result.{ok, err, errorf}
use kidp.Api.Database.{Database}
use kidp.Api.Application.{Application}
use kidp.Client.{Object, database, application}
use kidp.Resolver.{Reader, reader_at, cluster_key, resolve_tenant}
use kidp.Resolver.Owners.{NamesNone, OwnedBy, Ownerless}
use kidp.Resolver.Chain.{Chain, resolve_tenant_iff}
use kidp.Resolver.Cycle.{resolve_tenant_endless}
use kidp.Controller.Tenant.{ensure_namespace, create_namespace, tenant_namespace}
use kidp.Controller.Tenant.Boundary.{tenant_namespace-resolves}
use kidp.Controller.Team.{label_of}
use kidp.Tests.Fixtures.{answering, started, acme, labelled, shop, named}

abbrev reader : Reader
reader = reader_at (answering 200) []

resolve_tenant_iff_example :
    (resolve_tenant reader (database labelled) ≡ ok acme)
    ↔ ((n : ℕ) × (n ≤ 6) × Chain reader n (database labelled) acme)
resolve_tenant_iff_example = resolve_tenant_iff reader (database labelled) acme

-- An application that has itself for an owner.
abbrev circular : Application
circular = record shop {
  spec = record shop.spec {
    owner = record { kind = "Application"; name = "shop"; namespace = "" };
  };
}

abbrev circle : Reader
circle = record reader { get_application = λ key. ok circular }

abbrev InCircle : Object → Type 0
InCircle o = o ≡ application circular

circle_closed :
    (o : Object) → InCircle o → (p : Object) × NamesNone o × OwnedBy circle o p × InCircle p
unfolding string_dec
circle_closed o h =
    subst (λ x. (p : Object) × NamesNone x × OwnedBy circle x p × InCircle p) (sym h)
      (application circular, ne_of_test "Application" "Tenant" refl, (refl, refl), refl)

resolve_tenant_endless_example :
    resolve_tenant circle (application circular)
    ≡ err (errorf "tenant resolution exceeded max depth")
resolve_tenant_endless_example =
    resolve_tenant_endless circle InCircle circle_closed (application circular) refl

abbrev unowned : Database
unowned = record labelled {
  meta = named "tenant-acme" "orders";
  spec = record labelled.spec { owner = record { kind = "User"; name = "ann"; namespace = "" } };
}

abbrev created : Reader
created = record reader { get_namespace = λ key. ok (tenant_namespace acme) }

named_acme : ◌≢◌ {A = String} "acme" ""
unfolding string_dec
named_acme = ne_of_test "acme" "" refl

unnamed : NamesNone (database unowned)
unfolding string_dec
unnamed = ne_of_test "User" "Tenant" refl

ownerless : Ownerless created (database unowned)
unfolding string_dec
ownerless = (ne_of_test "User" "Team" refl, ne_of_test "User" "Application" refl)

tenant_namespace-resolves_example : resolve_tenant created (database unowned) ≡ ok acme
unfolding string_dec
tenant_namespace-resolves_example =
    tenant_namespace-resolves created acme (database unowned) named_acme refl refl refl unnamed
      ownerless

no_error : (ensure_namespace (answering 200) acme started).0.error ≡ none
unfolding ensure_namespace create_namespace string_dec
no_error = refl

labelled_acme : label_of (reader.get_namespace (cluster_key "acme-apps")) ≡ some "acme"
unfolding lookup string_dec
labelled_acme = refl

apps_named : ◌≢◌ {A = String} "acme-apps" ""
unfolding string_dec
apps_named = ne_of_test "acme-apps" "" refl
