-- ===== src/Tests/Runs.antt =====
-- Reconciliations of a database against an API server that stores what it is sent.
use kidp.Prelude.{◌≡◌, ◌≢◌, inl, refl, String, string_dec, ne_of_test, Bool, true, false, ◌-ℤ◌}
use kidp.Prelude.{some, [], ◌∷◌}
use kidp.Result.{Result, ok}
use kidp.Api.Meta.{ObjectKey}
use kidp.Api.Database.{Database}
use kidp.Time.{sub, seconds}
use kidp.Registry.{new_registry, needs_refresh, matches_criteria, supports, cache_key}
use kidp.Registry.Matching.{Suits, matches_criteria_iff}
use kidp.Registry.Cache.{last_with}
use kidp.Registry.Available.{Available}
use kidp.Resolver.{
  reader_at, resolve_tenant, resolve_from, resolve_step, resolve_owner, named_tenant, owner_of,
  fetch_owner, fetch_team,
}
use kidp.Client.{Env, History, update, database}
use kidp.Client.Documented.{FinalizerLaws}
use kidp.Controller.Database.{criteria_for, discovery_at, reconcile_database}
use kidp.Controller.Database.Writes.{AllWrites}
use kidp.Controller.Database.Phases.{IsAdmitted, reconcile_database-IsAdmitted}
use kidp.Controller.Database.Keeping.{Echoes}
use kidp.Controller.Database.Convergence.{stored, Stores, Accepting, Ends}
use kidp.Controller.Database.Liveness.{reconciled, reconciled-Ends}
use kidp.Tests.Fixtures.{answering, answering-FinalizerLaws, started, fresh, deployed, acme, local}
use kidp.Tests.Selection.{brokers}

abbrev pub key : ObjectKey
key = record { namespace = "acme-apps"; name = "orders" }

-- The cluster with an API server that stores the database.
abbrev pub storing_from : Database → Env
storing_from first = record (answering 200) {
  databases = record {
    get = λ h k. ok (stored first h);
    update = λ h db. ok db;
    update_status = λ h db. ok db;
  };
  list_databases = λ h namespace. ok (stored first h ∷ []);
}

-- The database is fresh at the start.
abbrev pub storing : Env
storing = storing_from fresh

pub storing-Stores : (first : Database) → Stores (storing_from first) first key
storing-Stores first = record {
  gets = λ h. refl;
  updates = λ h db. refl;
  updates_status = λ h db. refl;
}

pub given_id : ◌≢◌ {A = String} "deploy-2" ""
unfolding string_dec
given_id = ne_of_test "deploy-2" "" refl

pub storing-Accepting : Accepting storing new_registry (criteria_for fresh)
storing-Accepting h b chosen r = (
  "",
  record { status_code = 200; body = "" },
  record { status = "accepted"; deployment_id = "deploy-2"; message = "" },
  refl,
  refl,
  refl,
  refl,
  refl,
  given_id,
)

pub storing-FinalizerLaws : (first : Database) → FinalizerLaws (storing_from first)
storing-FinalizerLaws first = record {
  contains-add = (answering-FinalizerLaws 200).contains-add;
  contains-remove = (answering-FinalizerLaws 200).contains-remove;
  contains_of_list = (answering-FinalizerLaws 200).contains_of_list;
}

local-Suits : Suits local (criteria_for fresh)
unfolding matches_criteria supports string_dec
local-Suits = (matches_criteria_iff local (criteria_for fresh)).0 refl

stale : (h : History) → needs_refresh new_registry ((discovery_at storing h).clock 0) ≡ true
unfolding needs_refresh sub ◌-ℤ◌
stale h = refl

listed_last : last_with (cache_key local) brokers ≡ some local
unfolding string_dec
listed_last = refl

pub stocked : (h : History) → Available (criteria_for fresh) new_registry (discovery_at storing h)
stocked h = (λ q. absurd (apart (stale h) q), (brokers, refl, (local, listed_last, local-Suits)))
  where
    apart : {b : Bool} → b ≡ true → b ≡ false → ⊥
    apart p q = cc

pub of_acme : (h : History) → resolve_tenant (reader_at storing h) (database fresh) ≡ ok acme
unfolding resolve_tenant resolve_from resolve_step resolve_owner named_tenant owner_of fetch_owner
    fetch_team string_dec
of_acme h = refl

reconciled-Ends_example : Ends fresh fresh (reconciled storing true 2 key started)
reconciled-Ends_example =
    reconciled-Ends storing fresh key new_registry true acme started (storing-Stores fresh)
      (storing-FinalizerLaws fresh) (λ m f. refl) (λ h bs b. (λ i. i, λ i. i)) stocked
      storing-Accepting of_acme refl refl refl

-- The deployed database as its user has deleted it.
abbrev deleted : Database
deleted = record deployed {
  meta = record deployed.meta { deletion_timestamp = some (seconds 900) };
}

storing-Echoes : Echoes storing
storing-Echoes = record {
  whole_kept = λ h db saved q. same q;
  status_kept = λ h db saved q. same q;
}
  where
    same : {a b : Database} → ◌≡◌ {A = Result Database} (ok a) (ok b) → b ≡ a
    same q = cc

reconcile_database-IsAdmitted_example :
    AllWrites IsAdmitted (reconcile_database storing true fresh started).1.calls
reconcile_database-IsAdmitted_example =
    reconcile_database-IsAdmitted storing true acme fresh started storing-Echoes (of_acme [])
      (inl refl) tt
