-- ===== src/Controller/Database/Orphans.antt =====
-- Where `cleanupDatabase` of internal/controller/database_controller.go goes on without a broker.
use kidp.Prelude.{◌≡◌, ◌≢◌, is_empty, if◌then◌else◌, true, some, none, ◌∷◌, arith}
use kidp.Result.{err, Error, wrapf}
use kidp.Api.Owner.{ObjectReference}
use kidp.Api.Database.{Database}
use kidp.Registry.{Registry, needs_refresh, select_broker, refresh_cache_if_needed, refresh_cache}
use kidp.Client.{Env, Run, update, database}
use kidp.Controller.Database.{
  recorded_broker, found_or_selected, deprovisioning_broker, select_with, criteria_for,
  deprovision_on, cleanup_with, cleanup_database, handle_deletion, with_meta, finalizer_name,
}

module _ (env : Env) (db : Database) (g : Registry) (s : Run) where
  unrecorded :
      (ref : ObjectReference) (x : Error)
      → db.status.broker_ref ≡ some ref
      → env.brokers.get s.calls (record {
        namespace = if is_empty ref.namespace then db.meta.namespace else ref.namespace;
        name = ref.name;
      })
        ≡ err x
      → recorded_broker env db db.status.broker_ref s.calls ≡ none
  unrecorded ref x r q = ground arith

  selects_none :
      (e : Error)
      → needs_refresh g (env.clock s.calls 0) ≡ true
      → env.list_brokers s.calls ≡ err e
      → select_with env g (criteria_for db) s ≡ (
        err (wrapf "failed to refresh broker cache" (wrapf "failed to list brokers" e)),
        record s { registry = some g },
      )
  unfolding select_with select_broker refresh_cache_if_needed refresh_cache
  selects_none e stale failed =
      rw (stale, failed, select_with, select_broker, refresh_cache_if_needed, refresh_cache)

  without_broker :
      (e : Error)
      → recorded_broker env db db.status.broker_ref s.calls ≡ none
      → select_with env g (criteria_for db) s ≡ (err e, record s { registry = some g })
      → deprovisioning_broker env g db s ≡ (none, record s { registry = some g })
  unfolding deprovisioning_broker found_or_selected
  without_broker e r q = rw (r, q, deprovisioning_broker, found_or_selected)

  cleanup_skips :
      s.registry ≡ some g
      → db.status.deployment_id ≢ ""
      → deprovisioning_broker env g db s ≡ (none, record s { registry = some g })
      → cleanup_database env db s ≡ (none, record s { registry = some g })
  unfolding cleanup_database cleanup_with deprovision_on
  cleanup_skips h d q = ground arith

  releases :
      env.contains_finalizer db.meta finalizer_name ≡ true
      → cleanup_database env db s ≡ (none, record s { registry = some g })
      → (handle_deletion env db s).1.calls
        ≡ update (database (with_meta (env.remove_finalizer db.meta finalizer_name) db)) ∷ s.calls
  unfolding handle_deletion
  releases f q = ground arith

-- A deletion gives the deployment up where the API server answers with errors, of whatever kind, to
-- the reading of the recorded broker and to the listing of the brokers for a stale cache: the one
-- thing that the run does is to write the database without its finalizer, and no broker is called.
pub handle_deletion_gives_up :
    (env : Env) (db : Database) (g : Registry) (s : Run) (ref : ObjectReference) (x e : Error)
    → env.contains_finalizer db.meta finalizer_name ≡ true
    → db.status.deployment_id ≢ ""
    → s.registry ≡ some g
    → db.status.broker_ref ≡ some ref
    → env.brokers.get s.calls (record {
      namespace = if is_empty ref.namespace then db.meta.namespace else ref.namespace;
      name = ref.name;
    })
      ≡ err x
    → needs_refresh g (env.clock s.calls 0) ≡ true
    → env.list_brokers s.calls ≡ err e
    → (handle_deletion env db s).1.calls
      ≡ update (database (with_meta (env.remove_finalizer db.meta finalizer_name) db)) ∷ s.calls
handle_deletion_gives_up env db g s ref x e f d h r gone stale failed = releases env db g s f (
    cleanup_skips env db g s h d (
      without_broker env db g s
        (wrapf "failed to refresh broker cache" (wrapf "failed to list brokers" e))
        (unrecorded env db g s ref x r gone) (selects_none env db g s e stale failed)))
