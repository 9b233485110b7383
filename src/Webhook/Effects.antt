-- ===== src/Webhook/Effects.antt =====
-- What an admitted callback does in internal/webhook/server.go.
use kidp.Prelude.{subst, String, ◌≡◌, ◌≢◌, sym, ◌∙◌, ap, ◌↔◌, ◌⊎◌, inl, inr}
use kidp.Prelude.{none, some, Option-cases, List, [], ◌∷◌, find, arith}
use kidp.Result.{ok, Result-cases}
use kidp.Api.Database.{Database}
use kidp.Callbacks.{CallbackRequest, Codec}
use kidp.Client.{Env, Run, database, update_status}
use kidp.Webhook.{Incoming, updated, has_deployment, update_found, handle_database_callback}
use kidp.Webhook.{route, handle_callback}
use kidp.Webhook.Admission.{Admitted, handle_callback_admits}

-- The first database of a listing with the deployment.
abbrev pub First : String → List Database → Database → Type 0
First id [] db = ⊥
First id (x ∷ xs) db =
    ((x.status.deployment_id ≡ id) × (x ≡ db)) ⊎ ((x.status.deployment_id ≢ id) × First id xs db)

pub find_iff_First :
    (id : String) (items : List Database) (db : Database)
    → (find (has_deployment id) items ≡ some db) ↔ First id items db
find_iff_First id [] db = (λ h. cc, λ h. elim h [ ])
find_iff_First id (x ∷ xs) db = ground (arith, find_iff_First id xs db)

module _ (env : Env) (callback : CallbackRequest) (s : Run) where
  abbrev pub Finds : Database → Type 0
  Finds db =
      (items : List Database) × (env.list_databases s.calls callback.namespace ≡ ok items)
      × First callback.deployment_id items db

  -- The status of `db` is the one thing that the handler writes, and the answer tells whether the
  -- API server took it.
  abbrev pub Updates : Database → Type 0
  Updates db =
      ((handle_database_callback env callback s).1.calls
        ≡ update_status (database (updated callback db)) ∷ s.calls)
      × (((handle_database_callback env callback s).0 ≡ none) ↔ (
          (saved : Database) × (env.databases.update_status s.calls (updated callback db)
            ≡ ok saved)))

pub update_found_lem :
    (env : Env) (callback : CallbackRequest) (s : Run) (items : List Database) (db : Database)
    → env.list_databases s.calls callback.namespace ≡ ok items
    → find (has_deployment callback.deployment_id) items ≡ some db
    → Updates env callback s db
unfolding handle_database_callback update_found
update_found_lem env callback s items db e f =
    elim (Result-cases (env.databases.update_status s.calls (updated callback db))) [
      | inl (saved, q) ↦ (ground arith, (λ h. (saved, q), λ h. ground arith))
      | inr (x, q) ↦ (ground arith, (λ h. ground arith, λ h. ground arith))
    ]

-- A database callback writes the status of the first database of the namespace that has the
-- callback's deployment, and succeeds exactly if that write does. Where there is none, or the
-- listing fails, nothing is written and there is an error.
pub handle_database_callback-Finds :
    (env : Env) (callback : CallbackRequest) (s : Run)
    → ((db : Database) × Finds env callback s db × Updates env callback s db)
      ⊎ (¬ ((db : Database) × Finds env callback s db)
          × ((handle_database_callback env callback s).1 ≡ s)
          × ((handle_database_callback env callback s).0 ≢ none))
unfolding handle_database_callback update_found
handle_database_callback-Finds env callback s =
    elim (Result-cases (env.list_databases s.calls callback.namespace)) [
      | inl (items, e) ↦ elim (Option-cases (find (has_deployment callback.deployment_id) items)) [
        | inl f ↦ inr (
          (λ (db, (items', e', i)).
              ground (arith, find_iff_First callback.deployment_id items' db)),
          ground arith,
          ground arith,
        )
        | inr (db, f) ↦ inl (
          db,
          (items, e, (find_iff_First callback.deployment_id items db).0 f),
          update_found_lem env callback s items db e f,
        )
      ]
      | inr (x, e) ↦ inr ((λ (db, (items', e', i)). ground arith), ground arith, ground arith)
    ]

route_accepts :
    (env : Env) (codec : Codec) (req : Incoming) (callback : CallbackRequest) (s : Run)
    → ((route env codec req callback s).0.status ≡ 200) ↔ (
        (callback.resource_type ≡ "database")
        × ((handle_database_callback env callback s).0 ≡ none))
unfolding route
route_accepts env codec req callback s = ground arith

pub Admitted-unique :
    (env : Env) (codec : Codec) (req : Incoming) (c d : CallbackRequest) (s : Run)
    → Admitted env codec req c s
    → Admitted env codec req d s
    → c ≡ d
Admitted-unique env codec req c d s (p, e, _, _, _, _) (q, f, _, _, _, _) = cc

-- A callback is answered with 200 exactly if it is admitted, is about a database, and is handled
-- without an error.
pub handle_callback_accepts_iff :
    (env : Env) (codec : Codec) (req : Incoming) (s : Run)
    → ((handle_callback env codec req s).0.status ≡ 200) ↔ (
        (callback : CallbackRequest) × Admitted env codec req callback s
        × (callback.resource_type ≡ "database")
        × ((handle_database_callback env callback s).0 ≡ none))
handle_callback_accepts_iff env codec req s = elim (handle_callback_admits env codec req s) [
  | inl (callback, a, q) ↦ (
    λ h.
        let (t, n) =
          (route_accepts env codec req callback s).0 (sym (ap (λ r. r.0.status) q) ∙ h) in
        (callback, a, t, n),
    λ (c, b, t, n).
        ap (λ r. r.0.status) q
        ∙ (route_accepts env codec req callback s).1 (
            subst
              (λ x. (x.resource_type ≡ "database") × ((handle_database_callback env x s).0 ≡ none))
              (Admitted-unique env codec req c callback s b a) (t, n)),
  )
  | inr (none_admitted, r) ↦ (λ h. ground arith, λ (c, b, t, n). elim (none_admitted (c, b)) [ ])
]

-- Whatever a callback says, it leaves the specification, the deployment and its broker alone and
-- sets the phase; the endpoint changes only for a success in the phase Ready.
pub updated_keeps :
    (callback : CallbackRequest) (db : Database)
    → ((updated callback db).spec ≡ db.spec)
      × ((updated callback db).status.deployment_id ≡ db.status.deployment_id)
      × ((updated callback db).status.broker_ref ≡ db.status.broker_ref)
      × ((updated callback db).status.phase ≡ callback.phase)
      × (((callback.status ≡ "success") × (callback.phase ≡ "Ready"))
          ⊎ ((updated callback db).status.endpoint ≡ db.status.endpoint))
unfolding updated
updated_keeps callback db = ground arith

-- A callback that names no deployment sets the phase of the first listed database if that one has
-- no deployment yet.
pub handle_database_callback_unnamed :
    (env : Env) (callback : CallbackRequest) (db : Database) (rest : List Database) (s : Run)
    → env.list_databases s.calls callback.namespace ≡ ok (db ∷ rest)
    → db.status.deployment_id ≡ ""
    → callback.deployment_id ≡ ""
    → (w : Database) × ((handle_database_callback env callback s).1.calls
        ≡ update_status (database w) ∷ s.calls)
      × (w.meta ≡ db.meta)
      × (w.status.phase ≡ callback.phase)
unfolding handle_database_callback update_found updated
handle_database_callback_unnamed env callback db rest s listed fresh unnamed =
    (updated callback db, ground arith, ground arith, ground arith)
