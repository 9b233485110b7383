-- ===== src/Webhook/Serving.antt =====
-- `Start` of internal/webhook/server.go: the routes of the manager's endpoint for callbacks. The
-- multiplexer of net/http is a parameter: the registered pattern, if any, that takes a path.
use kidp.Prelude.{
  String, ◌==◌, ◌≡◌, ◌∙◌, sym, ap, subst, ◌⊎◌, inl, inr, Bool-cases, if◌then◌else◌, true,
}
use kidp.Prelude.{Option, none, some, List, [], ◌∷◌, Option-cases, arith}
use kidp.Api.Database.{Database}
use kidp.Callbacks.{CallbackRequest, Codec}
use kidp.Client.{Env, Run, Exec, Call, pure, update_status, database}
use kidp.Webhook.{Incoming, Response, updated, route, handle_callback, handle_health}
use kidp.Webhook.Admission.{Admitted, handle_callback_admits}
use kidp.Webhook.Effects.{Finds, handle_database_callback-Finds}

abbrev pub callback_patterns : List String
callback_patterns = "/v1/callback" ∷ "/health" ∷ []

module _ (env : Env) (codec : Codec) (mux : List String → String → Option String)
    (unrouted : String → Response) where
  unfoldable pub serve : String → Incoming → Exec Response
  serve path req = elim (mux callback_patterns path) [
    | none ↦ pure (unrouted path)
    | some pattern ↦
        if pattern == "/v1/callback" then handle_callback env codec req else pure handle_health
  ]

module _ (env : Env) (codec : Codec) (req : Incoming) (s : Run) where
  -- The one write that there may be, as a step from the state `s` to the history `calls`.
  abbrev pub Writes : List Call → Type 0
  Writes calls =
      (callback : CallbackRequest) × (db : Database) × Admitted env codec req callback s
      × (callback.resource_type ≡ "database")
      × Finds env callback s db
      × (calls ≡ update_status (database (updated callback db)) ∷ s.calls)

  route-Writes :
      (callback : CallbackRequest)
      → Admitted env codec req callback s
      → ((route env codec req callback s).1.calls ≡ s.calls)
        ⊎ Writes (route env codec req callback s).1.calls
  unfolding route
  route-Writes callback a = elim (Bool-cases (callback.resource_type == "database")) [
    | inr other ↦ inl (ground arith)
    | inl typed ↦ elim (handle_database_callback-Finds env callback s) [
      | inr (n, same, f) ↦ inl (ground arith)
      | inl (db, found, (written, accepted)) ↦
          inr (callback, db, a, ground arith, found, ground arith)
    ]
  ]

  handle_callback-Writes :
      ((handle_callback env codec req s).1.calls ≡ s.calls)
      ⊎ Writes (handle_callback env codec req s).1.calls
  handle_callback-Writes = elim (handle_callback_admits env codec req s) [
    | inl (callback, a, q) ↦
        subst (λ (r : Response × Run). (r.1.calls ≡ s.calls) ⊎ Writes r.1.calls) (sym q)
          (route-Writes callback a)
    | inr (n, (same, refused)) ↦ inl (ap (λ x. x.calls) same)
  ]

-- Whatever arrives at the manager's endpoint, at any path: it leaves everything as it was, or it is
-- an admitted callback about a database at the path of the callbacks, and the one thing written is
-- the status of the first database of the callback's namespace with the callback's deployment.
pub serve-Writes :
    (env : Env) (codec : Codec) (mux : List String → String → Option String)
    (unrouted : String → Response) (path : String) (req : Incoming) (s : Run)
    → ((serve env codec mux unrouted path req s).1.calls ≡ s.calls)
      ⊎ ((mux callback_patterns path ≡ some "/v1/callback")
          × Writes env codec req s (serve env codec mux unrouted path req s).1.calls)
unfolding serve
serve-Writes env codec mux unrouted path req s = elim (Option-cases (mux callback_patterns path)) [
  | inl q ↦ inl (ground arith)
  | inr (pattern, q) ↦ elim (Bool-cases (pattern == "/v1/callback")) [
    | inr other ↦ inl (ground arith)
    | inl is ↦
        let same = runs pattern q is in
        elim (handle_callback-Writes env codec req s) [
          | inl kept ↦ inl (ap (λ (r : Response × Run). r.1.calls) same ∙ kept)
          | inr w ↦ inr (
            ground arith,
            subst (λ (r : Response × Run). Writes env codec req s r.1.calls) (sym same) w,
          )
        ]
  ]
]
  where
    runs :
        (pattern : String)
        → mux callback_patterns path ≡ some pattern
        → (pattern == "/v1/callback") ≡ true
        → serve env codec mux unrouted path req s ≡ handle_callback env codec req s
    runs pattern q is = ground arith
