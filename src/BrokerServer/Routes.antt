-- ===== src/BrokerServer/Routes.antt =====
-- `registerRoutes` of cmd/broker/main.go, and what the document of `handleRoot` says of the routes.
-- The multiplexer of net/http is a parameter: the registered pattern, if any, that takes a path.
use kidp.Prelude.{
  String, string_dec, ◌==◌, ◌≡◌, ◌≢◌, ◌↔◌, refl, ap, inl, inr, sym, subst, ◌∙◌, if◌then◌else◌,
}
use kidp.Prelude.{Option, none, some, List, [], ◌∷◌, ◌++◌, In, any, arith}
use kidp.Json.{Json, text, array, object, null, Items, nil, item, Fields, end, field}
use kidp.BrokerServer.{Process, Query, Reply, status_of}
use kidp.BrokerServer.{handle_health, handle_readiness, handle_provision, handle_deprovision}
use kidp.BrokerServer.{handle_status, handle_get_resources}
use kidp.BrokerServer.Discovery.{root_document, handle_root}

abbrev pub Mux : Type 0
Mux = List String → String → Option String

-- As net/http documents: of the patterns that match, the most specific one takes a request.
abbrev pub MuxLaws : Mux → Type 0
MuxLaws mux =
    (patterns : List String) (path : String) → In path patterns → mux patterns path ≡ some path

abbrev pub patterns : List String
patterns =
    "/health" ∷ "/readiness" ∷ "/v1/provision" ∷ "/v1/deprovision" ∷ "/v1/status" ∷ "/v1/resources"
    ∷ "/" ∷ []

module _ (p : Process) where
  -- The handler that is registered for a pattern.
  unfoldable pub handler : String → String → Query → Reply
  handler pattern path q =
      if pattern == "/health"
      then handle_health p q
      else if pattern == "/readiness"
      then handle_readiness p q
      else if pattern == "/v1/provision"
      then handle_provision p q
      else if pattern == "/v1/deprovision"
      then handle_deprovision p q
      else if pattern == "/v1/status"
      then handle_status p q
      else if pattern == "/v1/resources"
      then handle_get_resources p q
      else handle_root p path

  module _ (mux : Mux) (unrouted : String → Reply) where
    unfoldable pub serve : String → Query → Reply
    serve path q = elim (mux patterns path) [
      | none ↦ unrouted path
      | some pattern ↦ handler pattern path q
    ]

-- What a reader takes from a document: the value of a field, and the texts that it holds.
abbrev field_of : String → Fields → Json
field_of name end = null
field_of name (field key value rest) = if key == name then value else field_of name rest

abbrev value_of : String → Json → Json
value_of name (object fs) = field_of name fs
value_of name other = null

abbrev item_texts : Items → List String
item_texts nil = []
item_texts (item (text s) rest) = s ∷ item_texts rest
item_texts (item other rest) = item_texts rest

abbrev texts_of : Json → List String
texts_of (text s) = s ∷ []
texts_of (array is) = item_texts is
texts_of other = []

abbrev gather_fields : (Json → List String) → Fields → List String
gather_fields f end = []
gather_fields f (field key value rest) = f value ++ gather_fields f rest

abbrev gather : (Json → List String) → Json → List String
gather f (object fs) = gather_fields f fs
gather f other = []

-- The paths of the documented endpoints.
abbrev pub paths : Json → List String
paths doc = gather (λ e. texts_of (value_of "path" e)) (value_of "endpoints" doc)

-- The methods that are documented for a path.
abbrev pub methods_at : String → Json → List String
methods_at path doc =
    gather
      (λ e.
        if any (λ s. s == path) (texts_of (value_of "path" e))
        then texts_of (value_of "method" e) ++ texts_of (value_of "methods" e)
        else [])
      (value_of "endpoints" doc)

-- Where the document's links lead.
abbrev pub hrefs : Json → List String
hrefs doc = gather (λ e. texts_of (value_of "href" e)) (value_of "_links" doc)

-- Not "not found", and "method not allowed" for just the other methods.
abbrev pub Answers : List String → String → Reply → Type 0
Answers methods method reply =
    (status_of reply ≢ 404) × ((status_of reply ≡ 405) ↔ ¬ In method methods)

module _ (p : Process) (q : Query) where
  handle_health-Answers : Answers ("GET" ∷ []) q.method (handle_health p q)
  unfolding handle_health
  handle_health-Answers = (λ h. ground arith, (λ h. ground arith, λ h. ground arith))

  handle_readiness-Answers : Answers ("GET" ∷ []) q.method (handle_readiness p q)
  unfolding handle_readiness
  handle_readiness-Answers = (λ h. ground arith, (λ h. ground arith, λ h. ground arith))

  handle_provision-Answers : Answers ("POST" ∷ []) q.method (handle_provision p q)
  unfolding handle_provision
  handle_provision-Answers = (λ h. ground arith, (λ h. ground arith, λ h. ground arith))

  handle_deprovision-Answers : Answers ("POST" ∷ []) q.method (handle_deprovision p q)
  unfolding handle_deprovision
  handle_deprovision-Answers = (λ h. ground arith, (λ h. ground arith, λ h. ground arith))

  handle_status-Answers : Answers ("GET" ∷ []) q.method (handle_status p q)
  unfolding handle_status
  handle_status-Answers = (λ h. ground arith, (λ h. ground arith, λ h. ground arith))

  handle_get_resources-Answers : Answers ("GET" ∷ "POST" ∷ []) q.method (handle_get_resources p q)
  unfolding handle_get_resources
  handle_get_resources-Answers = (λ h. ground arith, (λ h. ground arith, λ h. ground arith))

module _ (p : Process) (mux : Mux) (unrouted : String → Reply) (laws : MuxLaws mux) where
  pub serve_lem :
      (path : String) (q : Query)
      → In path patterns
      → serve p mux unrouted path q ≡ handler p path path q
  unfolding serve
  serve_lem path q i = rw (laws patterns path i, serve)

  -- A path whose handler and whose documented methods are known.
  served :
      (path : String) (q : Query) (methods : List String) (reply : Reply)
      → In path patterns
      → handler p path path q ≡ reply
      → methods_at path (root_document p) ≡ methods
      → Answers methods q.method reply
      → Answers (methods_at path (root_document p)) q.method (serve p mux unrouted path q)
  served path q methods reply i h m a =
      subst (λ ms. Answers ms q.method (serve p mux unrouted path q)) (sym m)
        (subst (Answers methods q.method) (sym (serve_lem path q i ∙ h)) a)

  abbrev Served : String → Query → Type 0
  Served path q = Answers (methods_at path (root_document p)) q.method (serve p mux unrouted path q)

  moved : {s path : String} (q : Query) → path ≡ s → Served s q → Served path q
  moved q e a = subst (λ x. Served x q) (sym e) a

  endpoint-Served :
      (path : String) (q : Query)
      → In path (
          "/health" ∷ "/readiness" ∷ "/v1/provision" ∷ "/v1/deprovision" ∷ "/v1/status"
          ∷ "/v1/resources" ∷ [])
      → Served path q
  unfolding handler string_dec
  endpoint-Served path q (inl e) = moved q e (
      served "/health" q ("GET" ∷ []) (handle_health p q) (inl refl) refl refl
        (handle_health-Answers p q))
  endpoint-Served path q (inr (inl e)) = moved q e (
      served "/readiness" q ("GET" ∷ []) (handle_readiness p q) (inr (inl refl)) refl refl
        (handle_readiness-Answers p q))
  endpoint-Served path q (inr (inr (inl e))) = moved q e (
      served "/v1/provision" q ("POST" ∷ []) (handle_provision p q) (inr (inr (inl refl))) refl refl
        (handle_provision-Answers p q))
  endpoint-Served path q (inr (inr (inr (inl e)))) = moved q e (
      served "/v1/deprovision" q ("POST" ∷ []) (handle_deprovision p q) (inr (inr (inr (inl refl))))
        refl refl (handle_deprovision-Answers p q))
  endpoint-Served path q (inr (inr (inr (inr (inl e))))) = moved q e (
      served "/v1/status" q ("GET" ∷ []) (handle_status p q) (inr (inr (inr (inr (inl refl))))) refl
        refl (handle_status-Answers p q))
  endpoint-Served path q (inr (inr (inr (inr (inr (inl e)))))) = moved q e (
      served "/v1/resources" q ("GET" ∷ "POST" ∷ []) (handle_get_resources p q)
        (inr (inr (inr (inr (inr (inl refl)))))) refl refl (handle_get_resources-Answers p q))
  endpoint-Served path q (inr (inr (inr (inr (inr (inr none_left)))))) = elim none_left [ ]

  link_found :
      (path : String) (q : Query)
      → In path (
          "/" ∷ "/health" ∷ "/readiness" ∷ "/v1/provision" ∷ "/v1/deprovision" ∷ "/v1/resources"
          ∷ [])
      → status_of (serve p mux unrouted path q) ≢ 404
  unfolding handler handle_root string_dec
  link_found path q (inl e) h =
      root_found (sym (ap (λ x. status_of (serve p mux unrouted x q)) e) ∙ h)
    where
      root_found : status_of (serve p mux unrouted "/" q) ≢ 404
      root_found h = omega (
        arith,
        sym (ap status_of (serve_lem "/" q (inr (inr (inr (inr (inr (inr (inl refl))))))))) ∙ h,
      )
  link_found path q (inr i) h = (endpoint-Served path q (widened i)).0 h
    where
      widened :
          In path
            ("/health" ∷ "/readiness" ∷ "/v1/provision" ∷ "/v1/deprovision" ∷ "/v1/resources" ∷ [])
          → In path (
              "/health" ∷ "/readiness" ∷ "/v1/provision" ∷ "/v1/deprovision" ∷ "/v1/status"
              ∷ "/v1/resources" ∷ [])
      widened i = ground arith

-- The document that the broker gives out of itself is right about its routes, where the multiplexer
-- takes a registered path to its own handler: at each documented path a request is answered with
-- 405 exactly if its method is not documented there, never with 404, and no link of the document
-- leads to a 404.
pub root_document-Served :
    (p : Process) (mux : Mux) (unrouted : String → Reply) (path : String) (q : Query)
    → MuxLaws mux
    → (In path (paths (root_document p))
        → (status_of (serve p mux unrouted path q) ≢ 404)
          × ((status_of (serve p mux unrouted path q) ≡ 405)
              ↔ ¬ In q.method (methods_at path (root_document p))))
      × (In path (hrefs (root_document p)) → status_of (serve p mux unrouted path q) ≢ 404)
unfolding string_dec
root_document-Served p mux unrouted path q laws =
    (endpoint-Served p mux unrouted laws path q, link_found p mux unrouted laws path q)
