-- ===== src/BrokerServer/Discovery.antt =====
-- The document with which `handleRoot` of cmd/broker/main.go describes the broker's API.
use kidp.Prelude.{String, ◌==◌, if◌then◌else◌, Bool, true, not}
use kidp.Prelude.{Option, none, some, [], ◌∷◌}
use kidp.Json.{Json, bool, text, texts, map_of}
use kidp.BrokerServer.{Process, Reply, plain, json, document}

abbrev health_entry : Json
health_entry = map_of (
    ("method", text "GET")
    ∷ ("path", text "/health")
    ∷ ("description", text "Returns broker service health status")
    ∷ ("response", map_of (("status", text "healthy") ∷ ("version", text "0.1.0") ∷ []))
    ∷ [])

abbrev readiness_entry : Json
readiness_entry = map_of (
    ("method", text "GET")
    ∷ ("path", text "/readiness")
    ∷ ("description", text "Checks broker readiness (includes Kubernetes API connectivity)")
    ∷ ("response", map_of (("ready", bool true) ∷ ("reason", text "ok") ∷ []))
    ∷ [])

abbrev provision_entry : Json
provision_entry = map_of (
    ("method", text "POST")
    ∷ ("path", text "/v1/provision")
    ∷ ("description", text "Provision a new resource in the target Kubernetes cluster")
    ∷ ("contentType", text "application/json")
    ∷ (
      "request",
      map_of (
          ("resourceType", text "database")
          ∷ ("resourceName", text "my-db")
          ∷ ("namespace", text "team-platform")
          ∷ ("team", text "platform-team")
          ∷ ("owner", text "user@example.com")
          ∷ ("callbackUrl", text "http://manager:9090/v1/callback")
          ∷ (
            "spec",
            map_of (
                ("engine", text "postgresql")
                ∷ ("version", text "15")
                ∷ ("size", text "medium")
                ∷ []),
          )
          ∷ []),
    )
    ∷ (
      "response",
      map_of (
          ("status", text "accepted")
          ∷ ("deploymentId", text "deploy-abc123")
          ∷ ("message", text "Provisioning request accepted")
          ∷ []),
    )
    ∷ [])

abbrev deprovision_entry : Json
deprovision_entry = map_of (
    ("method", text "POST")
    ∷ ("path", text "/v1/deprovision")
    ∷ ("description", text "Deprovision an existing resource")
    ∷ ("contentType", text "application/json")
    ∷ (
      "request",
      map_of (
          ("deploymentId", text "deploy-abc123")
          ∷ ("resourceType", text "database")
          ∷ ("resourceName", text "my-db")
          ∷ ("namespace", text "team-platform")
          ∷ ("callbackUrl", text "http://manager:9090/v1/callback")
          ∷ []),
    )
    ∷ (
      "response",
      map_of
          (("status", text "accepted") ∷ ("message", text "Deprovisioning request accepted") ∷ []),
    )
    ∷ [])

abbrev status_entry : Json
status_entry = map_of (
    ("method", text "GET")
    ∷ ("path", text "/v1/status")
    ∷ ("description", text "Get the status of a specific deployment")
    ∷ ("parameters", map_of (("id", text "deploymentId (required)") ∷ []))
    ∷ ("example", text "/v1/status?id=deploy-abc123")
    ∷ ("response", map_of (("deploymentId", text "deploy-abc123") ∷ ("phase", text "Ready") ∷ []))
    ∷ [])

abbrev resources_entry : Json
resources_entry = map_of (
    ("methods", texts ("GET" ∷ "POST" ∷ []))
    ∷ ("path", text "/v1/resources")
    ∷ ("description", text "Query actual state of resources for drift detection")
    ∷ (
      "parameters",
      map_of (
          ("namespace", text "namespace (required)")
          ∷ ("resourceType", text "filter by type (optional)")
          ∷ ("resourceName", text "filter by name (optional)")
          ∷ ("deploymentId", text "filter by deployment (optional)")
          ∷ []),
    )
    ∷ ("example", text "/v1/resources?namespace=team-platform&resourceType=database")
    ∷ (
      "features",
      texts ("drift-detection" ∷ "health-status" ∷ "resource-usage" ∷ "cost-tracking" ∷ []),
    )
    ∷ [])

-- The endpoints with their details.
abbrev pub endpoints : Json
endpoints = map_of (
    ("health", health_entry)
    ∷ ("readiness", readiness_entry)
    ∷ ("provision", provision_entry)
    ∷ ("deprovision", deprovision_entry)
    ∷ ("status", status_entry)
    ∷ ("resources", resources_entry)
    ∷ [])

abbrev link : String → String → Json
link href method = map_of (("href", text href) ∷ ("method", text method) ∷ [])

abbrev pub links : Json
links = map_of (
    ("self", link "/" "GET")
    ∷ ("health", link "/health" "GET")
    ∷ ("readiness", link "/readiness" "GET")
    ∷ ("provision", link "/v1/provision" "POST")
    ∷ ("deprovision", link "/v1/deprovision" "POST")
    ∷ ("resources", map_of (("href", text "/v1/resources") ∷ ("methods", text "GET, POST") ∷ []))
    ∷ [])

abbrev capabilities_entry : Json
capabilities_entry = map_of (
    ("resourceTypes", texts ("database" ∷ "cache" ∷ "queue" ∷ []))
    ∷ ("databases", texts ("postgresql" ∷ "mysql" ∷ "mongodb" ∷ "redis" ∷ []))
    ∷ ("features", texts ("drift-detection" ∷ "async-provisioning" ∷ "health-monitoring" ∷ []))
    ∷ [])

abbrev is_some : {A : Type 0} → Option A → Bool
is_some none = not true
is_some (some x) = true

module _ (p : Process) where
  abbrev pub root_document : Json
  root_document = map_of (
      ("service", text "KIDP Deployment Broker")
      ∷ (
        "description",
        text "Stateless broker for provisioning and managing resources in Kubernetes clusters",
      )
      ∷ ("version", text p.version)
      ∷ ("status", text "running")
      ∷ ("documentation", text "https://github.com/aykay76/kidp/blob/master/docs/BROKER_API.md")
      ∷ ("repository", text "https://github.com/aykay76/kidp")
      ∷ ("support", text "https://github.com/aykay76/kidp/issues")
      ∷ ("capabilities", capabilities_entry)
      ∷ ("endpoints", endpoints)
      ∷ ("_links", links)
      ∷ (
        "api",
        map_of (
            ("version", text "v1")
            ∷ ("minApiVersion", text "v1")
            ∷ ("deprecatedApis", texts [])
            ∷ []),
      )
      ∷ (
        "runtime",
        map_of (
            ("uptime", text (p.duration_text p.uptime))
            ∷ ("kubernetesConnected", bool (is_some p.namespace_listing))
            ∷ []),
      )
      ∷ [])

  -- `http.NotFound` for any path but the root's.
  unfoldable pub handle_root : String → Reply
  handle_root path =
      if not (path == "/")
      then plain 404 "404 page not found"
      else json 200 (document root_document)
