-- ===== src/Lib.antt =====
-- The verification library of kidp, the platform of Kubernetes controllers that provision databases
-- through brokers.
--
-- The program. The manager runs one reconciler for each custom resource (Tenant, Team,
-- Application, Database, Broker). The database reconciler finds the tenant of a database with the
-- tenant resolver, selects a broker with the broker registry and calls the broker over HTTP. The
-- broker reconciler checks the brokers' health and writes the phase that the registry goes by. A
-- broker answers requests for provisioning and reports back to the manager's webhook server with
-- signed callbacks, which set the status of a database.
--
-- The files.
--   Api                 the structs of api/v1, field by field
--   DeepCopy            api/v1/zz_generated.deepcopy.go: DeepCopyInto, DeepCopy and DeepCopyObject
--   Result, Time, Json  Go's errors, durations and untyped JSON values
--   Registry            pkg/brokerregistry/registry.go: Registry, SelectBroker, matchesCriteria,
--                       selectBest, calculateScore, RefreshCache
--   Client              what the reconcilers reach outside of themselves, and how a run is written
--   Status              internal/controller/status.go: UpdateStatusWithFallback
--   Resolver            internal/controller/tenantresolver.go: ResolveTenant
--   BrokerClient, BrokerCalls   pkg/brokerclient/client.go: Provision, Deprovision, Ping
--   Controller          internal/controller: Database, Team, Application, Tenant and Broker, each
--                       with Reconcile and its handlers
--   Callbacks           CallbackRequest of pkg/broker/models.go, and the codecs both sides use
--   Webhook             internal/webhook/server.go: handleCallback, handleDatabaseCallback,
--                       verifySignature, Start
--   Notify              pkg/broker/callback.go: NotifyStatus, its convenience methods, signCallback
--   BrokerModels, BrokerServer   cmd/broker/main.go: the routes and the handlers, with the structs of
--                       pkg/broker/models.go and their Validate
--   BrokerStart         cmd/broker/main.go: main with the flags, the key and its registration, and
--                       the threads of its server; pkg/broker/k8s.go: NewK8sClient
--   ManagerStart        cmd/manager/main.go: the flags, the set-up of the reconcilers, the two threads
--   Provisioning        the reconciler, a broker and the webhook server together
--   Tests               the theorems at concrete inputs
-- The names are the source's in another spelling: `handleDeletion` is `handle_deletion`.
--
-- The model. A reconciler is a function from the state of a run to its outcome and the next state.
-- The state of a run is the list of all requests that it has made so far, newest first, and the
-- registry. The API server, the brokers, the clock and the Go and Kubernetes libraries are the
-- record `Env` (for a broker's process `Site`, `Host` and `Process`, for the manager's start `Setup`,
-- for signatures and encodings `Codec`, for the copies of embedded Kubernetes types `Machinery`):
-- each answer may depend on all requests made before it, so that a theorem for every `Env` holds
-- for whatever other parties do between the requests of the run. Two reads without a write between
-- them see the same snapshot. What theorems ask of a library stands in a record beside it
-- (`FinalizerLaws`, `IsIeee`, `CodecLaws`) with an instance in Tests. Numbers of `int32` and `int64`
-- stand as integers, a duration as its nanoseconds, and the saturation of `Time.Sub` and the
-- wrap-around of the backoff are written out. A handler that the source writes in one piece is a
-- chain of functions, one for each point at which it may return.
--
-- Where the order of what happens matters, it is a step relation: the turns of concurrent calls of
-- the registry (`Registry.Callers`), the changes of a database over its life by reconciliations,
-- callbacks and its users (`Controller.Database.Lifecycle`), those of a suspended team
-- (`Controller.Team.Suspension`), and the two threads of the manager (`ManagerStart`), of its
-- webhook server (`Webhook.Listening`) and of the broker (`BrokerStart.Life`). Reconciliations that ask to be run again are a function of several runs
-- (`Controller.Database.Liveness`). Where an order does not matter, as that of the brokers in the
-- registry's map, the abstract view is a quotient (`Registry.Unordered`).
--
-- The deep copies are about memory and have structs of their own (`HeapDatabase` and so on): there a
-- pointer, a slice or a map is nil or an address with what is stored at it, and each allocation takes
-- the next address. Elsewhere a struct stands for its contents.
--
-- Bounds and fuel. `resolve_from` counts down the seven levels that `maxDepth` leaves (depths 0 to
-- 6), and ends with the source's own error at none. `notify_loop` counts down the three attempts of
-- `NewCallbackClient`. `reconciled` is given two more runs after the first,
-- one for the finalizer and one for the label.
-- Every other loop is over a list. The scores of brokers stay below 2^53, where
-- float64 sums are numbers, if priorities and counts are `int32` values.
--
-- Not modelled. Log lines; the parsing of the command line; how the two servers listen and shut
-- down, and how net/http's multiplexer matches paths, which is a parameter; the registration of the
-- API group. The fields of `ObjectMeta` that the program never touches are left out, but for the
-- deep copies, where its copy is the library's.
pub mod Prelude
pub mod Api
pub mod DeepCopy
pub mod Result
pub mod Time
pub mod Registry
pub mod Client
pub mod Status
pub mod Resolver
pub mod Json
pub mod BrokerClient
pub mod BrokerCalls
pub mod Callbacks
pub mod BrokerServer
pub mod Notify
pub mod BrokerModels
pub mod BrokerStart
pub mod ManagerStart
pub mod Provisioning
pub mod Webhook
pub mod Controller
pub mod Tests
