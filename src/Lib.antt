-- ===== src/Lib.antt =====
-- Rusi, a sidecar for publishing and subscribing, with its injector and its operator: the Go code under
-- pkg.
--
-- The injector (pkg/injector) is a mutating webhook of Kubernetes: `handleRequest` takes an admission
-- review and answers with a JSON patch that adds the sidecar `rusid` to a pod.
--   Injector/Webhook      handleRequest: `handle_request`, from the body to what is written
--   Injector/Accounts     AllowedControllersServiceAccountUID
--   Injector/PodPatch     getPodPatchOperations: `get_pod_patch_operations`; PodPatch/Apply applies its
--                         operations as RFC 6902 does
--   Injector/Sidecar, Resources, EnvPatch, Annotations, EnvString
--                         the parts of pod_patch.go, and pkg/utils/strings.go
-- The sidecar (pkg/runtime) takes requests by gRPC (pkg/api/runtime/grpc), keeps its components, and
-- passes messages through a pipeline of middlewares to a bus (pkg/messaging).
--   Grpc/Publish, Acks    Publish, and the handler calls of a subscription with the receiver of their
--                         acknowledgements, as a step relation
--   Grpc/Subscriptions    the loops of Subscribe, Refresh and the refresh channels with their lock, as a
--                         step relation
--   Runtime/Handlers      PublishHandler, SubscribeHandler and the subscriber service
--   Runtime/Updates       the watches of configurations and components
--   Runtime/Start         NewRuntime and IsHealthy
--   Runtime/Config        the builder of the configuration
--   Configuration         pkg/custom-resource/configuration, its loader of a file, and the namespace
--   Components            pkg/custom-resource/components; Registry the registries of factories
--   Components/Manager    ComponentsManager: the state as a record, an operation as a function of it
--   Components/Uuid       the loop that fills UUIDs into metadata, which the loader and the operator share
--   Loader                pkg/custom-resource/components/loader/local.go: Split the splitting of a file into
--                         documents, Yaml the loop over a scanner, Yaml/Files the loading of a directory
--   Middleware            pkg/middleware: the middlewares for traces and metrics
--   Diagnostics           WatchConfig of internal/diagnostics and SetTracing of internal/tracing
--   Messaging             the types, the pipeline and the in-memory bus
--   Nats, JetStream       the two buses: the options that are parsed and merged, the subscription, the
--                         delivery; JetStream/Pull the workers that pull messages, as a step relation
--   Healthcheck           the health handler
-- The operator (pkg/operator) passes on the resources of the cluster.
--   Operator/Watcher      objectWatcher: the feeds, their listeners and the lock, as a step relation
--   Operator/Types        the configuration of the operator's API, apis/rusi/v1alpha1
--   Operator/Server       the streams of server.go; Operator/Client the sidecar's watchers of them
-- Prelude has what all share: tests, lists, integers, maps, texts, numbers, paths and errors.
--
-- A map is an association list, an integer of the source a `ℤ` with its range as a hypothesis or with
-- its conversion written out, a text a `String` of characters, an error its message, a nil an `Option`.
-- A loop is structural recursion where it can be. On fuel are the printing of a number, 64 digits, which
-- is enough for every integer of 64 bits; the filling of UUIDs, one round for each opening brace; and the
-- decoding of a file, one round for each byte and three more. Goroutines are steps: a state says what each
-- has left to do, and `Reach` relates the states that the steps connect.
--
-- Libraries of other projects are parameters: the stan and nats clients, JSON, YAML and protocol
-- encoders, UUIDs, the Kubernetes client, the quantities of Kubernetes, OpenTelemetry. So is
-- strconv.Unquote.
-- Not modelled: generated code, start-up and flags, logs, HTTP and gRPC servers.
pub mod Prelude
pub mod Injector
pub mod Messaging
pub mod Nats
pub mod JetStream
pub mod Components
pub mod Diagnostics
pub mod Configuration
pub mod Loader
pub mod Middleware
pub mod Operator
pub mod Runtime
pub mod Grpc
pub mod Healthcheck
pub mod Witnesses
