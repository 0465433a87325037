-- ===== src/Lib.antt =====
-- A model of go-serve, a reverse proxy with an admin API, in Go.
--
-- A configuration (internal/config) describes listeners, routes and upstreams. The data plane
-- (internal/dataplane) compiles it to routes and pools and serves requests with them: it admits a
-- request, strips the headers that it trusts, chooses a route, asks the authorizer, chooses an
-- endpoint of the route's pool, and sends the request through a transport that retries; each
-- endpoint has a health flag and a circuit breaker. The runtime manager (internal/runtime) replaces
-- the configuration of a running data plane. The control plane (internal/controlplane) keeps the
-- versions of the configuration, and activates a new one or the one before through the manager; its
-- other endpoints show the program and change the cluster. The authorizer is internal/auth, with
-- tokens and sessions, which also protects the control plane. The metrics (internal/observability)
-- count requests. Nodes of a cluster (internal/cluster) share by Raft which node serves which client,
-- and forward requests by it. cmd/server/main.go puts these together and shuts them down.
--
-- Files, and the code that each one is about:
--   * Config: the structs of internal/config/config.go; Config/Validate: Default, Validate and
--     ParseTOML; Config/Load: LoadFile; Config/Clone: Clone; Config/Valid: the conditions in words.
--   * Dataplane/Breaker: circuitBreaker of internal/dataplane/server.go; Breaker/Phases: its
--     contract. Dataplane/Paths: pathMatches, normalizeHost, joinURLPath. Dataplane/Routing: match.
--     Dataplane/Pool: upstreamPool with pick and checkHealth. Dataplane/Retry: RoundTrip.
--     Dataplane/Compile: Reconfigure and ReconfigureWithAuthorizer; Compile/Guarded: its routes that
--     ask for an authorizer. Dataplane/Headers and Dataplane/Handler: stripTrustedHeaders,
--     applyRouteHeaders and Handler. Dataplane/Director: newProxy and joinProxyPath, from the pick of
--     an endpoint to what was sent. Dataplane/InFlight: maxInFlight over several requests.
--     Dataplane/Listener: LimitListener. Dataplane/Certificates: the
--     certificateLoader of internal/dataplane/tls.go.
--   * Runtime: Manager of internal/runtime/manager.go.
--   * ControlPlane: the handlers of internal/controlplane/server.go on the configuration;
--     ControlPlane/Version: requireVersionLocked and etag; ControlPlane/Cluster: the endpoints over
--     ClusterController; ControlPlane/Endpoints: the table of Handler and the other endpoints.
--   * Auth: Authorize, login and callback of internal/auth/auth.go; Auth/Granting: who passes;
--     Auth/Login: the state of a login; Auth/Session: sealSession and openSession; Auth/Protect:
--     Handler, Protect and the answers; Auth/Creation: New; Auth/Verifier: oidcVerifier.
--   * Cluster: Apply, Assignment, assignmentFor, Proxy and leadershipLoop of internal/cluster/node.go;
--     Cluster/Replicas: the log; Cluster/Snapshots: Snapshot, Persist and Restore; Cluster/Sticky:
--     where a client goes; Cluster/Forwarding: clientKey, Assign and forward;
--     Cluster/Membership: the node as ClusterController; Cluster/Joining: clusterHandler and
--     joinLoop; Cluster/Creation: New; Cluster/Leadership and Cluster/Hooks: the hooks of the leader.
--   * Observability: Metrics of internal/observability/metrics.go; Observability/Signals: the signals
--     of a request; Observability/Writer: statusWriter; Observability/Exposed: Endpoint.
--   * Entry: main of cmd/server/main.go; Entry/Built: what it starts from; Entry/System: the running
--     program under its admin API; Entry/Guarded: what every reachable state keeps; Entry/Requests:
--     the public listener; Entry/Counting: what is counted of a request; Entry/Control: the control
--     plane's listener with its layers; Entry/Shutdown: the goroutines that serve and shut down.
--   * Common: strings, slices, integers, maps and results. Examples: concrete runs.
--
-- How the code is represented: a method under a mutex is one step from the state to the state and the
-- result; an atomic counter wraps at 2^64. A string is the list of its bytes, an int or a duration
-- is an ℤ, a map an association list, an error a value of a type with one constructor for each
-- message. The time, the answers of the network, the files, url.Parse, toml.Decode, the JSON codecs,
-- http.CanonicalHeaderKey, the cipher and the FNV hash are arguments. Raft is an interface, with its
-- documented laws as a record; the library's servers stop, its client refuses requests and its
-- reverse proxy removes headers as net/http documents, and JSON keeps texts that are valid UTF-8. Case mapping and
-- white space are those of ASCII. The goroutines of a shutdown, the connections of the listener and
-- the requests to the admin API are steps of a relation, in any order.
--
-- Bounds: the retry loop runs on the fuel attempts + 1, and its theorem shows that this is enough;
-- the loop of `pick` runs once for each endpoint; printing a number takes the number plus one as
-- fuel for its digits. A breaker counts its failures below 2^63, which one failure in each
-- nanosecond reaches after 292 years. The loops that run until a context ends are taken over the
-- rounds that they get.
--
-- Not modelled: of authentication, the exchange with the provider and the cipher; of the cluster,
-- Raft itself and the bodies that are forwarded; of the data plane, the library's transports, the
-- limit on a body, and steps of other requests between those of one `pick`, whose counters and flags
-- are atomics; of the two HTTP servers, their time-outs and what they do with a connection; the text
-- of the metrics, of the documents and of the log.
pub mod Common
pub mod Auth
pub mod Cluster
pub mod Config
pub mod Dataplane
pub mod Runtime
pub mod ControlPlane
pub mod Observability
pub mod Entry
pub mod Examples
