-- ===== src/Dataplane.antt =====
-- The data plane: internal/dataplane/server.go.
pub mod Breaker
pub mod Paths
pub mod Routing
pub mod Pool
pub mod Retry
pub mod Compile
pub mod Listener
pub mod Certificates
pub mod Headers
pub mod Handler
pub mod Director
pub mod InFlight
