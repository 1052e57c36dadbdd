-- ===== src/Broker.antt =====
-- The life of the broker process: internal/broker/broker.go over the servers of
-- internal/grpcserver/server.go and internal/httpserver/server.go.
pub mod Servers
pub mod Lifecycle
pub mod Steps
pub mod Invariant
pub mod Distance
pub mod Drain
