-- ===== src/Upstream.antt =====
-- internal/upstream: the services behind the gateway.
pub mod Services
pub mod Clients
