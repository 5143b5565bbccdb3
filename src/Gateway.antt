-- ===== src/Gateway.antt =====
-- internal/gateway: the server.
pub mod Overload
pub mod Sender
pub mod Router
pub mod Server
pub mod Notifies
pub mod Async
pub mod Handlers
pub mod Unicast
pub mod Dispatch
pub mod Connection
mod Tests
