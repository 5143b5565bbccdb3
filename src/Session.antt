-- ===== src/Session.antt =====
-- internal/session: one client's session, its queues, and the manager of all sessions.
pub mod Ordering
pub mod Heap
pub mod Queue
pub mod State
pub mod Send
pub mod Manager
