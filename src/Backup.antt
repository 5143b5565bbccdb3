-- ===== src/Backup.antt =====
-- internal/backup: the hot standby of the gateway.
pub mod Records
pub mod Validator
pub mod Heartbeat
pub mod Sync
pub mod Receiver
pub mod Failover
pub mod Standby
mod Tests
