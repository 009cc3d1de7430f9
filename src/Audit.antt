-- ===== src/Audit.antt =====
-- apps/audit-service: the append-only audit log with its hash chain.
pub mod Models
pub mod Ingest
pub mod Chain
pub mod History
pub mod Redelivery
pub mod Tamper
pub mod Fork
pub mod Search
pub mod Handlers
pub mod Relay
mod Tests
