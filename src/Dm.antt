-- ===== src/Dm.antt =====
-- apps/web/src/features/dm: direct messages over the sessions, the outbox and the local tables.
pub mod Wire
pub mod Tables
pub mod Controller
pub mod Exchange
pub mod Retry
