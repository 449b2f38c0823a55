-- ===== src/Client.antt =====
-- apps/web/src/ws/client.ts: the state machine of the WebSocket client.
pub mod State
pub mod Pending
pub mod Closing
mod Attempts
pub mod Backoff
