-- ===== src/Gateway.antt =====
-- apps/api/src/ws/gateway.ts: the WebSocket gateway, from a decoded frame to what it stores, sends
-- and publishes.
pub mod State
pub mod Envelopes
pub mod Rooms
pub mod Hello
pub mod Dispatch
pub mod Connection
pub mod Outcome
pub mod Ledger
pub mod Retry
pub mod Reply
pub mod Handshake
pub mod Senders
pub mod Access
pub mod Listed
pub mod Lifetime
pub mod Push
pub mod Inbox
