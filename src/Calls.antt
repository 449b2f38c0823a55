-- ===== src/Calls.antt =====
-- apps/web/src/features/calls/signaling.ts: call signals over the ratchet sessions.
pub mod Fingerprint
pub mod Inner
pub mod Signaling
pub mod Binding
pub mod Guard
pub mod Arrival
