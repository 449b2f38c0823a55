-- ===== src/Trust.antt =====
-- apps/web/src/db/repositories/remote-identities.ts: the identity keys of peer devices, trusted on
-- first use.
pub mod Pins
pub mod Keys
pub mod Pinning
