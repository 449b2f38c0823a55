-- ===== src/Session.antt =====
-- The keys of a device and the sessions that they open: packages/crypto/src/{identity,prekeys,session}.ts,
-- and the stores of apps/web that they stand on.
pub mod Identity
pub mod X3dh
pub mod Agreement
pub mod PreKeys
pub mod Minting
pub mod Dexie
pub mod Stored
pub mod Upkeep
pub mod Retries
