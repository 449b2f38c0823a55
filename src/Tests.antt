-- ===== src/Tests.antt =====
-- Concrete inputs for the theorems.
mod Ratchet
mod RateLimit
mod Protocol
mod Gateway
mod Auth
mod Session
mod Client
mod Stores
mod Outbox
mod Dm
