-- ===== src/Publisher.antt =====
-- apps/api/src/ws/redis-publisher.ts: listeners of Redis channels behind one subscription for each.
pub mod Channels
pub mod Listening
pub mod Delivery
pub mod Races
