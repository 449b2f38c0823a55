-- ===== src/Ratchet.antt =====
-- packages/crypto/src/ratchet.ts: the Double Ratchet.
pub mod State
pub mod Keys
pub mod Skipped
pub mod Chain
pub mod Send
pub mod Receive
pub mod Steps
pub mod Delivery
pub mod AnyOrder
pub mod Sending
pub mod OldChain
pub mod Turns
pub mod Bounds
pub mod Atomicity
pub mod Loss
pub mod Conversation
