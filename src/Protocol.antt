-- ===== src/Protocol.antt =====
-- packages/protocol/src: the messages between client and server, and their codec.
pub mod Value
pub mod Messages
pub mod Codec
pub mod Shapes
pub mod ClientFrames
pub mod ServerFrames
pub mod Frames
pub mod RoundTrip
