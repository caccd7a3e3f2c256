-- ===== src/Wire.antt =====
-- internal/wire: the two framings and the packet layout.
pub mod Stream
pub mod Body
pub mod Frame
pub mod Packet
pub mod Message
mod Tests
