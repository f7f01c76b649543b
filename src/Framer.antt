-- ===== src/Framer.antt =====
-- wirestead/framer: message framers over a byte stream.
pub mod Search
pub mod Delivery
pub mod LengthPrefix
pub mod Line
pub mod Packet
mod Tests
