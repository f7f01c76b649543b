-- ===== src/Transport.antt =====
-- wirestead/transport: the write side that the stream transports share.
pub mod Reservation
pub mod Gather
pub mod Backpressure
pub mod Reconnect
pub mod Session
mod Tests
