-- ===== src/Memory.antt =====
-- wirestead/memory: buffers.
pub mod Pool
pub mod Pooled
