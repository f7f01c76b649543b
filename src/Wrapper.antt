-- ===== src/Wrapper.antt =====
-- wirestead/wrapper: what the wrappers share.
pub mod Receive
pub mod Send
