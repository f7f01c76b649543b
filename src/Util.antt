-- ===== src/Util.antt =====
-- wirestead/util: checks of what an application passes in.
pub mod Hostname
