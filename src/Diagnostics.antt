-- ===== src/Diagnostics.antt =====
-- wirestead/diagnostics: counters.
pub mod Accounting
pub mod Ledger
mod Tests
pub mod Stats
