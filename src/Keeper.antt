-- ===== src/Keeper.antt =====
-- The parts of keeper/src that are modelled.
pub mod Tracker
pub mod Scanner
pub mod Execution
pub mod Ranking
pub mod Accounting
mod Tests
