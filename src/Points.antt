-- ===== src/Points.antt =====
-- The points of the trading campaign, api/src/points/engine.ts.
pub mod Campaign
pub mod Ledger
pub mod Runs
mod Tests
