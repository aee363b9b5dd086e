-- ===== src/Settlement.antt =====
-- The settlement of trades, api/src/settlement/pipeline.ts.
pub mod Retry
pub mod Pipeline
mod Tests
