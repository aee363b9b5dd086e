-- ===== src/TradingBot.antt =====
-- The parts of trading-bot/src that are modelled.
pub mod CircuitBreaker
pub mod PaperExecutor
mod PaperTests
mod Tests
