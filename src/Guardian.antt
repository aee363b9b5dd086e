-- ===== src/Guardian.antt =====
-- The risk guardian, risk-guardian/src/index.ts.
pub mod Defense
pub mod Routes
pub mod Terms
pub mod Growth
pub mod Emergency
pub mod Consent
mod Tests
