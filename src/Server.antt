-- ===== src/Server.antt =====
-- The parts of api/src/ws/server.ts that are modelled.
pub mod RateLimiter
pub mod Messages
pub mod Sessions
pub mod Requests
pub mod Orders
pub mod Acceptance
pub mod Soundness
pub mod Service
pub mod Unsettled
pub mod Access
pub mod Rights
pub mod Channels
mod Tests
