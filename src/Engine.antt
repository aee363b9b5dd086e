-- ===== src/Engine.antt =====
-- The matching engine, api/src/engine/matching.ts: `Queue` is the FIFO of one price level, `Book`
-- the two sides with their index, `Matching` the engine over the book.
pub mod Queue
pub mod Book
pub mod Matching
mod Tests
