-- ===== src/Indexer.antt =====
-- The LRN balance indexer (server/src/services/scholar-balance-indexer.service.ts) with the decoding of
-- its events (server/src/lib/lrn-events.ts).
pub mod Decode
pub mod Published
pub mod Pages
pub mod Whole
pub mod Stream
pub mod Checkpoint
mod Tests
