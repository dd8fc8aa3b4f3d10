-- ===== src/Dispute.antt =====
-- The read model of milestone arbitration (server/src/db/dispute-store.ts).
pub mod Store
pub mod Reveal
pub mod Replay
mod Tests
