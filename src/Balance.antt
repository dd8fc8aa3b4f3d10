-- ===== src/Balance.antt =====
-- The LRN balance projection (server/src/db/scholar-balance-store.ts): the journal of balance events
-- and the running balances beside it.
pub mod Store
pub mod Journal
pub mod Projection
pub mod Rebuild
mod Tests
