-- ===== src/Milestone.antt =====
-- Milestone reports (server/src/db/milestone-store.ts): the in-memory store, the SQL store beside
-- it, and in the other modules what they guarantee.
pub mod Types
pub mod Memory
pub mod Sql
pub mod Invariant
pub mod Agreement
pub mod Calls
pub mod Laws
mod Tests
