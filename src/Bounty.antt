-- ===== src/Bounty.antt =====
-- The bounty board (server/src/db/bounty-store.ts, server/src/services/bounty.service.ts): the rows
-- and the store's queries, and in the other modules what the queries guarantee.
pub mod Types
pub mod Store
pub mod Ops
pub mod Invariant
pub mod Transitions
pub mod Claims
pub mod Request
pub mod Handlers
pub mod Effects
pub mod Settlement
pub mod Requests
pub mod Payouts
pub mod Listing
pub mod Paging
pub mod Refusals
mod Tests
mod RequestTests
