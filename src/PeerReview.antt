-- ===== src/PeerReview.antt =====
-- Peer reviews of milestone reports: server/src/db/peer-review-store.ts.
pub mod Store
pub mod Submit
pub mod Rewards
mod Tests
pub mod Queue
