-- ===== src/Referral.antt =====
-- The referral program (server/src/controllers/referral.controller.ts, and the qualification of
-- server/src/controllers/admin-milestones.controller.ts): codes, claims, rewards.
pub mod Store
pub mod Handlers
pub mod Paid
pub mod Rewards
pub mod Codes
mod Tests
