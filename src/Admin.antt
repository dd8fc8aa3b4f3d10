-- ===== src/Admin.antt =====
-- The decisions on milestone reports: the handlers of
-- server/src/controllers/admin-milestones.controller.ts, milestone-appeal.controller.ts,
-- milestone-submit.controller.ts and milestone-resubmit.controller.ts beside it, over the stores of
-- Milestone, Escrow, Streak and Referral.
pub mod Desk
pub mod Decisions
pub mod Appeals
pub mod Reports
pub mod Accounts
pub mod Effects
pub mod Quiet
pub mod Guards
pub mod Batch
pub mod Kept
pub mod History
pub mod Oracle
mod Tests
