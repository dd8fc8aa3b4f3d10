-- ===== src/Streak.antt =====
-- Learning streaks and their bonuses (server/src/services/streak.service.ts).
pub mod Store
pub mod History
pub mod Days
pub mod Bonus
pub mod Week
mod Tests
