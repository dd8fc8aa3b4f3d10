-- ===== src/Escrow.antt =====
-- Escrow timeouts: server/src/services/escrow-timeout.service.ts.
pub mod Store
pub mod Status
pub mod Row
pub mod Pass
pub mod Deadlines
mod Tests
pub mod Reminders
pub mod Spare
pub mod Once
