-- ===== src/Relayer.antt =====
-- The fee-bump relayer (server/src/services/relayer.service.ts), sponsored accounts
-- (server/src/services/sponsorship.service.ts) and their tables
-- (server/src/db/sponsorship-store.ts).
pub mod Store
pub mod Service
pub mod Guards
pub mod Cap
pub mod Sponsor
pub mod Onboard
mod Tests
