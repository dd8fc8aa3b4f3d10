-- ===== src/Token.antt =====
-- Session tokens: server/src/db/token-store.ts and server/src/services/jwt.service.ts.
pub mod Store
pub mod Service
pub mod Rotation
pub mod Issue
mod Signer
mod Tests
