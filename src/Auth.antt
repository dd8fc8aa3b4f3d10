-- ===== src/Auth.antt =====
-- Sign-in by a signed nonce (server/src/services/auth.service.ts, server/src/db/nonce-store.ts).
pub mod Nonce
pub mod Service
pub mod Verify
pub mod Once
mod Tests
