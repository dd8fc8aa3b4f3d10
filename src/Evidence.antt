-- ===== src/Evidence.antt =====
-- The check of GitHub evidence, server/src/services/github-oracle.service.ts.
pub mod Url
pub mod Oracle
pub mod Checks
mod Tests
