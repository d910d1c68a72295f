-- ===== src/SignIn.antt =====
-- Wallet challenges of apps/gateway/src/server.js: `createChallenge` and `verifyChallenge`.
pub mod Challenges
pub mod Proofs
pub mod Histories
pub mod Tests
