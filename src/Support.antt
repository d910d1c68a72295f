-- ===== src/Support.antt =====
-- Support of an artist: the intents of apps/gateway/src/server.js.
pub mod Intents
pub mod Tiers
pub mod Histories
pub mod Tests
