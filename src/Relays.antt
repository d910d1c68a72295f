-- ===== src/Relays.antt =====
-- The relayers that send signed intents to the chain: GovernanceVoteRelayer.js and
-- SupporterSbtRelayer.js.
pub mod Operations
pub mod Capacity
pub mod Governance
pub mod Votes
pub mod Supporters
pub mod Registrations
pub mod Tests
