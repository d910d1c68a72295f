-- ===== src/Participants/Store.antt =====
-- The statements of apps/gateway/src/GatewayStore.js on the participant tables.
pub mod Invitations
pub mod Applications
pub mod Enrollments
