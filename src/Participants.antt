-- ===== src/Participants.antt =====
-- Participants: applications, invitations and enrollments, which share the participant tables of
-- apps/gateway/src/GatewayStore.js.
pub mod Rows
pub mod Store
pub mod Forms
pub mod Invitations
pub mod Enrollments
pub mod Applications
pub mod Tests
