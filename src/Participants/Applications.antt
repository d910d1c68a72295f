-- ===== src/Participants/Applications.antt =====
-- apps/gateway/src/ParticipantApplicationService.js.
pub mod View
pub mod Service
pub mod Repeats
pub mod Races
