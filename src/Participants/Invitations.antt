-- ===== src/Participants/Invitations.antt =====
-- apps/gateway/src/ParticipantInvitationService.js. A handler reads the clock once, at `now`.
-- What it awaits of the mailer is an argument: `none` is a mail that could not be sent.
pub mod Availability
pub mod Service
pub mod Histories
pub mod Final
pub mod Claims
pub mod Resends
