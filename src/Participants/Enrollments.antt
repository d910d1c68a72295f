-- ===== src/Participants/Enrollments.antt =====
-- apps/gateway/src/ParticipantEnrollmentOperator.js. Its queue runs one `#process` at a time, and
-- no other code writes the enrollment rows, so a run is one step.
pub mod Chain
pub mod Operator
pub mod Progress
pub mod Funding
pub mod Once
pub mod Answers
pub mod Tests
