-- ===== src/Participants/Applications/View.antt =====
-- `participantView` and `publicApplication`: what an applicant is shown. The titles, the guidance
-- and the lists of completed steps are texts for display and left out.
use creator_first_platform.Base.{ℕ, Option, none, some, if◌then◌else◌}
use creator_first_platform.Account.{Flow, flow_v1, flow_v2}
use creator_first_platform.Participants.Rows.{
  Invitation, ApplicationState, email_verification_required, under_review, approved_invitation_sent,
  approval_delivery_failed, rejected, invitation_claimed, Application, Database,
}
use creator_first_platform.Participants.Store.Invitations.{participant_invitation_by_id}
use creator_first_platform.Participants.Invitations.Service.{is_claimed}
use creator_first_platform.Participants.Invitations.Availability.{Availability, resend_availability}

pub data Status : Type 0 where
  reviewing registration_confirmed invitation_sent delivery_failed refused : Status
  verification_pending : Status

pub data ViewPhase : Type 0 where
  review check_email preparing recovery : ViewPhase

pub data ActionOwner : Type 0 where
  nobody participant operator : ActionOwner

pub data RecoveryAction : Type 0 where
  resend_invitation resend_verification : RecoveryAction

-- `none` is `null` or a field that is left out.
pub record ParticipantView : Type 0 where
  pub status : Status
  pub phase : Option ViewPhase
  pub action_owner : Option ActionOwner
  pub recovery_action : Option RecoveryAction
  pub recovery_available_at : Option ℕ
  pub resend_attempts_remaining : Option ℕ
  pub refresh_after_seconds : Option ℕ

abbrev plain_view : Status → ViewPhase → ActionOwner → Option RecoveryAction → ℕ → ParticipantView
plain_view status phase owner action refresh = record {
  status = status;
  phase = some phase;
  action_owner = some owner;
  recovery_action = action;
  recovery_available_at = none;
  resend_attempts_remaining = none;
  refresh_after_seconds = some refresh;
}

abbrev confirmed_view : ParticipantView
confirmed_view = record {
  status = registration_confirmed;
  phase = none;
  action_owner = none;
  recovery_action = none;
  recovery_available_at = none;
  resend_attempts_remaining = none;
  refresh_after_seconds = none;
}

-- With the answer of `resendStatus`, where there is an invitation.
unfoldable pub sent_view : Option Availability → ParticipantView
sent_view none = record (plain_view invitation_sent check_email participant none 15) {
  resend_attempts_remaining = some 0;
}
sent_view (some a) =
    record (plain_view invitation_sent check_email participant
      (if a.available then some resend_invitation else none) 15) {
        recovery_available_at = a.available_at;
        resend_attempts_remaining = some a.attempts_remaining;
      }

abbrev invitation_of : Option ℕ → Database → Option Invitation
invitation_of none db = none
invitation_of (some id) db = participant_invitation_by_id id db

unfoldable pub invited_view : Option Invitation → ℕ → ParticipantView
unfolding sent_view
invited_view none now = sent_view none
invited_view (some i) now =
    if is_claimed i.state
    then confirmed_view
    else sent_view (some (resend_availability (some i) now))

abbrev verification_action : Flow → Option RecoveryAction
verification_action flow_v1 = some resend_verification
verification_action flow_v2 = none

unfoldable pub view_of : ApplicationState → Application → ℕ → Database → ParticipantView
unfolding invited_view
view_of under_review row now db = plain_view reviewing review nobody none 15
view_of approved_invitation_sent row now db = invited_view (invitation_of row.invitation_id db) now
view_of invitation_claimed row now db = plain_view registration_confirmed preparing operator none 15
view_of approval_delivery_failed row now db = plain_view delivery_failed recovery operator none 15
view_of rejected row now db = plain_view refused recovery nobody none 0
view_of email_verification_required row now db =
    plain_view verification_pending check_email participant (verification_action row.flow_version)
      15

unfoldable pub participant_view : Application → ℕ → Database → ParticipantView
unfolding view_of
participant_view row now db = view_of row.state row now db
