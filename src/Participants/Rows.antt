-- ===== src/Participants/Rows.antt =====
-- The participant tables of apps/gateway/src/GatewayStore.js. Identifiers, token digests, wallet
-- addresses and transaction hashes are only compared, so they are numbers; times are in
-- milliseconds. The JSON details of audit events are left out.
use creator_first_platform.Base.{ℕ, String, Option, List}
use creator_first_platform.Base.Exec.Codes.{Code}
use creator_first_platform.Account.{Flow, Consent}

pub data InvitationState : Type 0 where
  created sent claimed revoked : InvitationState

-- participant_invitations
pub record Invitation : Type 0 where
  pub invitation_id : ℕ
  pub token_hash : ℕ
  pub email : String
  pub display_name : String
  pub role_bits : ℕ
  pub state : InvitationState
  pub created_at : ℕ
  pub expires_at : ℕ
  pub sent_at : Option ℕ
  pub claimed_at : Option ℕ
  pub claimed_wallet : Option ℕ
  pub flow_version : Flow
  pub consent_version : Consent
  pub resend_count : ℕ
  pub resend_window_started_at : Option ℕ
  pub last_resend_at : Option ℕ

pub data InvitationEventType : Type 0 where
  invitation_created email_sent email_resent email_resend_failed invitation_claimed_event :
      InvitationEventType

pub record InvitationEvent : Type 0 where
  pub invitation_id : ℕ
  pub event_type : InvitationEventType
  pub occurred_at : ℕ

-- The answer to a resend: the state it names is always 'SENT'.
pub record ResendResult : Type 0 where
  pub invitation_id : ℕ
  pub sent_at : ℕ
  pub delivery_id : ℕ

-- participant_invitation_resend_requests
pub record ResendRequest : Type 0 where
  pub invitation_id : ℕ
  pub idempotency_key : String
  pub created_at : ℕ
  pub response : ResendResult

pub data ApplicationState : Type 0 where
  email_verification_required under_review approved_invitation_sent : ApplicationState
  approval_delivery_failed rejected invitation_claimed : ApplicationState

pub data RejectionCode : Type 0 where
  not_in_current_cohort duplicate_application information_incomplete : RejectionCode

-- participant_applications
pub record Application : Type 0 where
  pub application_id : ℕ
  pub owner_id : ℕ
  pub verification_token_hash : ℕ
  pub email : String
  pub display_name : String
  pub role_bits : ℕ
  pub state : ApplicationState
  pub created_at : ℕ
  pub verification_expires_at : ℕ
  pub verification_sent_at : Option ℕ
  pub verified_at : Option ℕ
  pub reviewed_at : Option ℕ
  pub invitation_id : Option ℕ
  pub rejection_code : Option RejectionCode
  pub flow_version : Flow
  pub consent_version : Consent

pub data ApplicationEventType : Type 0 where
  application_created verification_email_sent email_verified : ApplicationEventType
  approval_email_failed application_approved application_rejected : ApplicationEventType

pub record ApplicationEvent : Type 0 where
  pub application_id : ℕ
  pub event_type : ApplicationEventType
  pub occurred_at : ℕ

pub data EnrollmentState : Type 0 where
  ready_for_approval approval_submitted approved approval_failed : EnrollmentState
  funding_submitted funded funding_failed : EnrollmentState

-- participant_enrollments; `last_error_message` is a text for display and left out
pub record Enrollment : Type 0 where
  pub invitation_id : ℕ
  pub participant_id : ℕ
  pub operation_id : ℕ
  pub wallet_address : ℕ
  pub role_bits : ℕ
  pub state : EnrollmentState
  pub approval_expires_at : ℕ
  pub approval_tx_hash : Option ℕ
  pub approval_confirmed_at : Option ℕ
  pub funding_tx_hash : Option ℕ
  pub funding_confirmed_at : Option ℕ
  pub initial_funding_amount_atomic : Option ℕ
  pub last_error_code : Option Code
  pub created_at : ℕ
  pub updated_at : ℕ

pub data EnrollmentEventType : Type 0 where
  enrollment_prepared onchain_approval_confirmed initial_test_pol_confirmed : EnrollmentEventType
  onchain_approval_failed initial_test_pol_failed : EnrollmentEventType

pub record EnrollmentEvent : Type 0 where
  pub invitation_id : ℕ
  pub event_type : EnrollmentEventType
  pub occurred_at : ℕ

pub record Database : Type 0 where
  pub invitations : List Invitation
  pub invitation_events : List InvitationEvent
  pub resend_requests : List ResendRequest
  pub applications : List Application
  pub application_events : List ApplicationEvent
  pub enrollments : List Enrollment
  pub enrollment_events : List EnrollmentEvent
