-- ===== src/Base/Exec/Codes.antt =====
-- The `code` texts of the gateway's errors (apps/gateway/src), and the faults of the database.
pub data Code : Type 0 where
  -- server.js
  origin_not_allowed not_found : Code
  invalid_test_alias demo_notice_acceptance_required test_user_already_registered : Code
  invalid_playback_request track_not_found idempotency_conflict account_restricted : Code
  subscription_inactive supporter_required early_supporter_required : Code
  delivery_budget_exhausted concurrency_limit catalog_mapping_unavailable : Code
  playback_session_not_found playback_session_expired playback_session_inactive : Code
  media_adapter_failure range_not_satisfiable : Code
  invalid_wallet_address chain_not_allowed invitation_not_claimable : Code
  invitation_consent_required siwe_challenge_invalid siwe_message_mismatch : Code
  siwe_signature_invalid siwe_signer_mismatch wallet_link_required wallet_link_mismatch : Code
  artist_not_found invalid_idempotency_key support_intent_not_found : Code
  support_signature_invalid support_signer_mismatch support_registration_not_found : Code
  -- ParticipantInvitationService.js
  admin_api_disabled admin_authentication_required invalid_invitation_email : Code
  invalid_invitation_name invalid_invitation_roles invalid_invitation_expiry : Code
  invitation_not_found invitation_not_sendable invitation_token_required : Code
  invitation_resend_not_available invitation_already_claimed invitation_signature_required : Code
  -- ParticipantApplicationService.js
  invalid_application_email invalid_application_name invalid_application_roles : Code
  application_consent_required application_already_exists application_not_found : Code
  application_email_already_verified application_verification_not_found : Code
  application_not_verifiable application_verification_expired application_not_reviewable : Code
  invalid_rejection_code : Code
  -- ParticipantEnrollmentOperator.js
  participant_enrollment_operator_disabled invitation_wallet_not_claimed : Code
  enrollment_invitation_mismatch wallet_already_enrolled onchain_approval_mismatch : Code
  initial_test_pol_funding_failed onchain_participant_approval_failed : Code
  -- AccountTrustService.js
  trust_binding_not_found trust_binding_expired trust_binding_state_invalid : Code
  trust_csrf_invalid test_user_required trust_binding_already_active : Code
  trust_binding_in_progress mock_jpki_challenge_invalid mock_jpki_consent_required : Code
  passkey_options_required passkey_registration_invalid passkey_not_registered : Code
  passkey_credential_unknown passkey_authentication_invalid passkey_authentication_required : Code
  wallet_intent_expired wallet_binding_signature_invalid wallet_binding_signer_mismatch : Code
  -- SupporterSbtRelayer.js and GovernanceVoteRelayer.js
  supporter_relayer_not_ready invalid_holder invalid_creator_id invalid_consent_version : Code
  invalid_registry_creator_id creator_not_registered creator_not_sponsored invalid_nonce : Code
  invalid_deadline invalid_signature participant_registration_required : Code
  support_nonce_mismatch supporter_relay_failed governance_relayer_not_ready : Code
  invalid_member invalid_proposal_id invalid_session_id invalid_house invalid_intensity : Code
  ballot_signature_invalid ballot_signer_mismatch membership_mismatch : Code
  ballot_nonce_mismatch governance_relay_failed : Code
  -- a row that breaks a PRIMARY KEY or UNIQUE constraint, and a mail that could not be sent:
  -- both end as the 500 `INTERNAL_ERROR` of server.js
  constraint_failed mail_failed : Code
  -- an error of the chain client, which is no `ParticipantEnrollmentError`
  chain_failed : Code
