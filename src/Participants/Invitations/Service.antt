-- ===== src/Participants/Invitations/Service.antt =====
-- The methods of `ParticipantInvitationService`.
use Prim.Native.Char.{code}
use creator_first_platform.Base.{
  ℕ, ◌+◌, ◌*◌, String, Bool, true, false, Option, none, some, ◌&&◌, ◌||◌, not, ◌==◌, leb, ltb,
  str_eq, utf16_length, is_valid_key, if◌then◌else◌,
}
use creator_first_platform.Base.Exec.{
  Exec, ok, pure, throw, gets, modify, require, or_throw, ◌>>=◌, ◌>>◌,
}
use creator_first_platform.Base.Exec.Codes.{
  admin_api_disabled, admin_authentication_required, invalid_invitation_email,
  invalid_invitation_name, invalid_invitation_roles, invalid_invitation_expiry,
  invitation_not_found, invitation_not_sendable, invitation_token_required,
  invitation_resend_not_available, invitation_already_claimed, invitation_signature_required,
  invitation_not_claimable, invitation_consent_required, invalid_idempotency_key,
  wallet_link_required, invalid_wallet_address, mail_failed,
}
use creator_first_platform.Account.{
  Account, Flow, flow_v1, flow_v2, consent_v1, consent_v2, same_consent, InvitationProof,
}
use creator_first_platform.Participants.Forms.{
  TextMethods, is_valid_email, is_valid_name, valid_roles,
}
use creator_first_platform.Participants.Rows.{
  InvitationState, created, claimed, revoked, Invitation, invitation_created, email_sent,
  email_resent, email_resend_failed, invitation_claimed_event, InvitationEventType, ResendResult,
  ResendRequest, Database,
}
use creator_first_platform.Participants.Store.Invitations.{
  create_participant_invitation, participant_invitation_by_id, participant_invitation_by_token_hash,
  mark_participant_invitation_sent, rotate_participant_invitation_token,
  mark_participant_invitation_resent, claim_participant_invitation,
  record_participant_invitation_event, participant_invitation_resend_request,
  record_participant_invitation_resend_request,
}
use creator_first_platform.Participants.Store.Applications.{
  mark_participant_application_invitation_claimed,
}
use creator_first_platform.Participants.Invitations.Availability.{resend_availability}

abbrev pub Service : Type 0 → Type 0
Service = Exec Database

abbrev pub log_event : ℕ → InvitationEventType → ℕ → Service (Unit {0})
log_event id event_type now = modify (
    record_participant_invitation_event
      (record { invitation_id = id; event_type = event_type; occurred_at = now }))

-- `authorization.startsWith(prefix) ? authorization.slice(prefix.length) : ''`
unfoldable pub after_prefix : String → String → String
after_prefix String.[] s = s
after_prefix (String.◌∷◌ p ps) String.[] = ""
after_prefix (String.◌∷◌ p ps) (String.◌∷◌ c s) =
    let rest = after_prefix ps s in if code p == code c then rest else ""

-- The JSON body of `create`, after `Number` and the default of 72 hours: `none` is a value that is
-- no text, or no natural number.
pub record InvitationForm : Type 0 where
  pub email : Option String
  pub display_name : Option String
  pub roles : Option ℕ
  -- `body.flowVersion === PARTICIPANT_FLOW_V2`
  pub is_flow_v2 : Bool
  pub expires_in_hours : Option ℕ

abbrev or_empty : Option String → String
or_empty none = ""
or_empty (some s) = s

-- `!Number.isSafeInteger(h) || h < 1 || h > 24 * 30`
unfoldable pub valid_hours : Option ℕ → Option ℕ
valid_hours none = none
valid_hours (some h) = if leb 1 h && leb h (24 * 30) then some h else none

-- the participation acknowledgements of a body
pub record ConsentForm : Type 0 where
  pub accepted_participation : Bool
  pub accepted_terms : Bool
  pub acknowledged_test_only : Bool

unfoldable pub consent_accepted : Flow → ConsentForm → Bool
consent_accepted flow_v2 body = body.accepted_participation
consent_accepted flow_v1 body =
    body.accepted_participation || (body.accepted_terms && body.acknowledged_test_only)

unfoldable pub is_proof_of : Option InvitationProof → Invitation → Bool
is_proof_of none row = false
is_proof_of (some proof) row =
    proof.invitation_id == row.invitation_id
    && proof.roles == row.role_bits
    && same_consent proof.consent_version row.consent_version

abbrev pub is_claimed : InvitationState → Bool
is_claimed claimed = true
is_claimed _ = false

abbrev is_closed : InvitationState → Bool
is_closed claimed = true
is_closed revoked = true
is_closed _ = false

abbrev is_wallet : Option ℕ → ℕ → Bool
is_wallet none wallet = false
is_wallet (some w) wallet = w == wallet

-- The new account and row that a claim ends with.
pub record Claim : Type 0 where
  pub account : Account
  pub row : Option Invitation

-- `digest` is SHA-256 and `methods` are the Unicode-aware methods of texts.
module _ (digest : String → ℕ) (methods : TextMethods) where
  open methods use {trim, to_lower_case, normalize_nfkc}

  unfoldable pub safe_token_equal : String → String → Bool
  safe_token_equal actual expected = digest actual == digest expected

  -- `admin_token` is `config.adminToken`, and the second text the `Authorization` header.
  unfoldable pub require_administrator : String → Option String → Service (Unit {0})
  unfolding safe_token_equal after_prefix
  require_administrator admin_token authorization = do
    require (not (str_eq admin_token "")) 503 admin_api_disabled
    require (safe_token_equal (after_prefix "Bearer " (or_empty authorization)) admin_token) 401
        admin_authentication_required

  -- `token` and `id` are drawn at random.
  unfoldable pub create : InvitationForm → ℕ → String → ℕ → Service Invitation
  unfolding valid_hours create_participant_invitation record_participant_invitation_event
  create body id token now = do
    let email = to_lower_case (trim (or_empty body.email))
    let name = normalize_nfkc (trim (or_empty body.display_name))
    require (is_valid_email email) 400 invalid_invitation_email
    require (is_valid_name name) 400 invalid_invitation_name
    roles ← or_throw (valid_roles body.roles) 400 invalid_invitation_roles
    hours ← or_throw (valid_hours body.expires_in_hours) 400 invalid_invitation_expiry
    let row : Invitation = record {
      invitation_id = id;
      token_hash = digest token;
      email = email;
      display_name = name;
      role_bits = roles;
      state = created;
      created_at = now;
      expires_at = now + hours * 60 * 60000;
      sent_at = none;
      claimed_at = none;
      claimed_wallet = none;
      flow_version = if body.is_flow_v2 then flow_v2 else flow_v1;
      consent_version = if body.is_flow_v2 then consent_v2 else consent_v1;
      resend_count = 0;
      resend_window_started_at = none;
      last_resend_at = none;
    }
    modify (create_participant_invitation row)
    log_event id invitation_created now
    pure row

  -- `send` before it awaits the mailer
  unfoldable pub send_check : ℕ → String → ℕ → Service Invitation
  unfolding participant_invitation_by_id
  send_check id token now = do
    found ← gets (participant_invitation_by_id id)
    row ← or_throw found 404 invitation_not_found
    require (not (is_closed row.state) && ltb now row.expires_at) 409 invitation_not_sendable
    require (not (str_eq token "") && digest token == row.token_hash) 400 invitation_token_required
    pure row

  -- and after it
  unfoldable pub send_finish : ℕ → Option ℕ → ℕ → Service ℕ
  unfolding mark_participant_invitation_sent record_participant_invitation_event
  send_finish id mail now = do
    delivery ← or_throw mail 500 mail_failed
    modify (mark_participant_invitation_sent id now)
    log_event id email_sent now
    pure now

  unfoldable pub send : ℕ → String → Option ℕ → ℕ → Service ℕ
  send id token mail now = do send_check id token now; send_finish id mail now

  -- `resend` before it awaits the mailer: the number of this resend
  unfoldable pub resend_rotate : ℕ → String → ℕ → Service ℕ
  unfolding participant_invitation_by_id
  resend_rotate id token now = do
    found ← gets (participant_invitation_by_id id)
    row ← or_throw found 404 invitation_not_found
    let availability = resend_availability found now
    require availability.available 429 invitation_resend_not_available
    changes ← λ db.
        let (db', n) = rotate_participant_invitation_token id (digest token) row.expires_at db in
        (ok n, db')
    require (changes == 1) 409 invitation_not_sendable
    modify (
        mark_participant_invitation_resent id now availability.window_started_at
          (availability.resend_count + 1))
    pure (availability.resend_count + 1)

  abbrev resend_failed : ℕ → ℕ → Service ResendResult
  resend_failed id now = do log_event id email_resend_failed now; throw 500 mail_failed

  -- and after it: the `try` with its `catch`, which also takes a request row that is there
  -- already; `attemptedAt` is read before the mailer is awaited
  unfoldable pub resend_finish : ℕ → String → Option ℕ → ℕ → Service ResendResult
  unfolding record_participant_invitation_resend_request record_participant_invitation_event
  resend_finish id key none attempted_at = resend_failed id attempted_at
  resend_finish id key (some delivery) attempted_at = do
    log_event id email_resent attempted_at
    let result : ResendResult = record {
      invitation_id = id;
      sent_at = attempted_at;
      delivery_id = delivery;
    }
    λ db.
        elim (record_participant_invitation_resend_request
          (record {
            invitation_id = id;
            idempotency_key = key;
            created_at = attempted_at;
            response = result;
          })
          db) [ none ↦ resend_failed id attempted_at db | some db' ↦ (ok result, db') ]

  -- Where no earlier request had the key.
  unfoldable pub resend_new : ℕ → String → String → Option ℕ → ℕ → Service ResendResult
  resend_new id key token mail now = do resend_rotate id token now; resend_finish id key mail now

  unfoldable pub resend_from :
      Option ResendRequest → ℕ → String → String → Option ℕ → ℕ → Service ResendResult
  resend_from (some prior) id key token mail now = pure prior.response
  resend_from none id key token mail now = resend_new id key token mail now

  unfoldable pub resend : ℕ → String → String → Option ℕ → ℕ → Service ResendResult
  unfolding participant_invitation_resend_request
  resend id key token mail now = do
    require (is_valid_key key) 400 invalid_idempotency_key
    prior ← gets (participant_invitation_resend_request id key)
    resend_from prior id key token mail now

  -- `inspect`: the row, and whether it is expired
  unfoldable pub inspect : String → ℕ → Service (Invitation × Bool)
  unfolding participant_invitation_by_token_hash
  inspect token now = do
    require (leb 32 (utf16_length token) && leb (utf16_length token) 128) 404 invitation_not_found
    found ← gets (participant_invitation_by_token_hash (digest token))
    row ← or_throw found 404 invitation_not_found
    pure (row, leb row.expires_at now)

  -- `get_address` is viem's check of an address.
  module _ (get_address : ℕ → Option ℕ) where
    -- The end of `claim`: its `UPDATE` and what follows.
    unfoldable pub claim_write : Invitation → Account → ℕ → ℕ → Service Claim
    unfolding record_participant_invitation_event mark_participant_application_invitation_claimed
    claim_write row account wallet now = do
      changes ← λ db.
          let (db', n) = claim_participant_invitation row.invitation_id wallet now db in (ok n, db')
      require (changes == 1) 409 invitation_not_claimable
      log_event row.invitation_id invitation_claimed_event now
      modify (mark_participant_application_invitation_claimed row.invitation_id now)
      final ← gets (participant_invitation_by_id row.invitation_id)
      pure
          (record { account = record account { participant_invitation_proof = none }; row = final })

    -- The part of `claim` for an invitation that is not claimed yet.
    unfoldable pub claim_open : Invitation → Account → ℕ → ConsentForm → ℕ → Service Claim
    claim_open row account wallet_text body now = do
      require (consent_accepted row.flow_version body) 400 invitation_consent_required
      require (is_proof_of account.participant_invitation_proof row) 401
          invitation_signature_required
      wallet ← or_throw (get_address wallet_text) 400 invalid_wallet_address
      claim_write row account wallet now

    -- A second claim of the same wallet is answered with the row; of another it is refused.
    unfoldable pub claim_again : Invitation → Account → ℕ → Service Claim
    claim_again row account wallet = do
      require (is_wallet row.claimed_wallet wallet) 409 invitation_already_claimed
      pure (record { account = account; row = some row })

    unfoldable pub claim_row : Invitation → Account → ℕ → ConsentForm → ℕ → Service Claim
    claim_row row account wallet body now =
        if is_claimed row.state
        then claim_again row account wallet
        else claim_open row account wallet body now

    unfoldable pub claim : String → Account → ConsentForm → ℕ → Service Claim
    claim token account body now = do
      wallet ← or_throw account.wallet_address 401 wallet_link_required
      found ← gets (participant_invitation_by_token_hash (digest token))
      row ← or_throw found 404 invitation_not_found
      claim_row row account wallet body now
