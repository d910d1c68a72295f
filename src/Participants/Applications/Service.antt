-- ===== src/Participants/Applications/Service.antt =====
-- The methods of `ParticipantApplicationService`.
use creator_first_platform.Base.{
  ℕ, ◌+◌, String, Bool, true, false, Option, none, some, ◌&&◌, ◌==◌, leb, ltb, str_eq, utf16_length,
  if◌then◌else◌,
}
use creator_first_platform.Base.Exec.{
  Exec, Result, ok, err, pure, gets, modify, require, or_throw, ◌>>=◌, ◌>>◌,
}
use creator_first_platform.Base.Exec.Codes.{
  invalid_application_email, invalid_application_name, invalid_application_roles,
  application_consent_required, application_already_exists, application_not_found,
  application_email_already_verified, application_verification_not_found,
  application_not_verifiable, application_verification_expired, application_not_reviewable,
  invalid_rejection_code, invitation_resend_not_available, mail_failed,
}
use creator_first_platform.Account.{Account, Flow, flow_v1, flow_v2, consent_v2}
use creator_first_platform.Participants.Forms.{
  TextMethods, is_valid_email, is_valid_name, valid_roles,
}
use creator_first_platform.Participants.Rows.{
  under_review, RejectionCode, Application, ApplicationEventType, application_created,
  verification_email_sent, email_verified, approval_email_failed, application_approved,
  application_rejected, Database, Invitation,
}
use creator_first_platform.Participants.Store.Applications.{
  is_unverified, is_approvable, is_under_review, is_invited, create_participant_application,
  participant_application_by_id, participant_application_by_owner_id,
  participant_application_by_verification_token_hash,
  rotate_participant_application_verification_token, mark_participant_application_verification_sent,
  verify_participant_application, approve_participant_application,
  fail_participant_application_approval, reject_participant_application,
  record_participant_application_event,
}
use creator_first_platform.Participants.Applications.View.{ParticipantView, participant_view}
use creator_first_platform.Participants.Invitations.Service as Invitations

abbrev pub Service : Type 0 → Type 0
Service = Exec Database

abbrev verification_ttl_ms : ℕ
verification_ttl_ms = 86400000

abbrev verification_resend_cooldown_ms : ℕ
verification_resend_cooldown_ms = 60000

-- The JSON body of an application; `none` is a value that is no text, or no natural number.
pub record ApplicationForm : Type 0 where
  pub email : Option String
  pub display_name : Option String
  pub roles : Option ℕ
  pub accepted_participation : Bool

-- what `validateApplication` returns
pub record ValidApplication : Type 0 where
  pub email : String
  pub display_name : String
  pub roles : ℕ

abbrev or_empty : Option String → String
or_empty none = ""
or_empty (some s) = s

-- `publicApplication(row, this.participantView(row))`: the row and its view
abbrev pub PublicApplication : Type 0
PublicApplication = Application × ParticipantView

abbrev log_event : ℕ → ApplicationEventType → ℕ → Service (Unit {0})
log_event id event_type now = modify (
    record_participant_application_event
      (record { application_id = id; event_type = event_type; occurred_at = now }))

unfoldable pub public_view : ℕ → Application → Service PublicApplication
unfolding participant_view
public_view now row = gets (λ db. (row, participant_view row now db))

abbrev is_some {ℓ} : {A : Type ℓ} → Option A → Bool
is_some none = false
is_some (some _) = true

abbrev is_flow_v1 : Flow → Bool
is_flow_v1 flow_v1 = true
is_flow_v1 flow_v2 = false

-- `row.verification_sent_at && Date.now() - Date.parse(row.verification_sent_at) < COOLDOWN`
abbrev is_cooling_down : Option ℕ → ℕ → Bool
is_cooling_down none now = false
is_cooling_down (some sent) now = ltb now (sent + verification_resend_cooldown_ms)

abbrev same_application : Application → ValidApplication → Bool
same_application row value =
    str_eq row.email value.email
    && str_eq row.display_name value.display_name
    && row.role_bits == value.roles

-- The row with this identifier, which the caller has read before.
abbrev reread : ℕ → Service Application
reread id = do
  found ← gets (participant_application_by_id id)
  or_throw found 404 application_not_found

module _ (digest : String → ℕ) (methods : TextMethods) where
  open methods use {trim, to_lower_case, normalize_nfkc}

  unfoldable pub validate_application : ApplicationForm → Service ValidApplication
  validate_application body = do
    let email = to_lower_case (trim (or_empty body.email))
    let name = normalize_nfkc (trim (or_empty body.display_name))
    require (is_valid_email email) 400 invalid_application_email
    require (is_valid_name name) 400 invalid_application_name
    roles ← or_throw (valid_roles body.roles) 400 invalid_application_roles
    require body.accepted_participation 400 application_consent_required
    pure (record { email = email; display_name = name; roles = roles })

  abbrev pub new_application : ℕ → ValidApplication → ℕ → String → ℕ → Application
  new_application owner value id token now = record {
    application_id = id;
    owner_id = owner;
    verification_token_hash = digest token;
    email = value.email;
    display_name = value.display_name;
    role_bits = value.roles;
    state = under_review;
    created_at = now;
    verification_expires_at = now + verification_ttl_ms;
    verification_sent_at = none;
    verified_at = none;
    reviewed_at = none;
    invitation_id = none;
    rejection_code = none;
    flow_version = flow_v2;
    consent_version = consent_v2;
  }

  unfoldable pub create_new : ℕ → ValidApplication → ℕ → String → ℕ → Service PublicApplication
  unfolding create_participant_application record_participant_application_event
      participant_application_by_id public_view
  create_new owner value id token now = do
    modify (create_participant_application (new_application owner value id token now))
    log_event id application_created now
    row ← reread id
    public_view now row

  unfoldable pub create_or_answer :
      Option Application → ℕ → ValidApplication → ℕ → String → ℕ → Service PublicApplication
  unfolding create_new
  create_or_answer none owner value id token now = create_new owner value id token now
  create_or_answer (some existing) owner value id token now = do
    require (same_application existing value) 409 application_already_exists
    public_view now existing

  -- `create`; `id` and `token` are drawn at random.
  unfoldable pub create : Account → ApplicationForm → ℕ → String → ℕ → Service PublicApplication
  create account body id token now = do
    value ← validate_application body
    existing ← gets (participant_application_by_owner_id account.account_id)
    create_or_answer existing account.account_id value id token now

  -- `sendVerification`, with what the mailer answers
  unfoldable pub send_verification : ℕ → Option ℕ → ℕ → Service (Unit {0})
  send_verification id mail now = do
    delivery ← or_throw mail 500 mail_failed
    modify (mark_participant_application_verification_sent id now)
    log_event id verification_email_sent now

  -- `resend` for an application of the V2 flow
  unfoldable pub resend_invitation :
      Application → String → String → Option ℕ → ℕ → Service PublicApplication
  resend_invitation row key token mail now = do
    require (is_invited row.state) 409 invitation_resend_not_available
    invitation ← or_throw row.invitation_id 409 invitation_resend_not_available
    Invitations.resend digest methods invitation key token mail now
    row' ← reread row.application_id
    public_view now row'

  unfoldable pub send_again : Application → String → Option ℕ → ℕ → Service PublicApplication
  send_again row token mail now = do
    modify (
        rotate_participant_application_verification_token row.application_id (digest token)
          (now + verification_ttl_ms))
    send_verification row.application_id mail now
    row' ← reread row.application_id
    public_view now row'

  -- and of the V1 flow
  unfoldable pub resend_email : Application → String → Option ℕ → ℕ → Service PublicApplication
  resend_email row token mail now = do
    require (is_unverified row.state) 409 application_email_already_verified
    if is_cooling_down row.verification_sent_at now
        then public_view now row
        else send_again row token mail now

  unfoldable pub resend : Account → String → String → Option ℕ → ℕ → Service PublicApplication
  resend account key token mail now = do
    found ← gets (participant_application_by_owner_id account.account_id)
    row ← or_throw found 404 application_not_found
    if is_flow_v1 row.flow_version
        then resend_email row token mail now
        else resend_invitation row key token mail now

  unfoldable pub verify_row : Application → ℕ → Service PublicApplication
  verify_row row now = do
    require (is_unverified row.state) 409 application_not_verifiable
    require (ltb now row.verification_expires_at) 410 application_verification_expired
    modify (verify_participant_application row.application_id now)
    log_event row.application_id email_verified now
    row' ← reread row.application_id
    public_view now row'

  unfoldable pub verify : String → ℕ → Service PublicApplication
  verify token now = do
    require (leb 32 (utf16_length token) && leb (utf16_length token) 128) 404
        application_verification_not_found
    found ← gets (participant_application_by_verification_token_hash (digest token))
    row ← or_throw found 404 application_verification_not_found
    require (is_flow_v1 row.flow_version) 409 application_not_verifiable
    if is_under_review row.state then public_view now row else verify_row row now

  -- `approve` until it awaits the mailer: the row and the new invitation
  unfoldable pub approve_begin : ℕ → ℕ → String → ℕ → Service Invitation
  approve_begin id invitation_id token now = do
    found ← gets (participant_application_by_id id)
    row ← or_throw found 404 application_not_found
    require (is_approvable row.state) 409 application_not_reviewable
    Invitations.create digest methods
        (record {
          email = some row.email;
          display_name = some row.display_name;
          roles = some row.role_bits;
          is_flow_v2 = true;
          expires_in_hours = some 72;
        })
        invitation_id token now

  -- after the mailer: the `catch` and the rest of the method; the source reads
  -- `reviewedAt` before it awaits the mailer
  unfoldable pub approve_end : ℕ → ℕ → Result ℕ → ℕ → Service Application
  approve_end id invitation_id (err f) reviewed_at = do
    modify (fail_participant_application_approval id invitation_id reviewed_at)
    log_event id approval_email_failed reviewed_at
    λ db. (err f, db)
  approve_end id invitation_id (ok sent) reviewed_at = do
    modify (approve_participant_application id invitation_id reviewed_at)
    log_event id application_approved reviewed_at
    reread id

  abbrev attempt : {A : Type 0} → Service A → Service (Result A)
  attempt m db = let (r, db') = m db in (ok r, db')

  unfoldable pub approve : ℕ → ℕ → String → Option ℕ → ℕ → Service Application
  approve id invitation_id token mail now = do
    invitation ← approve_begin id invitation_id token now
    result ← attempt (Invitations.send digest methods invitation.invitation_id token mail now)
    approve_end id invitation.invitation_id result now

-- `reject` until it awaits the mailer; `none` is a code that is not supported.
unfoldable pub reject_begin : ℕ → Option RejectionCode → ℕ → Service (Unit {0})
reject_begin id code now = do
  rejection ← or_throw code 400 invalid_rejection_code
  found ← gets (participant_application_by_id id)
  row ← or_throw found 404 application_not_found
  changes ← λ db. let (db', n) = reject_participant_application id rejection now db in (ok n, db')
  require (changes == 1) 409 application_not_reviewable

-- and after it, with the `reviewedAt` read before
unfoldable pub reject_end : ℕ → Option ℕ → ℕ → Service Application
reject_end id mail reviewed_at = do
  delivery ← or_throw mail 500 mail_failed
  log_event id application_rejected reviewed_at
  reread id

unfoldable pub reject : ℕ → Option RejectionCode → Option ℕ → ℕ → Service Application
reject id code mail now = do reject_begin id code now; reject_end id mail now

abbrev view_found : Option Application → ℕ → Database → Option PublicApplication
view_found none now db = none
view_found (some row) now db = some (row, participant_view row now db)

unfoldable pub current : Account → ℕ → Service (Option PublicApplication)
current account now =
    gets λ db. view_found (participant_application_by_owner_id account.account_id db) now db
