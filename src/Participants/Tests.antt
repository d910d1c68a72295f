-- ===== src/Participants/Tests.antt =====
-- The theorems on invitations and applications at concrete inputs.
use Prim.Native.Char.{code}
use creator_first_platform.Base.{
  ℕ, ◌+◌, ◌≤◌, ◌≡◌, refl, String, true, false, Option, none, some, List, [], ◌∷◌, arith,
  utf16_length,
}
use creator_first_platform.Base.Table.{select, update, count}
use creator_first_platform.Base.Exec.{ok}
use creator_first_platform.Account.{Account, new_account, flow_v2, consent_v2}
use creator_first_platform.Participants.Forms.{
  TextMethods, is_valid_email, is_valid_name, valid_roles, is_email_from, is_domain, is_plain,
  all_plain, has_inner_dot,
}
use creator_first_platform.Participants.Rows.{
  Invitation, created, sent, Application, duplicate_application, Database,
}
use creator_first_platform.Participants.Store.Invitations.{
  participant_invitation_by_id, participant_invitation_by_token_hash, claim_participant_invitation,
  rotate_participant_invitation_token, mark_participant_invitation_resent,
  record_participant_invitation_event,
}
use creator_first_platform.Participants.Store.Applications.{
  participant_application_by_id, participant_application_by_owner_id,
  create_participant_application, record_participant_application_event,
  reject_participant_application, update_application,
  mark_participant_application_invitation_claimed,
}
use creator_first_platform.Participants.Invitations.Availability.{resend_availability}
use creator_first_platform.Participants.Invitations.Service.{
  ConsentForm, Claim, consent_accepted, is_proof_of, claim, claim_row, claim_open, claim_write,
  resend_rotate, resend_finish, send_finish,
}
use creator_first_platform.Participants.Invitations.Histories.{
  Step, checks_send, rotates, finishes_resend, claims, step, run,
}
use creator_first_platform.Participants.Invitations.Final.{run_claimed}
use creator_first_platform.Participants.Invitations.Claims.{
  IsClaimable, claimed_row, claim_grants, claim_requires,
}
use creator_first_platform.Participants.Invitations.Resends.{resends_apart}
use creator_first_platform.Participants.Applications.View.{participant_view, view_of}
use creator_first_platform.Participants.Applications.Service.{
  ApplicationForm, PublicApplication, ValidApplication, new_application, create,
  validate_application, create_or_answer, create_new, public_view, reject_begin, approve_end,
}
use creator_first_platform.Participants.Applications.Repeats.{create_repeats}
use creator_first_platform.Participants.Applications.Races.{rejected_row, rejected_while_mailing}

-- stands for SHA-256
abbrev last_code : String → ℕ
last_code String.[] = 0
last_code (String.◌∷◌ c String.[]) = code c
last_code (String.◌∷◌ c s) = last_code s

abbrev methods : TextMethods
methods = record { trim = λ s. s; to_lower_case = λ s. s; normalize_nfkc = λ s. s }

-- stands for `getAddress`
abbrev address : ℕ → Option ℕ
address n = some n

abbrev sent_invitation : Invitation
sent_invitation = record {
  invitation_id = 3;
  token_hash = last_code "token-A";
  email = "ao@example.org";
  display_name = "Ao";
  role_bits = 1;
  state = sent;
  created_at = 0;
  expires_at = 9000000;
  sent_at = some 10;
  claimed_at = none;
  claimed_wallet = none;
  flow_version = flow_v2;
  consent_version = consent_v2;
  resend_count = 0;
  resend_window_started_at = none;
  last_resend_at = none;
}

abbrev database_with : List Invitation → List Application → Database
database_with invitations applications = record {
  invitations = invitations;
  invitation_events = [];
  resend_requests = [];
  applications = applications;
  application_events = [];
  enrollments = [];
  enrollment_events = [];
}

abbrev sent_database : Database
sent_database = database_with (sent_invitation ∷ []) []

abbrev guest : Account
guest = record (new_account 1 7) {
  wallet_address = some 42;
  participant_invitation_proof =
      some (record { invitation_id = 3; roles = 1; consent_version = consent_v2 });
}

abbrev accepted : ConsentForm
accepted = record {
  accepted_participation = true;
  accepted_terms = false;
  acknowledged_test_only = false;
}

guest-IsClaimable : IsClaimable sent_invitation guest accepted 20
unfolding consent_accepted is_proof_of
guest-IsClaimable = record {
  consented = refl;
  proved = (refl, refl, refl);
  pending = refl;
  unexpired = omega arith;
}

claim_grants_example :
    let (r, db') = claim last_code methods address "token-A" guest accepted 20 sent_database in
    (r
      ≡ ok (record {
        account = record guest { participant_invitation_proof = none };
        row = some (claimed_row sent_invitation 42 20);
      }))
    × (participant_invitation_by_id 3 db' ≡ some (claimed_row sent_invitation 42 20))
unfolding participant_invitation_by_token_hash select
claim_grants_example =
    claim_grants last_code methods address "token-A" guest accepted 20 42 42 sent_invitation
      sent_database (refl, tt) refl refl refl refl guest-IsClaimable

abbrev claim_answer : Claim
claim_answer = record {
  account = record guest { participant_invitation_proof = none };
  row = some (claimed_row sent_invitation 42 20);
}

claim_requires_example : IsClaimable sent_invitation guest accepted 20
unfolding claim participant_invitation_by_token_hash participant_invitation_by_id select update
    count claim_row claim_open consent_accepted is_proof_of claim_write claim_participant_invitation
    record_participant_invitation_event mark_participant_application_invitation_claimed
claim_requires_example =
    claim_requires last_code methods address "token-A" guest accepted 20 42 42 sent_invitation
      sent_database (refl, tt) refl refl refl claim_answer refl refl

abbrev claimed_invitation : Invitation
claimed_invitation = claimed_row sent_invitation 42 20

abbrev claimed_database : Database
claimed_database = database_with (claimed_invitation ∷ []) []

abbrev later_steps : List (ℕ × Step)
later_steps =
    (30, claims "token-A" (record guest { wallet_address = some 43 }) accepted)
    ∷ (40, checks_send 3 "token-A")
    ∷ (700000, rotates 3 "token-B")
    ∷ []

run_claimed_example :
    participant_invitation_by_id 3 (run last_code methods address claimed_database later_steps)
    ≡ some claimed_invitation
unfolding participant_invitation_by_id select
run_claimed_example =
    run_claimed last_code methods address 3 25 claimed_invitation later_steps claimed_database refl
      refl (omega arith, (omega arith, (omega arith, tt)))

abbrev between : List (ℕ × Step)
between = (400001, finishes_resend 3 "key-number-1" none 400000) ∷ []

resends_apart_example : 400000 + 600000 ≤ 1000000
unfolding run step resend_finish record_participant_invitation_event resend_rotate
    participant_invitation_by_id resend_availability select update count
    rotate_participant_invitation_token mark_participant_invitation_resent
resends_apart_example =
    resends_apart last_code methods address 3 400000 1000000 1 2 "token-B" "token-C" between
      sent_database refl (omega arith, tt) refl

abbrev form : ApplicationForm
form = record {
  email = some "ao@example.org";
  display_name = some "Ao";
  roles = some 3;
  accepted_participation = true;
}

abbrev value : ValidApplication
value = record { email = "ao@example.org"; display_name = "Ao"; roles = 3 }

abbrev application : Application
application = new_application last_code methods 7 value 5 "token-V" 100

abbrev no_rows : Database
no_rows = database_with [] []

abbrev first_answer : PublicApplication
first_answer = (application, participant_view application 100 no_rows)

abbrev applied : Database
applied = (create last_code methods guest form 5 "token-V" 100 no_rows).1

create_repeats_example :
    create last_code methods guest form 6 "token-W" 200 applied
    ≡ (ok (application, participant_view application 200 applied), applied)
unfolding create create_or_answer create_new public_view participant_view view_of
    validate_application is_valid_email is_valid_name valid_roles is_email_from is_domain is_plain
    all_plain has_inner_dot utf16_length participant_application_by_id
    participant_application_by_owner_id select create_participant_application
    record_participant_application_event
create_repeats_example =
    create_repeats last_code methods guest form 5 "token-V" 100 no_rows refl refl first_answer refl
      6 "token-W" 200

abbrev new_invitation : Invitation
new_invitation = record sent_invitation { state = created; sent_at = none }

abbrev mailing : Database
mailing = database_with (new_invitation ∷ []) (application ∷ [])

rejected_while_mailing_example :
    let mailed : Database =
      (send_finish last_code methods 3
        (some 1)
        300
        (reject_begin 5 (some duplicate_application) 200 mailing).1).1 in
    ((approve_end last_code methods 5 3 (ok 300) 150 mailed).0
      ≡ ok (rejected_row application duplicate_application 200))
    × (participant_invitation_by_id 3 (approve_end last_code methods 5 3 (ok 300) 150 mailed).1
        ≡ some (record new_invitation { state = sent; sent_at = some 300 }))
unfolding participant_application_by_id participant_invitation_by_id select reject_begin
    reject_participant_application count update update_application
rejected_while_mailing_example =
    rejected_while_mailing last_code methods 5 3 1 300 200 150 duplicate_application application
      new_invitation mailing refl refl refl refl refl
