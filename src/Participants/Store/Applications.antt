-- ===== src/Participants/Store/Applications.antt =====
-- The application statements of apps/gateway/src/GatewayStore.js.
use creator_first_platform.Base.{ℕ, Bool, true, false, Option, none, some, ◌&&◌, ◌==◌}
use creator_first_platform.Base.Table.{select, update, count, insert}
use creator_first_platform.Participants.Rows.{
  ApplicationState, email_verification_required, under_review, approved_invitation_sent,
  approval_delivery_failed, rejected, invitation_claimed, RejectionCode, Application,
  ApplicationEvent, Database,
}

abbrev pub has_application_id : ℕ → Application → Bool
has_application_id id r = r.application_id == id

abbrev pub is_unverified : ApplicationState → Bool
is_unverified email_verification_required = true
is_unverified _ = false

-- `state IN ('UNDER_REVIEW', 'APPROVAL_DELIVERY_FAILED')`
abbrev pub is_approvable : ApplicationState → Bool
is_approvable under_review = true
is_approvable approval_delivery_failed = true
is_approvable _ = false

abbrev pub is_under_review : ApplicationState → Bool
is_under_review under_review = true
is_under_review _ = false

abbrev pub is_invited : ApplicationState → Bool
is_invited approved_invitation_sent = true
is_invited _ = false

-- `COALESCE(column, value)`
abbrev pub coalesce {ℓ} : {A : Type ℓ} → Option A → A → A
coalesce none a = a
coalesce (some b) a = b

-- The caller has just found no row of this owner, and draws a fresh identifier and token.
unfoldable pub create_participant_application : Application → Database → Database
create_participant_application value db = record db { applications = insert value db.applications }

unfoldable pub participant_application_by_id : ℕ → Database → Option Application
participant_application_by_id id db = select (has_application_id id) db.applications

unfoldable pub participant_application_by_owner_id : ℕ → Database → Option Application
participant_application_by_owner_id owner db = select (λ r. r.owner_id == owner) db.applications

unfoldable pub participant_application_by_verification_token_hash :
    ℕ → Database → Option Application
participant_application_by_verification_token_hash hash db =
    select (λ r. r.verification_token_hash == hash) db.applications

-- `UPDATE participant_applications SET f WHERE application_id = ? AND state …`
unfoldable pub update_application :
    ℕ → (ApplicationState → Bool) → (Application → Application) → Database → Database
update_application id test f db = record db {
  applications = update (λ r. r.application_id == id && test r.state) f db.applications;
}

unfoldable pub rotate_participant_application_verification_token : ℕ → ℕ → ℕ → Database → Database
unfolding update_application
rotate_participant_application_verification_token id token_hash expires_at =
    update_application id is_unverified λ r. record r {
      verification_token_hash = token_hash;
      verification_expires_at = expires_at;
      verification_sent_at = none;
    }

unfoldable pub mark_participant_application_verification_sent : ℕ → ℕ → Database → Database
unfolding update_application
mark_participant_application_verification_sent id sent_at =
    update_application id is_unverified λ r. record r { verification_sent_at = some sent_at }

unfoldable pub verify_participant_application : ℕ → ℕ → Database → Database
unfolding update_application
verify_participant_application id verified_at =
    update_application id is_unverified
      λ r. record r { state = under_review; verified_at = some verified_at }

unfoldable pub approve_participant_application : ℕ → ℕ → ℕ → Database → Database
unfolding update_application
approve_participant_application id invitation reviewed_at = update_application id is_approvable λ r.
    record r {
      state = approved_invitation_sent;
      invitation_id = some invitation;
      reviewed_at = some reviewed_at;
      rejection_code = none;
    }

unfoldable pub fail_participant_application_approval : ℕ → ℕ → ℕ → Database → Database
unfolding update_application
fail_participant_application_approval id invitation reviewed_at =
    update_application id is_approvable λ r. record r {
      state = approval_delivery_failed;
      invitation_id = some invitation;
      reviewed_at = some reviewed_at;
    }

-- with the number of rows changed
unfoldable pub reject_participant_application : ℕ → RejectionCode → ℕ → Database → Database × ℕ
unfolding update_application
reject_participant_application id code reviewed_at db = (
  update_application id is_under_review
      (λ r. record r {
        state = rejected;
        rejection_code = some code;
        reviewed_at = some reviewed_at;
      })
      db,
  count (λ r. r.application_id == id && is_under_review r.state) db.applications,
)

abbrev is_for_invitation : ℕ → Option ℕ → Bool
is_for_invitation id none = false
is_for_invitation id (some i) = i == id

unfoldable pub mark_participant_application_invitation_claimed : ℕ → ℕ → Database → Database
mark_participant_application_invitation_claimed invitation claimed_at db = record db {
  applications =
      update (λ r. is_for_invitation invitation r.invitation_id && is_invited r.state)
        (λ r. record r {
          state = invitation_claimed;
          verified_at = some (coalesce r.verified_at claimed_at);
          reviewed_at = some (coalesce r.reviewed_at claimed_at);
        })
        db.applications;
}

unfoldable pub record_participant_application_event : ApplicationEvent → Database → Database
record_participant_application_event value db = record db {
  application_events = insert value db.application_events;
}
