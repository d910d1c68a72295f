-- ===== src/Participants/Store/Enrollments.antt =====
-- The enrollment statements of apps/gateway/src/GatewayStore.js.
use creator_first_platform.Base.{ℕ, Bool, true, false, Option, none, some, ◌&&◌, ◌==◌}
use creator_first_platform.Base.Exec.Codes.{Code}
use creator_first_platform.Base.Table.{select, update, insert}
use creator_first_platform.Participants.Rows.{
  EnrollmentState, ready_for_approval, approval_submitted, approved, approval_failed,
  funding_submitted, funded, funding_failed, Enrollment, EnrollmentEvent, Database,
}

abbrev pub has_enrollment : ℕ → Enrollment → Bool
has_enrollment id r = r.invitation_id == id

-- `state IN ('READY_FOR_APPROVAL', 'APPROVAL_FAILED')`
abbrev pub awaits_approval : EnrollmentState → Bool
awaits_approval ready_for_approval = true
awaits_approval approval_failed = true
awaits_approval _ = false

-- `state IN ('APPROVED', 'FUNDING_FAILED')`
abbrev pub awaits_funding : EnrollmentState → Bool
awaits_funding approved = true
awaits_funding funding_failed = true
awaits_funding _ = false

-- `state != 'FUNDED'`
abbrev pub is_unfunded : EnrollmentState → Bool
is_unfunded funded = false
is_unfunded _ = true

abbrev any_state : EnrollmentState → Bool
any_state _ = true

-- `COALESCE(?, column)`
abbrev pub coalesce_old {ℓ} : {A : Type ℓ} → Option A → Option A → Option A
coalesce_old none old = old
coalesce_old (some a) old = some a

unfoldable pub participant_enrollment : ℕ → Database → Option Enrollment
participant_enrollment id db = select (has_enrollment id) db.enrollments

-- `INSERT OR IGNORE`, by the primary key; the other two unique columns hold fresh 32-byte values.
unfoldable pub create_participant_enrollment : Enrollment → Database → Database
unfolding participant_enrollment
create_participant_enrollment value db = elim (participant_enrollment value.invitation_id db) [
  | none ↦ record db { enrollments = insert value db.enrollments }
  | some _ ↦ db
]

-- `UPDATE participant_enrollments SET f WHERE invitation_id = ? AND state …`
unfoldable pub update_enrollment :
    ℕ → (EnrollmentState → Bool) → (Enrollment → Enrollment) → Database → Database
update_enrollment id test f db = record db {
  enrollments = update (λ r. r.invitation_id == id && test r.state) f db.enrollments;
}

unfoldable pub mark_participant_enrollment_approval_submitted : ℕ → ℕ → ℕ → Database → Database
unfolding update_enrollment
mark_participant_enrollment_approval_submitted id tx now = update_enrollment id awaits_approval λ r.
    record r {
      state = approval_submitted;
      approval_tx_hash = some tx;
      last_error_code = none;
      updated_at = now;
    }

unfoldable pub mark_participant_enrollment_approved : ℕ → Option ℕ → ℕ → Database → Database
unfolding update_enrollment
mark_participant_enrollment_approved id tx now = update_enrollment id is_unfunded λ r. record r {
  state = approved;
  approval_tx_hash = coalesce_old tx r.approval_tx_hash;
  approval_confirmed_at = some now;
  last_error_code = none;
  updated_at = now;
}

unfoldable pub mark_participant_enrollment_funding_submitted : ℕ → ℕ → ℕ → Database → Database
unfolding update_enrollment
mark_participant_enrollment_funding_submitted id tx now = update_enrollment id awaits_funding λ r.
    record r {
      state = funding_submitted;
      funding_tx_hash = some tx;
      last_error_code = none;
      updated_at = now;
    }

unfoldable pub mark_participant_enrollment_funded : ℕ → Option ℕ → ℕ → ℕ → Database → Database
unfolding update_enrollment
mark_participant_enrollment_funded id tx amount now = update_enrollment id any_state λ r. record r {
  state = funded;
  funding_tx_hash = coalesce_old tx r.funding_tx_hash;
  funding_confirmed_at = some now;
  initial_funding_amount_atomic = some amount;
  last_error_code = none;
  updated_at = now;
}

pub data Phase : Type 0 where
  approval funding : Phase

abbrev pub failed_state : Phase → EnrollmentState
failed_state approval = approval_failed
failed_state funding = funding_failed

unfoldable pub fail_participant_enrollment : ℕ → Phase → Code → ℕ → Database → Database
unfolding update_enrollment
fail_participant_enrollment id phase code now =
    update_enrollment id is_unfunded
      λ r. record r { state = failed_state phase; last_error_code = some code; updated_at = now }

unfoldable pub record_participant_enrollment_event : EnrollmentEvent → Database → Database
record_participant_enrollment_event value db = record db {
  enrollment_events = insert value db.enrollment_events;
}
