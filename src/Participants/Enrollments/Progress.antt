-- ===== src/Participants/Enrollments/Progress.antt =====
-- How far one run takes an enrollment row.
use creator_first_platform.Base.{
  ℕ, ◌≡◌, refl, ap, ◌∙◌, Bool, true, Option, none, some, ◌&&◌, ◌==◌, arith, Bool-cases, inl, inr,
  if◌then◌else◌,
}
use creator_first_platform.Base.Table.{select_holds}
use creator_first_platform.Base.Table.Keyed.{select-update_key}
use creator_first_platform.Participants.Rows.{
  EnrollmentState, approved, approval_submitted, funded, Enrollment, Database,
}
use creator_first_platform.Participants.Store.Enrollments.{
  has_enrollment, is_unfunded, awaits_approval, coalesce_old, update_enrollment,
  participant_enrollment, mark_participant_enrollment_approved,
  mark_participant_enrollment_approval_submitted, mark_participant_enrollment_funded,
}

-- the row after its approval, and after its funding
abbrev pub approved_row : Enrollment → Option ℕ → ℕ → Enrollment
approved_row e tx now = record e {
  state = approved;
  approval_tx_hash = coalesce_old tx e.approval_tx_hash;
  approval_confirmed_at = some now;
  last_error_code = none;
  updated_at = now;
}

abbrev submitted_row : Enrollment → ℕ → ℕ → Enrollment
submitted_row e tx now = record e {
  state = approval_submitted;
  approval_tx_hash = some tx;
  last_error_code = none;
  updated_at = now;
}

abbrev pub funded_row : Enrollment → Option ℕ → ℕ → ℕ → Enrollment
funded_row e tx amount now = record e {
  state = funded;
  funding_tx_hash = coalesce_old tx e.funding_tx_hash;
  funding_confirmed_at = some now;
  initial_funding_amount_atomic = some amount;
  last_error_code = none;
  updated_at = now;
}

pub update_enrollment_row :
    (id : ℕ) (test : EnrollmentState → Bool) (f : Enrollment → Enrollment) (e : Enrollment)
    (db : Database)
    → ((y : Enrollment) → (f y).invitation_id ≡ y.invitation_id)
    → participant_enrollment id db ≡ some e
    → participant_enrollment id (update_enrollment id test f db)
      ≡ some (if test e.state then f e else e)
unfolding update_enrollment participant_enrollment
update_enrollment_row id test f e db keep h = ground (
  arith,
  select_holds (has_enrollment id) e db.enrollments h,
  select-update_key (λ r. r.invitation_id) (λ r. r.invitation_id == id && test r.state) f keep id e
      db.enrollments h,
)

module _ (id now : ℕ) (e : Enrollment) (db : Database)
    (found : participant_enrollment id db ≡ some e) where
  pub approved_lem :
      (tx : Option ℕ)
      → is_unfunded e.state ≡ true
      → participant_enrollment id (mark_participant_enrollment_approved id tx now db)
        ≡ some (approved_row e tx now)
  unfolding mark_participant_enrollment_approved
  approved_lem tx u =
      rw
        (
          update_enrollment_row id is_unfunded (λ y. approved_row y tx now) e db (λ y. refl) found,
          u,
        )
        refl

  pub funded_lem :
      (tx : Option ℕ) (amount : ℕ)
      → participant_enrollment id (mark_participant_enrollment_funded id tx amount now db)
        ≡ some (funded_row e tx amount now)
  unfolding mark_participant_enrollment_funded
  funded_lem tx amount =
      update_enrollment_row id (λ _. true) (λ y. funded_row y tx amount now) e db (λ y. refl) found

-- The row after its approval was submitted and confirmed, whatever state it was in.
pub submitted_lem :
    (id now : ℕ) (e : Enrollment) (db : Database)
    → participant_enrollment id db ≡ some e
    → (tx : ℕ) → is_unfunded e.state ≡ true
    → participant_enrollment id (
        mark_participant_enrollment_approved id
          (some tx)
          now
          (mark_participant_enrollment_approval_submitted id tx now db))
      ≡ some (approved_row e (some tx) now)
unfolding mark_participant_enrollment_approval_submitted
submitted_lem id now e db found tx u =
    let row =
      update_enrollment_row id awaits_approval (λ y. submitted_row y tx now) e db (λ y. refl)
        found in
    let db' : Database = mark_participant_enrollment_approval_submitted id tx now db in
    elim (Bool-cases (awaits_approval e.state)) [
      | inl a ↦
          approved_lem id now (submitted_row e tx now) db'
            (row ∙ ap (λ b. some (if b then submitted_row e tx now else e)) a) (some tx) refl
      | inr a ↦
          approved_lem id now e db'
            (row ∙ ap (λ b. some (if b then submitted_row e tx now else e)) a) (some tx) u
    ]
