-- ===== src/Participants/Enrollments/Answers.antt =====
-- What a run has reached when it answers without an error.
use creator_first_platform.Base.{
  ℕ, ◌≡◌, refl, ap, subst, ◌∙◌, true, Option, none, some, arith, Bool-cases, Option-cases, inl, inr,
  if◌then◌else◌,
}
use creator_first_platform.Base.Exec.{ok, Result-cases}
use creator_first_platform.Participants.Rows.{
  Invitation, funding_submitted, funded, Enrollment, Database,
}
use creator_first_platform.Participants.Store.Invitations.{participant_invitation_by_id}
use creator_first_platform.Participants.Store.Enrollments.{
  is_unfunded, awaits_funding, participant_enrollment,
  mark_participant_enrollment_funding_submitted, mark_participant_enrollment_funded,
}
use creator_first_platform.Participants.Enrollments.Chain.{Chain, ChainStatus}
use creator_first_platform.Participants.Enrollments.Operator.{
  Inputs, approval_of, World, is_funded, chain_status, chain_approve, chain_fund, approve_step,
  resume_step, approve_or_resume, fund_step, drive, recover, drive_and_recover, prepare, wallet_of,
  enroll, process,
}
use creator_first_platform.Participants.Enrollments.Progress.{
  update_enrollment_row, approved_lem, submitted_lem, funded_lem, funded_row,
}
use creator_first_platform.Participants.Enrollments.Funding.{
  fault_status, receipt_db, receipt_answer, fund_db, fund_answer,
}
use creator_first_platform.Participants.Enrollments.Once.{
  prepare_lem, wallet_of_lem, participant_invitation_by_id_lem,
}

-- The database holds this row, and it is funded.
IsFundedRow : ℕ → Database → Enrollment → Type 0
IsFundedRow id db x = (participant_enrollment id db ≡ some x) × (x.state ≡ funded)

settled_lem : (e x : Enrollment) → is_funded e.state ≡ true → e ≡ x → x.state ≡ funded
settled_lem e x f same = subst (λ (z : Enrollment). z.state ≡ funded) same (ground arith)

settled_row :
    (id : ℕ) (db : Database) (e x : Enrollment)
    → participant_enrollment id db ≡ some e
    → is_funded e.state ≡ true
    → e ≡ x
    → IsFundedRow id db x
unfolding IsFundedRow
settled_row id db e x found f same = (found ∙ ap some same, settled_lem e x f same)

abbrev funding_row : Enrollment → ℕ → ℕ → Enrollment
funding_row e tx now = record e {
  state = funding_submitted;
  funding_tx_hash = some tx;
  last_error_code = none;
  updated_at = now;
}

submitted_funded_lem :
    (id now tx amount : ℕ) (e : Enrollment) (db : Database)
    → participant_enrollment id db ≡ some e
    → (x : Enrollment) × IsFundedRow id
        (mark_participant_enrollment_funded id
          (some tx)
          amount
          now
          (mark_participant_enrollment_funding_submitted id tx now db))
        x
unfolding IsFundedRow mark_participant_enrollment_funding_submitted
submitted_funded_lem id now tx amount e db found =
    let row =
      update_enrollment_row id awaits_funding (λ y. funding_row y tx now) e db (λ y. refl) found in
    let e' : Enrollment = if awaits_funding e.state then funding_row e tx now else e in
    (
      funded_row e' (some tx) amount now,
      (
        funded_lem id now e' (mark_participant_enrollment_funding_submitted id tx now db) row
            (some tx) amount,
        refl,
      ),
    )

module _ (c : Chain) where
  fund_step_row :
      (id wallet : ℕ) (e : Enrollment) (s : ChainStatus) (input : Inputs) (w : World c)
      → participant_enrollment id w.db ≡ some e
      → (fund_step c id e s input w).0 ≡ ok tt
      → (x : Enrollment) × IsFundedRow id (fund_step c id e s input w).1.db x
  unfolding fund_step IsFundedRow participant_enrollment
  fund_step_row id wallet e s input w found done =
      let (x, (there, x_funded)) =
        submitted_funded_lem id input.now input.fund_tx input.fund_amount e w.db found in
      let there' = funded_lem id input.now e w.db found e.funding_tx_hash 0 in
      let same = fund_db c e input.fund_fault input.fund_tx w in
      elim (Bool-cases s.initial_funding_completed) [
        | inl completed ↦ (funded_row e e.funding_tx_hash 0 input.now, (ground arith, refl))
        | inr missing ↦ elim (Result-cases (chain_fund c e input.fund_fault input.fund_tx w).0) [
          | inr (f, b) ↦ absurd (ground arith)
          | inl (tx, a) ↦
              let sent = fund_answer c e input.fund_fault input.fund_tx tx w a in
              (x, (ground arith, ground arith))
        ]
      ]

  approve_or_resume_row :
      (id wallet : ℕ) (e : Enrollment) (s : ChainStatus) (input : Inputs) (w : World c)
      → participant_enrollment id w.db ≡ some e
      → is_unfunded e.state ≡ true
      → (e' : Enrollment) (s' : ChainStatus)
      → (approve_or_resume c id wallet e s input w).0 ≡ ok (e', s')
      → participant_enrollment id (approve_or_resume c id wallet e s input w).1.db ≡ some e'
  unfolding approve_or_resume approve_step resume_step chain_approve chain_status
      participant_enrollment
  approve_or_resume_row id wallet e s input w found u e' s' r =
      let t = approval_of e.participant_id wallet e.role_bits e.approval_expires_at in
      let same = receipt_db c t input.approve_fault input.approve_tx w in
      let row = submitted_lem id input.now e w.db found input.approve_tx u in
      let row' = approved_lem id input.now e w.db found e.approval_tx_hash u in
      let there = chain_approve c e wallet input.approve_fault input.approve_tx w in
      elim (Result-cases there.0) [
        | inr (f, b) ↦ ground arith
        | inl (tx, a) ↦
            let sent = receipt_answer c t input.approve_fault input.approve_tx tx w a in
            ground arith
      ]

  drive_row :
      (id wallet : ℕ) (e : Enrollment) (input : Inputs) (w : World c)
      → participant_enrollment id w.db ≡ some e
      → is_unfunded e.state ≡ true
      → (x : Enrollment) → (drive c id wallet e input w).0 ≡ ok x
      → IsFundedRow id (drive c id wallet e input w).1.db x
  unfolding drive IsFundedRow
  drive_row id wallet e input w found u x r =
      let same = fault_status c e.participant_id wallet input.first_status_fault w in
      elim (Result-cases (chain_status c e.participant_id wallet input.first_status_fault w).0) [
        | inr (f, b) ↦ absurd (ground arith)
        | inl (s, a) ↦ elim (Result-cases (approve_or_resume c id wallet e s input w).0) [
          | inr (f, b) ↦ absurd (ground arith)
          | inl ((e', s'), b) ↦
              let w' = (approve_or_resume c id wallet e s input w).1 in
              let found' = approve_or_resume_row id wallet e s input w found u e' s' b in
              elim (Result-cases (fund_step c id e' s' input w').0) [
                | inr (f, d) ↦ absurd (ground arith)
                | inl (u', d) ↦
                    let (y, (there, y_funded)) = fund_step_row id wallet e' s' input w' found' d in
                    (ground arith, ground arith)
              ]
        ]
      ]

  drive_and_recover_row :
      (id wallet : ℕ) (e : Enrollment) (input : Inputs) (w : World c)
      → participant_enrollment id w.db ≡ some e
      → is_unfunded e.state ≡ true
      → (x : Enrollment) → (drive_and_recover c id wallet e input w).0 ≡ ok x
      → IsFundedRow id (drive_and_recover c id wallet e input w).1.db x
  unfolding drive_and_recover recover
  drive_and_recover_row id wallet e input w found u x r =
      elim (Result-cases (drive c id wallet e input w).0) [
        | inr (f, b) ↦ absurd (ground arith)
        | inl (y, a) ↦
            let reached = drive_row id wallet e input w found u y a in
            let same : y ≡ x = ground arith in
            ground
              (arith, subst (λ z. IsFundedRow id (drive c id wallet e input w).1.db z) same reached)
      ]

  enroll_row :
      (id : ℕ) (invitation : Invitation) (wallet : ℕ) (input : Inputs) (w : World c)
      → invitation.invitation_id ≡ id
      → (x : Enrollment) → (enroll c id invitation wallet input w).0 ≡ ok x
      → IsFundedRow id (enroll c id invitation wallet input w).1.db x
  unfolding enroll
  enroll_row id invitation wallet input w same x r =
      let stored = participant_enrollment id w.db in
      let w' = (prepare c invitation wallet input stored w).1 in
      elim (Result-cases (prepare c invitation wallet input stored w).0) [
        | inl (e, p) ↦
            let found = prepare_lem c id invitation wallet input w same e p in
            let driven : is_unfunded e.state ≡ true
                → (drive_and_recover c id wallet e input w').0 ≡ ok x
                → IsFundedRow id (drive_and_recover c id wallet e input w').1.db x =
              λ u. drive_and_recover_row id wallet e input w' found u x in
            let settled : is_funded e.state ≡ true → e ≡ x → IsFundedRow id w'.db x =
              λ f same'. settled_row id w'.db e x found f same' in
            ground arith
        | inr (f, b) ↦ absurd (ground arith)
      ]

  module _ (get_address : ℕ → Option ℕ) where
    -- A run that answers without an error answers with the enrollment row that the database then
    -- holds for the invitation, and that row is FUNDED.
    pub process_answers :
        (id : ℕ) (input : Inputs) (w : World c) (x : Enrollment)
        → (process c get_address id input w).0 ≡ ok x
        → (participant_enrollment id (process c get_address id input w).1.db ≡ some x)
          × (x.state ≡ funded)
    unfolding process IsFundedRow
    process_answers id input w x r = elim (Option-cases (participant_invitation_by_id id w.db)) [
      | inl missing ↦ absurd (ground arith)
      | inr (invitation, found) ↦
          let same = participant_invitation_by_id_lem c id invitation w.db found in
          let still = wallet_of_lem c get_address invitation w in
          elim (Result-cases (wallet_of c get_address invitation w).0) [
            | inl (wallet, a) ↦
                let reached = enroll_row id invitation wallet input w same x (ground arith) in
                (ground arith, ground arith)
            | inr (f, b) ↦ absurd (ground arith)
          ]
    ]
