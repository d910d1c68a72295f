-- ===== src/Participants/Enrollments/Operator.antt =====
-- `ParticipantEnrollmentOperator.#process`. A transaction can revert, and a call of the chain client
-- can fail before it is submitted, while it is pending (the wait for its receipt ends after two
-- minutes) or after it was mined, so each call comes with its fault.
use creator_first_platform.Base.{
  ℕ, ◌+◌, Bool, true, false, Option, none, some, List, ◌∷◌, not, ◌&&◌, ◌==◌, if◌then◌else◌,
}
use creator_first_platform.Base.Exec.{
  Exec, Failure, Result, ok, err, pure, throw, gets, modify, require, or_throw, ◌>>=◌, ◌>>◌,
}
use creator_first_platform.Base.Exec.Codes.{
  Code, invitation_not_found, invitation_wallet_not_claimed, enrollment_invitation_mismatch,
  wallet_already_enrolled, onchain_approval_mismatch, initial_test_pol_funding_failed,
  onchain_participant_approval_failed, invalid_wallet_address, chain_failed,
}
use creator_first_platform.Participants.Rows.{
  Invitation, EnrollmentState, ready_for_approval, approved, funding_submitted, funded,
  funding_failed, Enrollment, EnrollmentEventType, enrollment_prepared, onchain_approval_confirmed,
  initial_test_pol_confirmed, onchain_approval_failed, initial_test_pol_failed, Database,
}
use creator_first_platform.Participants.Store.Invitations.{participant_invitation_by_id}
use creator_first_platform.Participants.Store.Enrollments.{
  Phase, approval, funding, participant_enrollment, create_participant_enrollment,
  mark_participant_enrollment_approval_submitted, mark_participant_enrollment_approved,
  mark_participant_enrollment_funding_submitted, mark_participant_enrollment_funded,
  fail_participant_enrollment, record_participant_enrollment_event,
}
use creator_first_platform.Participants.Invitations.Service.{is_claimed}
use creator_first_platform.Participants.Enrollments.Chain.{Chain, ChainStatus}

abbrev approval_ttl_ms : ℕ
approval_ttl_ms = 259200000

-- How a call of the chain client goes: it answers; or it fails, before the transaction is submitted,
-- with the transaction still pending, or after it was mined.
pub data Fault : Type 0 where
  no_fault fault_before fault_pending fault_after : Fault

-- The log of the `fundInitial` transactions: the operator submits one for a participant; one of
-- them takes effect, at once or later.
pub data FundingEvent : Type 0 where
  submits takes_effect : ℕ → FundingEvent

-- A submitted transaction: `approveClaimedInvitation` or `fundInitial` with its arguments
pub data Transaction : Type 0 where
  approval_of : ℕ → ℕ → ℕ → ℕ → Transaction
  funding_of : ℕ → ℕ → Transaction

-- What one run reads from outside: the clock, random identifiers, the faults of its calls of the
-- chain, and what the calls that answer say.
pub record Inputs : Type 0 where
  pub now : ℕ
  pub participant_id : ℕ
  pub operation_id : ℕ
  pub first_status_fault : Bool
  pub approve_fault : Fault
  pub approve_tx : ℕ
  pub second_status_fault : Bool
  pub fund_fault : Fault
  pub fund_tx : ℕ
  pub fund_amount : ℕ

abbrev pub is_zero : Option ℕ → Bool
is_zero none = true
is_zero (some _) = false

abbrev pub is_value : Option ℕ → ℕ → Bool
is_value none n = false
is_value (some m) n = m == n

-- `['APPROVED', 'FUNDING_SUBMITTED', 'FUNDING_FAILED'].includes(state)`
abbrev pub is_past_approval : EnrollmentState → Bool
is_past_approval approved = true
is_past_approval funding_submitted = true
is_past_approval funding_failed = true
is_past_approval _ = false

abbrev pub is_funded : EnrollmentState → Bool
is_funded funded = true
is_funded _ = false

abbrev or_else : Option Enrollment → Enrollment → Enrollment
or_else none e = e
or_else (some x) _ = x

module _ (c : Chain) where
  open c use {State, status, approve, fund}

  -- The database, the chain, the transactions that are pending, and the log of the fundings,
  -- the last event first
  pub record World : Type 0 where
    pub db : Database
    pub chain : State
    pub pending : List Transaction
    pub fundings : List FundingEvent

  abbrev pub Operator : Type 0 → Type 0
  Operator = Exec World

  abbrev on_db : (Database → Database) → Operator (Unit {0})
  on_db f = modify (λ w. record w { db = f w.db })

  abbrev log_event : ℕ → EnrollmentEventType → ℕ → Operator (Unit {0})
  log_event id event_type now = on_db (
      record_participant_enrollment_event
        (record { invitation_id = id; event_type = event_type; occurred_at = now }))

  unfoldable pub chain_status : ℕ → ℕ → Bool → Operator ChainStatus
  chain_status participant wallet true = throw 500 chain_failed
  chain_status participant wallet false = gets (λ w. status w.chain participant wallet)

  abbrev after_fault : {A : Type 0} → Fault → A → Operator A
  after_fault fault_after a = throw 500 chain_failed
  after_fault _ a = pure a

  -- A transaction is mined: it takes effect, or it reverts and changes nothing.
  unfoldable pub mined : Transaction → World → Bool × World
  mined (approval_of p wallet roles expires) w = elim (approve w.chain p wallet roles expires) [
    | none ↦ (false, w)
    | some s ↦ (true, record w { chain = s })
  ]
  mined (funding_of p operation) w = elim (fund w.chain p operation) [
    | none ↦ (false, w)
    | some s ↦ (true, record w { chain = s; fundings = takes_effect p ∷ w.fundings })
  ]

  -- `waitForTransactionReceipt` and the test of the receipt's status
  unfoldable pub await_receipt : Transaction → Fault → ℕ → Operator ℕ
  await_receipt t fault_before tx = throw 500 chain_failed
  await_receipt t fault_pending tx = do
    modify (λ w. record w { pending = t ∷ w.pending })
    throw 500 chain_failed
  await_receipt t fault tx = do
    done ← λ w. let (b, w') = mined t w in (ok b, w')
    require done 500 chain_failed
    after_fault fault tx

  unfoldable pub chain_approve : Enrollment → ℕ → Fault → ℕ → Operator ℕ
  chain_approve e wallet fault tx =
      await_receipt (approval_of e.participant_id wallet e.role_bits e.approval_expires_at) fault tx

  abbrev log_submission : ℕ → Fault → Operator (Unit {0})
  log_submission p fault_before = pure tt
  log_submission p _ = modify (λ w. record w { fundings = submits p ∷ w.fundings })

  unfoldable pub chain_fund : Enrollment → Fault → ℕ → Operator ℕ
  chain_fund e fault tx = do
    log_submission e.participant_id fault
    await_receipt (funding_of e.participant_id e.operation_id) fault tx

  -- `this.store.participantEnrollment(invitationId)`, read again after an update of `e`
  abbrev reread : ℕ → Enrollment → Operator Enrollment
  reread id e = gets (λ w. or_else (participant_enrollment id w.db) e)

  unfoldable pub approve_step : ℕ → ℕ → Enrollment → Inputs → Operator (Enrollment × ChainStatus)
  unfolding mark_participant_enrollment_approval_submitted mark_participant_enrollment_approved
      record_participant_enrollment_event participant_enrollment
  approve_step id wallet e input = do
    tx ← chain_approve e wallet input.approve_fault input.approve_tx
    on_db (mark_participant_enrollment_approval_submitted id tx input.now)
    on_db (mark_participant_enrollment_approved id (some tx) input.now)
    log_event id onchain_approval_confirmed input.now
    e' ← reread id e
    s ← chain_status e'.participant_id wallet input.second_status_fault
    pure (e', s)

  -- Where the chain has a wallet for the participant already.
  unfoldable pub resume_step :
      ℕ → Enrollment → ChainStatus → Inputs → Operator (Enrollment × ChainStatus)
  unfolding mark_participant_enrollment_approved participant_enrollment
  resume_step id e s input = if is_past_approval e.state then pure (e, s) else do
    on_db (mark_participant_enrollment_approved id e.approval_tx_hash input.now)
    e' ← reread id e
    pure (e', s)

  unfoldable pub fund_step : ℕ → Enrollment → ChainStatus → Inputs → Operator (Unit {0})
  unfolding mark_participant_enrollment_funding_submitted mark_participant_enrollment_funded
      record_participant_enrollment_event
  fund_step id e s input =
      if s.initial_funding_completed
      then on_db (mark_participant_enrollment_funded id e.funding_tx_hash 0 input.now)
      else do
        tx ← chain_fund e input.fund_fault input.fund_tx
        on_db (mark_participant_enrollment_funding_submitted id tx input.now)
        on_db (mark_participant_enrollment_funded id (some tx) input.fund_amount input.now)
        log_event id initial_test_pol_confirmed input.now

  unfoldable pub approve_or_resume :
      ℕ → ℕ → Enrollment → ChainStatus → Inputs → Operator (Enrollment × ChainStatus)
  approve_or_resume id wallet e s input =
      if is_zero s.wallet then approve_step id wallet e input else resume_step id e s input

  abbrev is_other : Option ℕ → ℕ → Bool
  is_other none participant = false
  is_other (some p) participant = not (p == participant)

  -- The body of the `try`.
  unfoldable pub drive : ℕ → ℕ → Enrollment → Inputs → Operator Enrollment
  unfolding participant_enrollment
  drive id wallet e input = do
    s ← chain_status e.participant_id wallet input.first_status_fault
    require (not (is_other s.registered_participant_id e.participant_id)) 409
        wallet_already_enrolled
    (e', s') ← approve_or_resume id wallet e s input
    require (is_value s'.wallet wallet && s'.approved_roles == e'.role_bits && s'.active) 409
        onchain_approval_mismatch
    fund_step id e' s' input
    reread id e'

  abbrev pub is_chain_failure : Code → Bool
  is_chain_failure chain_failed = true
  is_chain_failure _ = false

  abbrev phase_of : EnrollmentState → Phase
  phase_of approved = funding
  phase_of funding_submitted = funding
  phase_of funding_failed = funding
  phase_of _ = approval

  abbrev failure_code : Phase → Code
  failure_code approval = onchain_participant_approval_failed
  failure_code funding = initial_test_pol_funding_failed

  abbrev failure_event : Phase → EnrollmentEventType
  failure_event approval = onchain_approval_failed
  failure_event funding = initial_test_pol_failed

  -- The `catch`: an error of the operator's own is thrown on, any other is put on record.
  unfoldable pub recover : ℕ → Enrollment → ℕ → Failure → Operator Enrollment
  unfolding fail_participant_enrollment record_participant_enrollment_event participant_enrollment
  recover id e now f =
      if is_chain_failure f.code
      then (do
        e' ← reread id e
        let phase = phase_of e'.state
        on_db (fail_participant_enrollment id phase (failure_code phase) now)
        log_event id (failure_event phase) now
        throw 502 (failure_code phase))
      else (λ w. (err f, w))

  abbrev catch :
      Result Enrollment × World → (Failure → Operator Enrollment) → Result Enrollment × World
  catch (ok e, w) handler = (ok e, w)
  catch (err f, w) handler = handler f w

  unfoldable pub drive_and_recover : ℕ → ℕ → Enrollment → Inputs → Operator Enrollment
  drive_and_recover id wallet e input w = catch (drive id wallet e input w) (recover id e input.now)

  -- The row that is there, or a new one in READY_FOR_APPROVAL.
  unfoldable pub prepare : Invitation → ℕ → Inputs → Option Enrollment → Operator Enrollment
  unfolding create_participant_enrollment record_participant_enrollment_event
  prepare invitation wallet input (some e) = pure e
  prepare invitation wallet input none = do
    let e : Enrollment = record {
      invitation_id = invitation.invitation_id;
      participant_id = input.participant_id;
      operation_id = input.operation_id;
      wallet_address = wallet;
      role_bits = invitation.role_bits;
      state = ready_for_approval;
      approval_expires_at = input.now + approval_ttl_ms;
      approval_tx_hash = none;
      approval_confirmed_at = none;
      funding_tx_hash = none;
      funding_confirmed_at = none;
      initial_funding_amount_atomic = none;
      last_error_code = none;
      created_at = input.now;
      updated_at = input.now;
    }
    on_db (create_participant_enrollment e)
    log_event invitation.invitation_id enrollment_prepared input.now
    pure e

  -- Once the invitation and its wallet are known.
  unfoldable pub enroll : ℕ → Invitation → ℕ → Inputs → Operator Enrollment
  enroll id invitation wallet input = do
    stored ← gets (λ w. participant_enrollment id w.db)
    e ← prepare invitation wallet input stored
    require (e.wallet_address == wallet && e.role_bits == invitation.role_bits) 409
        enrollment_invitation_mismatch
    if is_funded e.state then pure e else drive_and_recover id wallet e input

  -- viem's `getAddress`
  module _ (get_address : ℕ → Option ℕ) where
    unfoldable pub wallet_of : Invitation → Operator ℕ
    wallet_of invitation = do
      require (is_claimed invitation.state) 409 invitation_wallet_not_claimed
      claimed ← or_throw invitation.claimed_wallet 409 invitation_wallet_not_claimed
      or_throw (get_address claimed) 500 invalid_wallet_address

    unfoldable pub process : ℕ → Inputs → Operator Enrollment
    process id input = do
      found ← gets (λ w. participant_invitation_by_id id w.db)
      invitation ← or_throw found 404 invitation_not_found
      wallet ← wallet_of invitation
      enroll id invitation wallet input
