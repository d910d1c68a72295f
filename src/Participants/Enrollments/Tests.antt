-- ===== src/Participants/Enrollments/Tests.antt =====
-- The theorems on enrollments at concrete inputs, on a small chain.
use creator_first_platform.Base.{
  ℕ, ◌+◌, ◌≡◌, refl, Bool, true, false, Option, none, some, List, [], ◌∷◌, ◌==◌, ◌||◌, arith,
  if◌then◌else◌,
}
use creator_first_platform.Base.Table.{select, update}
use creator_first_platform.Account.{flow_v2, consent_v2}
use creator_first_platform.Participants.Rows.{Invitation, claimed, Enrollment, funded}
use creator_first_platform.Participants.Store.Invitations.{participant_invitation_by_id}
use creator_first_platform.Participants.Store.Enrollments.{
  participant_enrollment, create_participant_enrollment, update_enrollment,
  fail_participant_enrollment, mark_participant_enrollment_approval_submitted,
  mark_participant_enrollment_approved, mark_participant_enrollment_funding_submitted,
  mark_participant_enrollment_funded, record_participant_enrollment_event,
}
use creator_first_platform.Participants.Enrollments.Chain.{Chain, ChainStatus}
use creator_first_platform.Participants.Enrollments.Operator.{
  Inputs, Fault, no_fault, fault_pending, fault_after, submits, takes_effect, World, mined,
  await_receipt, resume_step, recover, chain_status, chain_approve, chain_fund, approve_step,
  approve_or_resume, fund_step, drive, drive_and_recover, prepare, wallet_of, enroll, process,
}
use creator_first_platform.Participants.Enrollments.Once.{
  Call, runs, mines, writes, step, run, run_funds_once,
}
use creator_first_platform.Participants.Enrollments.Funding.{IsOrderly}
use creator_first_platform.Participants.Enrollments.Answers.{process_answers}

-- the approvals (participant, wallet, roles) and the funded participants
abbrev State : Type 0
State = List (ℕ × ℕ × ℕ) × List ℕ

abbrev is_member : ℕ → List ℕ → Bool
is_member p [] = false
is_member p (q ∷ qs) = p == q || is_member p qs

abbrev approval_of : ℕ → List (ℕ × ℕ × ℕ) → Option ℕ × ℕ
approval_of p [] = (none, 0)
approval_of p ((q, wallet, roles) ∷ rows) =
    let rest = approval_of p rows in if p == q then (some wallet, roles) else rest

abbrev is_active : Option ℕ → Bool
is_active none = false
is_active (some _) = true

abbrev small_status : State → ℕ → ℕ → ChainStatus
small_status (approvals, members) p w =
    let (wallet, roles) = approval_of p approvals in
    record {
      wallet = wallet;
      approved_roles = roles;
      active = is_active wallet;
      initial_funding_completed = is_member p members;
      registered_participant_id = none;
    }

abbrev small_fund : State → ℕ → ℕ → Option State
small_fund (approvals, members) p operation =
    if is_member p members then none else some (approvals, p ∷ members)

small_completes :
    (s s' : State) (p operation wallet : ℕ)
    → small_fund s p operation ≡ some s'
    → (small_status s' p wallet).initial_funding_completed ≡ true
small_completes (approvals, members) (approvals', members') p operation wallet h = ground arith

small_keeps :
    (s s' : State) (p operation other wallet : ℕ)
    → small_fund s p operation ≡ some s'
    → (small_status s other wallet).initial_funding_completed ≡ true
    → (small_status s' other wallet).initial_funding_completed ≡ true
small_keeps (approvals, members) (approvals', members') p operation other wallet h k = ground arith

small_approves :
    (s s' : State) (p wallet roles expires other wallet' : ℕ)
    → some ((p, wallet, roles) ∷ s.0, s.1) ≡ some s'
    → (small_status s other wallet').initial_funding_completed ≡ true
    → (small_status s' other wallet').initial_funding_completed ≡ true
small_approves (approvals, members) (approvals', members') p wallet roles expires other wallet' h
      k =
    ground arith

abbrev small_chain : Chain
small_chain = record {
  State = State;
  status = small_status;
  approve = λ s p wallet roles expires. some ((p, wallet, roles) ∷ s.0, s.1);
  fund = small_fund;
  fund_completes = small_completes;
  fund_keeps = small_keeps;
  fund_refuses = λ s p operation wallet h. ground arith;
  approve_keeps = small_approves;
}

abbrev address : ℕ → Option ℕ
address n = some n

abbrev invitation : Invitation
invitation = record {
  invitation_id = 3;
  token_hash = 65;
  email = "ao@example.org";
  display_name = "Ao";
  role_bits = 1;
  state = claimed;
  created_at = 0;
  expires_at = 9000000;
  sent_at = some 10;
  claimed_at = some 20;
  claimed_wallet = some 42;
  flow_version = flow_v2;
  consent_version = consent_v2;
  resend_count = 0;
  resend_window_started_at = none;
  last_resend_at = none;
}

abbrev world_with : List Enrollment → World small_chain
world_with enrollments = record {
  db = record {
    invitations = invitation ∷ [];
    invitation_events = [];
    resend_requests = [];
    applications = [];
    application_events = [];
    enrollments = enrollments;
    enrollment_events = [];
  };
  chain = ([], []);
  pending = [];
  fundings = [];
}

abbrev inputs : ℕ → Fault → Inputs
inputs now fault = record {
  now = now;
  participant_id = 9;
  operation_id = 10;
  first_status_fault = false;
  approve_fault = no_fault;
  approve_tx = 100;
  second_status_fault = false;
  fund_fault = fault;
  fund_tx = 200;
  fund_amount = 5;
}

-- The wait for the first funding ends while it is pending, so a second is submitted. The second
-- takes effect, and then the first reverts; a further run submits none.
abbrev calls : List Call
calls =
    runs 3 (inputs 30 fault_pending)
    ∷ runs 3 (inputs 40 fault_after)
    ∷ mines 0
    ∷ writes (λ db. db)
    ∷ runs 3 (inputs 50 no_fault)
    ∷ []

run_funds_once_example : IsOrderly (run small_chain address calls (world_with [])).fundings
run_funds_once_example = run_funds_once small_chain address calls (world_with []) refl

calls_log :
    (run small_chain address calls (world_with [])).fundings
    ≡ takes_effect 9 ∷ submits 9 ∷ submits 9 ∷ []
unfolding run step process participant_invitation_by_id select wallet_of enroll
    participant_enrollment prepare create_participant_enrollment record_participant_enrollment_event
    drive_and_recover drive chain_status approve_or_resume approve_step resume_step chain_approve
    await_receipt mined recover fail_participant_enrollment
    mark_participant_enrollment_approval_submitted update_enrollment update
    mark_participant_enrollment_approved fund_step chain_fund
    mark_participant_enrollment_funding_submitted mark_participant_enrollment_funded
calls_log = refl

abbrev enrolled : Enrollment
enrolled = record {
  invitation_id = 3;
  participant_id = 9;
  operation_id = 10;
  wallet_address = 42;
  role_bits = 1;
  state = funded;
  approval_expires_at = 30 + 259200000;
  approval_tx_hash = some 100;
  approval_confirmed_at = some 30;
  funding_tx_hash = some 200;
  funding_confirmed_at = some 30;
  initial_funding_amount_atomic = some 5;
  last_error_code = none;
  created_at = 30;
  updated_at = 30;
}

process_answers_example :
    (participant_enrollment 3
        (process small_chain address 3 (inputs 30 no_fault) (world_with [])).1.db
      ≡ some enrolled)
    × (enrolled.state ≡ funded)
unfolding process participant_invitation_by_id select wallet_of enroll participant_enrollment
    prepare create_participant_enrollment record_participant_enrollment_event drive_and_recover
    drive chain_status approve_or_resume approve_step chain_approve await_receipt mined
    mark_participant_enrollment_approval_submitted update_enrollment update
    mark_participant_enrollment_approved fund_step chain_fund
    mark_participant_enrollment_funding_submitted mark_participant_enrollment_funded
process_answers_example =
    process_answers small_chain address 3 (inputs 30 no_fault) (world_with []) enrolled refl
