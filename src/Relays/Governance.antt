-- ===== src/Relays/Governance.antt =====
-- `GovernanceVoteRelayer` of apps/gateway/src/GovernanceVoteRelayer.js. The chain client, the recovery
-- of signers and the hash of an operation are parameters or outcomes.
use creator_first_platform.Base.{
  ℕ, ◌+◌, ◌/◌, String, Bool, false, Option, none, some, List, ◌||◌, not, ◌==◌, ltb, leb,
  is_valid_key, if◌then◌else◌,
}
use creator_first_platform.Base.Integers.{ℤ, pos, negsuc}
use creator_first_platform.Base.Table.{update, insert}
use creator_first_platform.Base.Exec.{Exec, Failure, pure, require, or_throw, ◌>>=◌, ◌>>◌}
use creator_first_platform.Base.Exec.Codes.{
  governance_relayer_not_ready, invalid_member, invalid_proposal_id, invalid_session_id,
  invalid_nonce, invalid_deadline, invalid_house, invalid_intensity, invalid_signature,
  invalid_idempotency_key, ballot_signature_invalid, ballot_signer_mismatch, membership_mismatch,
  ballot_nonce_mismatch, governance_relay_failed, chain_failed,
}
use creator_first_platform.Relays.Operations.{
  OperationKey, operation_key, Operation, length, delete_operation, keep_operation, prior_run,
  is_hex_text, is_out_of_time,
}

-- The body of a request: `none` where a number is not one of its kind (`BigInt` throws or is
-- negative, `Number` is no integer), a text is none, or `getAddress` refuses.
pub record BallotForm : Type 0 where
  pub member : Option ℕ
  pub proposal_id : Option ℕ
  pub session_id : Option ℕ
  pub nonce : Option ℕ
  pub deadline : Option ℕ
  pub house : Option ℕ
  pub intensity : Option ℤ
  pub signature : Option String
  pub idempotency_key : Option String

pub record Ballot : Type 0 where
  pub proposal_id : ℕ
  pub session_id : ℕ
  pub house : ℕ
  pub member : ℕ
  pub intensity : ℤ
  pub nonce : ℕ
  pub deadline : ℕ
  pub signature : String

-- what `chain.status` answers
pub record VoteStatus : Type 0 where
  pub nonce : ℕ
  pub house : ℕ
  pub intensity : ℤ
  pub cost : ℕ
  pub cast : Bool

-- what a relay answers, with the outcome of `chain.relay`
pub record VoteResult : Type 0 where
  pub member : ℕ
  pub proposal_id : ℕ
  pub house : ℕ
  pub intensity : ℤ
  pub cost : ℕ
  pub transaction_hash : ℕ

pub record VoteOutcome : Type 0 where
  pub house : ℕ
  pub intensity : ℤ
  pub cost : ℕ
  pub transaction_hash : ℕ

-- The promise of `#relay`, at its awaits and settled
pub data VoteProgress : Type 0 where
  waits_status waits_relay : VoteProgress
  confirmed : VoteResult → VoteProgress
  failed : Failure → VoteProgress

pub record VoteRun : Type 0 where
  pub run_id : ℕ
  pub key : OperationKey
  pub value : Ballot
  pub progress : VoteProgress

-- `availabilityCache`
pub record Availability : Type 0 where
  pub checked_at : ℕ
  pub value : Bool

-- The relayer, the runs of `#relay`, and what it has handed to `chain.relay`, with the status read
-- before
pub record VoteRelayer : Type 0 where
  pub operations : List Operation
  pub runs : List VoteRun
  pub availability : Availability
  pub sent : List (Ballot × VoteStatus)

abbrev pub is_intensity : ℤ → Bool
is_intensity (pos n) = leb n 9
is_intensity (negsuc n) = leb n 8

abbrev pub is_house : ℕ → Bool
is_house house = house == 1 || house == 2

abbrev pub filter_some {ℓ} : {A : Type ℓ} → (A → Bool) → Option A → Option A
filter_some p none = none
filter_some p (some a) = if p a then some a else none

-- what `chain.ready` came to: `none` where it throws
abbrev pub is_ready : Option Bool → Bool
is_ready none = false
is_ready (some b) = b

-- `available`, which reads the clock again after it has awaited the chain
unfoldable pub available : ℕ → Option Bool → ℕ → Exec VoteRelayer Bool
available now ready later s =
    if ltb now (s.availability.checked_at + 30000)
    then pure s.availability.value s
    else pure (is_ready ready)
        (record s { availability = record { checked_at = later; value = is_ready ready } })

-- `now` is in seconds.
unfoldable pub read_ballot : BallotForm → ℕ → Exec VoteRelayer (Ballot × String)
read_ballot input now = do
  member ← or_throw input.member 400 invalid_member
  proposal_id ← or_throw input.proposal_id 400 invalid_proposal_id
  session_id ← or_throw input.session_id 400 invalid_session_id
  nonce ← or_throw input.nonce 400 invalid_nonce
  deadline ← or_throw input.deadline 400 invalid_deadline
  house ← or_throw (filter_some is_house input.house) 400 invalid_house
  intensity ← or_throw (filter_some is_intensity input.intensity) 400 invalid_intensity
  require (not (is_out_of_time deadline now)) 400 invalid_deadline
  signature ← or_throw (filter_some (is_hex_text 130) input.signature) 400 invalid_signature
  key ← or_throw (filter_some is_valid_key input.idempotency_key) 400 invalid_idempotency_key
  pure (
    record {
      proposal_id = proposal_id;
      session_id = session_id;
      house = house;
      member = member;
      intensity = intensity;
      nonce = nonce;
      deadline = deadline;
      signature = signature;
    },
    key,
  )

abbrev on_operations {ℓ} : {A : Type ℓ} → Exec (List Operation) A → Exec VoteRelayer A
on_operations m s = let (r, ops) = m s.operations in (r, record s { operations = ops })

abbrev pub new_run : ℕ → OperationKey → Ballot → VoteRun
new_run id key value = record { run_id = id; key = key; value = value; progress = waits_status }

-- The prior operation of the key, or a new one with its run
unfoldable pub join_or_start : Option ℕ → OperationKey → ℕ → Ballot → Exec VoteRelayer ℕ
join_or_start (some id) key hash value s = pure id s
join_or_start none key hash value s =
    let id = length s.runs in
    pure id (record s {
      runs = insert (new_run id key value) s.runs;
      operations = keep_operation (record { key = key; hash = hash; run_id = id }) s.operations;
    })

-- `recover` is the recovery of the typed data's signer, `operation_hash` the digest.
module _ (recover : Ballot → Option ℕ) (operation_hash : Ballot → ℕ) where
  -- The rest of `relay` with a ballot, from the recovery of its signer
  unfoldable pub relay_ballot : Ballot → String → Exec VoteRelayer ℕ
  relay_ballot value key = do
    signer ← or_throw (recover value) 401 ballot_signature_invalid
    require (signer == value.member) 401 ballot_signer_mismatch
    prior ← on_operations (prior_run (operation_key value.member key) (operation_hash value))
    join_or_start prior (operation_key value.member key) (operation_hash value) value

  -- `relay` up to the promise that it awaits; the answer is the number of its run.
  unfoldable pub relay : BallotForm → ℕ → Option Bool → ℕ → Exec VoteRelayer ℕ
  relay input now ready later = do
    yes_ready ← available now ready later
    require yes_ready 503 governance_relayer_not_ready
    (value, key) ← read_ballot input (later / 1000)
    relay_ballot value key

abbrev pub has_run_id : ℕ → VoteRun → Bool
has_run_id id r = r.run_id == id

abbrev pub set_progress : ℕ → VoteProgress → List VoteRun → List VoteRun
set_progress id p runs = update (has_run_id id) (λ r. record r { progress = p }) runs

-- A run that throws: its operation is deleted, and the error answers all who wait.
abbrev pub fail_run : VoteRun → Failure → VoteRelayer → VoteRelayer
fail_run r f s = record s {
  runs = set_progress r.run_id (failed f) s.runs;
  operations = delete_operation r.key s.operations;
}

-- `#relay` from the outcome of `chain.status` to the call of `chain.relay`
unfoldable pub relay_status : VoteRun → Option VoteStatus → VoteRelayer → VoteRelayer
relay_status r none s = fail_run r (record { status = 500; code = chain_failed }) s
relay_status r (some before) s =
    if not (before.house == r.value.house)
    then fail_run r (record { status = 403; code = membership_mismatch }) s
    else if not (before.nonce == r.value.nonce)
    then fail_run r (record { status = 409; code = ballot_nonce_mismatch }) s
    else record s {
      runs = set_progress r.run_id waits_relay s.runs;
      sent = insert (r.value, before) s.sent;
    }

abbrev pub result_of : Ballot → VoteOutcome → VoteResult
result_of value result = record {
  member = value.member;
  proposal_id = value.proposal_id;
  house = result.house;
  intensity = result.intensity;
  cost = result.cost;
  transaction_hash = result.transaction_hash;
}

-- and from the outcome of that call
unfoldable pub relay_end : VoteRun → Option VoteOutcome → VoteRelayer → VoteRelayer
relay_end r none s = fail_run r (record { status = 502; code = governance_relay_failed }) s
relay_end r (some result) s = record s {
  runs = set_progress r.run_id (confirmed (result_of r.value result)) s.runs;
}
