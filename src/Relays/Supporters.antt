-- ===== src/Relays/Supporters.antt =====
-- `SupporterSbtRelayer` of apps/gateway/src/SupporterSbtRelayer.js. The chain client, the recovery of
-- signers and the hash of an operation are parameters or outcomes.
use creator_first_platform.Base.{
  ℕ, ◌+◌, ◌/◌, String, Bool, true, false, Option, none, some, List, [], ◌∷◌, ◌||◌, not, ◌==◌, ltb,
  str_eq, is_valid_key, if◌then◌else◌,
}
use creator_first_platform.Base.Table.{update, insert}
use creator_first_platform.Base.Exec.{Exec, Result, Failure, pure, require, or_throw, ◌>>=◌, ◌>>◌}
use creator_first_platform.Base.Exec.Codes.{
  supporter_relayer_not_ready, invalid_holder, invalid_creator_id, invalid_consent_version,
  invalid_registry_creator_id, creator_not_registered, creator_not_sponsored, invalid_nonce,
  invalid_deadline, invalid_signature, invalid_idempotency_key, support_signature_invalid,
  support_signer_mismatch, participant_registration_required, support_nonce_mismatch,
  supporter_relay_failed, chain_failed,
}
use creator_first_platform.Relays.Operations.{
  OperationKey, operation_key, Operation, length, delete_operation, keep_operation, prior_run,
  is_hex_text, is_out_of_time,
}
use creator_first_platform.Relays.Governance.{Availability, filter_some, is_ready}

-- `registryCreatorId` is absent, or `none` where `BigInt` throws or is negative.
pub data RegistryId : Type 0 where
  absent : RegistryId
  given : Option ℕ → RegistryId

pub record SupportForm : Type 0 where
  pub holder : Option ℕ
  pub creator_id : Option String
  pub consent_version : Option String
  pub registry_creator_id : RegistryId
  pub nonce : Option ℕ
  pub deadline : Option ℕ
  pub signature : Option String
  pub idempotency_key : Option String

pub record SupportIntent : Type 0 where
  pub holder : ℕ
  pub creator_id : String
  pub nonce : ℕ
  pub deadline : ℕ
  pub consent_version : String
  pub signature : String

-- what `chain.status` answers
pub record HolderStatus : Type 0 where
  pub registered : Bool
  pub nonce : ℕ
  pub token_id : ℕ
  pub tier : ℕ

-- what `chain.relay` answers: a submitted transaction, or a confirmed one
pub data RelayOutcome : Type 0 where
  submitted : ℕ → RelayOutcome
  mined : ℕ → ℕ → ℕ → RelayOutcome

-- SBT_SUBMITTED, and SBT_ACTIVE of `#result`
pub data SupportResult : Type 0 where
  sbt_submitted : ℕ → ℕ → SupportResult
  sbt_active : ℕ → ℕ → ℕ → Option ℕ → Bool → SupportResult

-- The promise of `#relay`, at its awaits and settled
pub data SupportProgress : Type 0 where
  waits_signer waits_status waits_relay : SupportProgress
  settled : SupportResult → SupportProgress
  failed : Failure → SupportProgress

pub record SupportRun : Type 0 where
  pub run_id : ℕ
  pub key : OperationKey
  pub value : SupportIntent
  pub progress : SupportProgress

-- The relayer, the runs of `#relay`, and what it has handed to `chain.relay`, with the status read
-- before
pub record SupportRelayer : Type 0 where
  pub operations : List Operation
  pub runs : List SupportRun
  pub availability : Availability
  pub sent : List (SupportIntent × HolderStatus)

unfoldable pub available : ℕ → Option Bool → ℕ → Exec SupportRelayer Bool
available now ready later s =
    if ltb now (s.availability.checked_at + 30000)
    then pure s.availability.value s
    else pure (is_ready ready)
        (record s { availability = record { checked_at = later; value = is_ready ready } })

-- `allowedCreatorIds.has`
unfoldable pub includes : List String → String → Bool
includes [] text = false
includes (x ∷ xs) text = str_eq x text || includes xs text

abbrev is_zero : ℕ → Bool
is_zero n = n == 0

-- `registered_creator` is what this relay's own read of the chain's registry, `registeredCreator`,
-- answers for a number: a `creatorId`, nothing, or an error. Each relay is given its own, since the
-- registry changes. The allowed identifiers are in lower case.
module _ (to_lower_case : String → String) (registered_creator : ℕ → Result (Option String))
    (allowed : List String) where
  abbrev pub is_creator : String → Option String → Bool
  is_creator creator_id none = false
  is_creator creator_id (some c) = str_eq (to_lower_case c) (to_lower_case creator_id)

  -- Whether the request names a registered creator
  unfoldable pub read_creator : RegistryId → String → Exec SupportRelayer Bool
  read_creator absent creator_id = pure false
  read_creator (given id) creator_id = do
    n ← or_throw (filter_some (λ n. not (is_zero n)) id) 400 invalid_registry_creator_id
    found ← (λ s. (registered_creator n, s))
    require (is_creator creator_id found) 403 creator_not_registered
    pure true

  -- `now` is in seconds.
  unfoldable pub read_intent : SupportForm → ℕ → Exec SupportRelayer (SupportIntent × String)
  read_intent input now = do
    holder ← or_throw input.holder 400 invalid_holder
    creator_id ← or_throw (filter_some (is_hex_text 64) input.creator_id) 400 invalid_creator_id
    consent_version ←
        or_throw (filter_some (is_hex_text 64) input.consent_version) 400 invalid_consent_version
    registered ← read_creator input.registry_creator_id creator_id
    require (includes allowed (to_lower_case creator_id) || registered) 403 creator_not_sponsored
    nonce ← or_throw input.nonce 400 invalid_nonce
    deadline ← or_throw input.deadline 400 invalid_deadline
    require (not (is_out_of_time deadline now)) 400 invalid_deadline
    signature ← or_throw (filter_some (is_hex_text 130) input.signature) 400 invalid_signature
    key ← or_throw (filter_some is_valid_key input.idempotency_key) 400 invalid_idempotency_key
    pure (
      record {
        holder = holder;
        creator_id = creator_id;
        nonce = nonce;
        deadline = deadline;
        consent_version = consent_version;
        signature = signature;
      },
      key,
    )

  abbrev on_operations {ℓ} : {A : Type ℓ} → Exec (List Operation) A → Exec SupportRelayer A
  on_operations m s = let (r, ops) = m s.operations in (r, record s { operations = ops })

  abbrev pub new_run : ℕ → OperationKey → SupportIntent → SupportRun
  new_run id key value = record { run_id = id; key = key; value = value; progress = waits_signer }

  -- The prior operation of the key, or a new one with its run
  unfoldable pub join_or_start : Option ℕ → OperationKey → ℕ → SupportIntent → Exec SupportRelayer ℕ
  join_or_start (some id) key hash value s = pure id s
  join_or_start none key hash value s =
      let id = length s.runs in
      pure id (record s {
        runs = insert (new_run id key value) s.runs;
        operations = keep_operation (record { key = key; hash = hash; run_id = id }) s.operations;
      })

  -- `relay` up to the promise that it awaits; the answer is the number of its run.
  unfoldable pub relay :
      (SupportIntent → ℕ) → SupportForm → ℕ → Option Bool → ℕ → Exec SupportRelayer ℕ
  relay operation_hash input now ready later = do
    yes_ready ← available now ready later
    require yes_ready 503 supporter_relayer_not_ready
    (value, key) ← read_intent input (later / 1000)
    prior ← on_operations (prior_run (operation_key value.holder key) (operation_hash value))
    join_or_start prior (operation_key value.holder key) (operation_hash value) value

abbrev pub has_run_id : ℕ → SupportRun → Bool
has_run_id id r = r.run_id == id

abbrev pub set_progress : ℕ → SupportProgress → List SupportRun → List SupportRun
set_progress id p runs = update (has_run_id id) (λ r. record r { progress = p }) runs

-- A run that throws: its operation is deleted, and the error answers all who wait.
abbrev pub fail_run : SupportRun → Failure → SupportRelayer → SupportRelayer
fail_run r f s = record s {
  runs = set_progress r.run_id (failed f) s.runs;
  operations = delete_operation r.key s.operations;
}

-- `#relay` from the recovery of the signer to the call of `chain.status`
unfoldable pub relay_signer :
    (SupportIntent → Option ℕ) → SupportRun → SupportRelayer → SupportRelayer
relay_signer recover r s = elim (recover r.value) [
  | none ↦ fail_run r (record { status = 401; code = support_signature_invalid }) s
  | some signer ↦
      if not (signer == r.value.holder)
      then fail_run r (record { status = 401; code = support_signer_mismatch }) s
      else record s { runs = set_progress r.run_id waits_status s.runs }
]

-- `#result`
abbrev pub result_of : ℕ → Option ℕ → ℕ → ℕ → Bool → SupportResult
result_of holder transaction_hash token_id tier already_active =
    sbt_active holder token_id tier transaction_hash already_active

-- from the outcome of `chain.status` to the call of `chain.relay`
unfoldable pub relay_status : SupportRun → Option HolderStatus → SupportRelayer → SupportRelayer
relay_status r none s = fail_run r (record { status = 500; code = chain_failed }) s
relay_status r (some before) s =
    if not before.registered
    then fail_run r (record { status = 403; code = participant_registration_required }) s
    else if ltb 0 before.token_id
    then record s {
      runs =
          set_progress r.run_id
            (settled (result_of r.value.holder none before.token_id before.tier true)) s.runs;
    }
    else if not (before.nonce == r.value.nonce)
    then fail_run r (record { status = 409; code = support_nonce_mismatch }) s
    else record s {
      runs = set_progress r.run_id waits_relay s.runs;
      sent = insert (r.value, before) s.sent;
    }

-- and from the outcome of that call
unfoldable pub relay_end : SupportRun → Option RelayOutcome → SupportRelayer → SupportRelayer
relay_end r none s = fail_run r (record { status = 502; code = supporter_relay_failed }) s
relay_end r (some (submitted hash)) s = record s {
  runs = set_progress r.run_id (settled (sbt_submitted r.value.holder hash)) s.runs;
}
relay_end r (some (mined hash token_id tier)) s =
    if token_id == 0
    then fail_run r (record { status = 502; code = supporter_relay_failed }) s
    else record s {
      runs =
          set_progress r.run_id (settled (result_of r.value.holder (some hash) token_id tier false))
            s.runs;
    }
