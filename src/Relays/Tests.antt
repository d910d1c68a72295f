-- ===== src/Relays/Tests.antt =====
-- The theorems on the relayers at concrete inputs.
use creator_first_platform.Base.{
  ℕ, ◌≤◌, ◌≡◌, refl, arith, String, true, false, Option, some, List, [], ◌∷◌, is_valid_key,
  utf16_length,
}
use creator_first_platform.Base.Integers.{negsuc}
use creator_first_platform.Base.Table.{select, update}
use creator_first_platform.Base.Exec.{Result, ok}
use creator_first_platform.Relays.Operations.{
  OperationKey, operation_key, Operation, MapStep, keeps, deletes, map_run, keep_operation,
  prior_run, length, all_of_others, count_keeps, is_hex, is_hex_text,
}
use creator_first_platform.Relays.Capacity.{joins_operation}
use creator_first_platform.Relays.Governance.{
  Ballot, BallotForm, VoteStatus, VoteOutcome, VoteRelayer, new_run, has_run_id, confirmed,
  result_of, relay, available, read_ballot, relay_ballot, join_or_start, relay_status, relay_end,
}
use creator_first_platform.Relays.Votes.{AreSent}
use creator_first_platform.Relays.Votes.Histories.{
  Step, relays, reads_status, ends_relay, run, step, run_sends_votes,
}
use creator_first_platform.Relays.Votes.Confirms.{vote_confirms}
use creator_first_platform.Relays.Supporters.{
  SupportIntent, SupportForm, SupportRelayer, given, submitted, includes, read_creator, read_intent,
  relay as ask, available as free, join_or_start as start, relay_signer as check_signer,
  relay_status as check_status, relay_end as conclude,
}
use creator_first_platform.Relays.Registrations.{AreSent as AreRegistered}
use creator_first_platform.Relays.Registrations.Histories.{
  Step as Move, relays as asks, recovers_signer, reads_status as reads_holder, ends_relay as ends,
  WasSponsored, run as run_moves, step as move, run_sends_sponsored,
}

abbrev own_key : OperationKey
own_key = operation_key 42 "0123456789"

abbrev operation : Operation
operation = record { key = own_key; hash = 5; run_id = 0 }

abbrev other : Operation
other = record { key = operation_key 43 "0123456789"; hash = 6; run_id = 1 }

abbrev changes : List MapStep
changes = keeps other ∷ deletes other.key ∷ []

joins_operation_example :
    let later = map_run (keep_operation operation []) changes in
    prior_run own_key 5 later ≡ (ok (some 0), later)
unfolding select all_of_others count_keeps
joins_operation_example = joins_operation operation [] changes refl refl (omega arith)

abbrev form : BallotForm
form = record {
  member = some 42;
  proposal_id = some 1;
  session_id = some 2;
  nonce = some 0;
  deadline = some 300;
  house = some 1;
  intensity = some (negsuc 8);
  signature =
      some
        "0x1b1b1b1b1b1b1b1b1b1b1b1b1b1b1b1b1b1b1b1b1b1b1b1b1b1b1b1b1b1b1b1b1b1b1b1b1b1b1b1b1b1b1b1b1b1b1b1b1b1b1b1b1b1b1b1b1b1b1b1b1b1b1b1b1b";
  idempotency_key = some "0123456789";
}

abbrev empty : VoteRelayer
empty = record {
  operations = [];
  runs = [];
  availability = record { checked_at = 0; value = false };
  sent = [];
}

-- stands for the recovery of a signer: every ballot is the one of member 42
abbrev recover : Ballot → Option ℕ
recover v = some 42

abbrev hash : Ballot → ℕ
hash v = v.nonce

abbrev history : List Step
history =
    relays form 60000 (some true) 60000
    ∷ reads_status 0
        (some (record { nonce = 0; house = 1; intensity = negsuc 8; cost = 0; cast = false }))
    ∷ ends_relay 0
        (some (record { house = 1; intensity = negsuc 8; cost = 81; transaction_hash = 9 }))
    ∷ []

run_sends_votes_example :
    AreSent recover (run recover hash empty history).sent
    × (length (run recover hash empty history).operations ≤ 512)
run_sends_votes_example = run_sends_votes recover hash empty history refl refl refl

abbrev ballot : Ballot
ballot = record {
  proposal_id = 1;
  session_id = 2;
  house = 1;
  member = 42;
  intensity = negsuc 8;
  nonce = 0;
  deadline = 300;
  signature =
      "0x1b1b1b1b1b1b1b1b1b1b1b1b1b1b1b1b1b1b1b1b1b1b1b1b1b1b1b1b1b1b1b1b1b1b1b1b1b1b1b1b1b1b1b1b1b1b1b1b1b1b1b1b1b1b1b1b1b1b1b1b1b1b1b1b1b";
}

abbrev before : VoteStatus
before = record { nonce = 0; house = 1; intensity = negsuc 8; cost = 0; cast = false }

abbrev result : VoteOutcome
result = record { house = 1; intensity = negsuc 8; cost = 81; transaction_hash = 9 }

vote_confirms_example :
    select (has_run_id 0) (run recover hash empty history).runs
    ≡ some (record (new_run 0 (operation_key 42 "0123456789") ballot) {
      progress = confirmed (result_of ballot result);
    })
unfolding available read_ballot prior_run is_hex_text is_hex is_valid_key utf16_length select length
vote_confirms_example =
    vote_confirms recover hash form 60000 (some true) 60000 empty ballot "0123456789" before result
      refl refl refl refl refl refl refl

abbrev support : SupportForm
support = record {
  holder = some 42;
  creator_id = some "0x0a0a0a0a0a0a0a0a0a0a0a0a0a0a0a0a0a0a0a0a0a0a0a0a0a0a0a0a0a0a0a0a";
  consent_version = some "0x0a0a0a0a0a0a0a0a0a0a0a0a0a0a0a0a0a0a0a0a0a0a0a0a0a0a0a0a0a0a0a0a";
  registry_creator_id = given (some 3);
  nonce = some 0;
  deadline = some 300;
  signature =
      some
        "0x1b1b1b1b1b1b1b1b1b1b1b1b1b1b1b1b1b1b1b1b1b1b1b1b1b1b1b1b1b1b1b1b1b1b1b1b1b1b1b1b1b1b1b1b1b1b1b1b1b1b1b1b1b1b1b1b1b1b1b1b1b1b1b1b1b";
  idempotency_key = some "0123456789";
}

-- stands for the chain's registry: every number has this creator
abbrev directory : ℕ → Result (Option String)
directory n = ok (some "0x0a0a0a0a0a0a0a0a0a0a0a0a0a0a0a0a0a0a0a0a0a0a0a0a0a0a0a0a0a0a0a0a")

abbrev lower : String → String
lower s = s

abbrev idle : SupportRelayer
idle = record {
  operations = [];
  runs = [];
  availability = record { checked_at = 0; value = false };
  sent = [];
}

abbrev signer : SupportIntent → Option ℕ
signer v = some 42

abbrev digest : SupportIntent → ℕ
digest v = v.nonce

abbrev moves : List Move
moves =
    asks directory support 60000 (some true) 60000
    ∷ recovers_signer 0
    ∷ reads_holder 0 (some (record { registered = true; nonce = 0; token_id = 0; tier = 0 }))
    ∷ ends 0 (some (submitted 9))
    ∷ []

run_sends_sponsored_example :
    AreRegistered
      (WasSponsored lower [] signer digest moves)
      signer
      (run_moves lower [] signer digest idle moves).sent
    × (length (run_moves lower [] signer digest idle moves).operations ≤ 512)
run_sends_sponsored_example = run_sends_sponsored lower [] signer digest idle moves refl refl refl

-- Both histories reach the chain.
vote_is_sent : length (run recover hash empty history).sent ≡ 1
unfolding run step length relay available read_ballot relay_ballot prior_run join_or_start
    keep_operation relay_status relay_end is_hex_text is_hex is_valid_key utf16_length select update
vote_is_sent = refl

support_is_sent : length (run_moves lower [] signer digest idle moves).sent ≡ 1
unfolding run_moves move length ask free read_creator read_intent prior_run start keep_operation
    check_signer check_status conclude is_hex_text is_hex is_valid_key utf16_length select update
    includes
support_is_sent = refl
