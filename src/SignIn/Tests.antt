-- ===== src/SignIn/Tests.antt =====
-- The theorems on wallet challenges at concrete inputs.
use Prim.Native.Char.{code}
use creator_first_platform.Base.{ℕ, ◌≡◌, refl, String, Option, none, some, List, [], ◌∷◌, false}
use creator_first_platform.Base.Table.{select, update}
use creator_first_platform.Base.Exec.{err}
use creator_first_platform.Base.Exec.Codes.{siwe_challenge_invalid}
use creator_first_platform.Account.{Account, new_account}
use creator_first_platform.Participants.Forms.{TextMethods}
use creator_first_platform.Participants.Rows.{Database}
use creator_first_platform.SignIn.Challenges.{
  Message, SignIn, ChallengeForm, VerifyForm, new_challenge, create_challenge, proof_for,
  verify_check, verify_finish, verify_challenge,
}
use creator_first_platform.SignIn.Proofs.{verify_once}
use creator_first_platform.SignIn.Histories.{Step, creates, step, run, run_proves}

abbrev methods : TextMethods
methods = record { trim = λ s. s; to_lower_case = λ s. s; normalize_nfkc = λ s. s }

abbrev digest : String → ℕ
digest _ = 0

abbrev address : ℕ → Option ℕ
address n = some n

-- stands for the recovery of a signer: this signature is the one of wallet 42
abbrev recover : Message → String → Option ℕ
recover m String.[] = none
recover m (String.◌∷◌ c s) = some (code c)

abbrev database : Database
database = record {
  invitations = [];
  invitation_events = [];
  resend_requests = [];
  applications = [];
  application_events = [];
  enrollments = [];
  enrollment_events = [];
}

abbrev start : SignIn
start = record { challenges = []; database = database }

abbrev guest : Account
guest = new_account 1 7

abbrev asked : ChallengeForm
asked = record {
  address = some 65;
  chain_id = 80002;
  invitation_token = none;
  consent = record {
    accepted_participation = false;
    accepted_terms = false;
    acknowledged_test_only = false;
  };
}

abbrev history : List (ℕ × Step)
history = (10, creates guest asked 1 5) ∷ []

abbrev signed : VerifyForm
signed = record {
  challenge_id = 1;
  message =
      some (record { address = 65; nonce = 5; issued_at = 10; expires_at = 300010; proof = none });
  signature = some "A";
}

abbrev linked : Account
linked = record guest { wallet_address = some 65; participant_invitation_proof = none }

run_proves_example :
    (m : Message) × (signature : String) × (recover m signature ≡ some m.address)
    × (linked.wallet_address ≡ some m.address)
    × (linked.participant_invitation_proof ≡ m.proof)
unfolding run step create_challenge proof_for verify_challenge verify_check verify_finish select
    update
run_proves_example =
    run_proves recover digest methods address 80002 start history guest signed 20 linked refl refl

abbrev challenged : SignIn
challenged = record start { challenges = new_challenge guest 65 1 5 10 none ∷ [] }

verify_once_example :
    let s' = (verify_challenge recover guest signed 20 challenged).1 in
    verify_challenge recover guest signed 30 s'
    ≡ (err (record { status = 401; code = siwe_challenge_invalid }), s')
unfolding verify_challenge verify_check verify_finish select update
verify_once_example =
    verify_once recover guest guest signed signed 20 30 challenged linked refl refl
