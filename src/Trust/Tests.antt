-- ===== src/Trust/Tests.antt =====
-- The theorems on trust bindings at concrete inputs.
use Prim.Native.Char.{code}
use creator_first_platform.Base.{
  arith, ℕ, ◌≡◌, refl, String, true, false, Option, none, some, List, [], ◌∷◌,
}
use creator_first_platform.Base.Table.{select, update, count}
use creator_first_platform.Base.Exec.{ok}
use creator_first_platform.Account.{Account, new_account}
use creator_first_platform.Trust.Store.{
  created, jpki_asserted, passkey_registered, wallet_bound, active, Binding, Credential,
  has_binding_id, create_trust_binding, update_trust_binding, breaks_active_index,
  active_trust_binding, record_trust_audit_event, save_webauthn_credential,
}
use creator_first_platform.Trust.Service.{
  BindingMessage, Transaction, Trust, Drawn, AssertForm, transaction, csrf, transition,
  begin_checked, begin, assert_mock_jpki, new_transaction,
}
use creator_first_platform.Trust.Passkeys.{
  AuthenticatorResponse, RegistrationInfo, PasskeyForm, registration_options_check,
  registration_options_finish, registration_options, verify_registration_check,
  verify_registration_finish, verify_registration,
}
use creator_first_platform.Trust.Wallets.{
  WalletForm, WalletProof, new_intent, wallet_options, verify_wallet_check, verify_wallet_finish,
  verify_wallet,
}
use creator_first_platform.Trust.Trails.{trail}
use creator_first_platform.Trust.Histories.{
  Step, begins, asserts, asks_registration, registers, asks_wallet, binds, step, run, AreFresh,
  run_follows_path,
}
use creator_first_platform.Trust.Interleavings.{
  Racing, checks_options, checks_registration, finishes, checks_wallet, finish, waiting_at,
  waiting_without,
}
use creator_first_platform.Trust.Interleavings.{
  Step as Move, begins as starts, asserts as agrees_to, asks_wallet as chooses_wallet, step as move,
  run as race, AreFresh as DrawFresh,
}
use creator_first_platform.Trust.Signed.{Signs, is_set}
use creator_first_platform.Trust.Interleavings.Invariant.{run_binds_signed}
use creator_first_platform.Trust.Completes.{wallet_completes}
use creator_first_platform.Trust.Late.{late_registration}

-- stands for the passkey library: it accepts every response to a challenge
abbrev registered : AuthenticatorResponse → ℕ → Option RegistrationInfo
registered response challenge = some (record {
  credential_id = response.id;
  public_key = 1;
  counter = 0;
  transports = none;
  device_type = "singleDevice";
  backed_up = false;
})

abbrev authenticated : AuthenticatorResponse → ℕ → Credential → Option ℕ
authenticated response challenge stored = some 1

abbrev address : ℕ → Option ℕ
address n = some n

-- stands for the recovery of a signer: this signature is the one of wallet 65
abbrev recover : BindingMessage → String → Option ℕ
recover m String.[] = none
recover m (String.◌∷◌ c s) = some (code c)

abbrev member : ℕ → Account
member n = record (new_account 1 7) {
  demo_user = some (record { test_user_id = 1; display_name = "A"; created_at = 0 });
}

abbrev start : Trust
start = record {
  transactions = [];
  accounts = member;
  store = record { bindings = []; credentials = []; audit_events = [] };
}

abbrev drawn : Drawn
drawn = record {
  binding_id = 3;
  csrf_token = 11;
  jpki_challenge = 12;
  account_subject_commitment = 13;
}

abbrev consent : AssertForm
consent = record {
  csrf_token = some 11;
  challenge = some 12;
  acknowledged_test_only = true;
  consent_to_binding = true;
}

abbrev response : AuthenticatorResponse
response = record { id = 21; transports = none; content = 0 }

abbrev passkey : PasskeyForm
passkey = record { csrf_token = some 11; response = response }

abbrev wallet : WalletForm
wallet = record { csrf_token = some 11; wallet_address = some 65; chain_id = 80002 }

abbrev signature : WalletProof
signature = record { csrf_token = some 11; signature = "A" }

abbrev history : List (ℕ × Step)
history =
    (1000, begins 0 drawn)
    ∷ (2000, asserts 0 3 consent)
    ∷ (3000, asks_registration 0 3 (some 11) 31)
    ∷ (4000, registers 0 3 passkey)
    ∷ (5000, asks_wallet 0 3 wallet 41)
    ∷ (6000, binds 0 3 signature)
    ∷ []

run_follows_path_example :
    trail 3
      (run 600000 registered authenticated address 80002 recover start history).store.audit_events
    ≡ created ∷ jpki_asserted ∷ passkey_registered ∷ wallet_bound ∷ active ∷ []
unfolding run step select update count trail create_trust_binding update_trust_binding
    breaks_active_index active_trust_binding record_trust_audit_event save_webauthn_credential
    transaction csrf transition begin_checked begin assert_mock_jpki registration_options
    registration_options_check registration_options_finish verify_registration
    verify_registration_check verify_registration_finish wallet_options verify_wallet
    verify_wallet_check verify_wallet_finish AreFresh
run_follows_path_example =
    run_follows_path 600000 registered authenticated address 80002 recover start history 3 refl refl
      refl (refl, (tt, (tt, (tt, (tt, (tt, tt))))))

abbrev alone : Racing
alone = record { trust = start; waiting = [] }

abbrev moves : List (ℕ × Move)
moves =
    (1000, starts 0 drawn)
    ∷ (2000, agrees_to 0 3 consent)
    ∷ (3000, checks_options 0 3 (some 11))
    ∷ (3500, finishes 0 31)
    ∷ (4000, checks_registration 0 3 passkey)
    ∷ (4500, finishes 0 0)
    ∷ (5000, chooses_wallet 0 3 wallet 41)
    ∷ (6000, checks_wallet 0 3 signature)
    ∷ (6500, finishes 0 0)
    ∷ []

abbrev bound : Binding
bound = record {
  binding_id = 3;
  owner_id = 7;
  account_subject_commitment = 13;
  state = active;
  passkey_credential_id = some 21;
  wallet_address = some 65;
  created_at = 1000;
  updated_at = 6500;
  expires_at = 601000;
}

run_binds_signed_example :
    (is_set bound.passkey_credential_id ≡ true)
    × ((w : ℕ) × (bound.wallet_address ≡ some w) × Signs recover w 13)
unfolding race move finish waiting_at waiting_without select update count create_trust_binding
    update_trust_binding breaks_active_index active_trust_binding record_trust_audit_event
    save_webauthn_credential transaction csrf transition begin_checked begin assert_mock_jpki
    registration_options_check registration_options_finish verify_registration_check
    verify_registration_finish wallet_options verify_wallet_check verify_wallet_finish DrawFresh
run_binds_signed_example =
    run_binds_signed 600000 registered authenticated address 80002 recover alone moves 3 bound refl
      refl refl (refl, (tt, (tt, (tt, (tt, (tt, (tt, (tt, (tt, tt))))))))) refl refl

abbrev object : Transaction
object = new_transaction (member 0) drawn 600000 1000

abbrev done : Trust
done = record start {
  transactions = object ∷ [];
  store = record { bindings = bound ∷ []; credentials = []; audit_events = [] };
}

-- from another authenticator of the same person, to the same challenge
abbrev late : AuthenticatorResponse
late = record { id = 22; transports = none; content = 1 }

late_registration_example :
    let (answer, s') = verify_registration_finish registered 0 object 31 late 7000 done in
    (answer ≡ ok passkey_registered)
    × (select (has_binding_id 3) s'.store.bindings
        ≡ some (record bound {
          state = passkey_registered;
          passkey_credential_id = some 22;
          updated_at = 7000;
        }))
unfolding select count
late_registration_example =
    late_registration registered 0 object 31 late
      (record {
        credential_id = 22;
        public_key = 1;
        counter = 0;
        transports = none;
        device_type = "singleDevice";
        backed_up = false;
      })
      7000 done bound refl refl refl refl

-- after the passkey and the wallet's typed data
abbrev waiting : Transaction
waiting = record object {
  state = passkey_registered;
  jpki_challenge = none;
  wallet_intent = some (new_intent object 65 80002 41 5);
}

abbrev row : Binding
row = record bound { state = passkey_registered; wallet_address = none }

abbrev ready : Trust
ready = record start {
  transactions = waiting ∷ [];
  store = record { bindings = row ∷ []; credentials = []; audit_events = [] };
}

wallet_completes_example :
    let (answer, s') = verify_wallet recover 0 3 signature 6000 ready in
    (answer ≡ ok active)
    × (select (has_binding_id 3) s'.store.bindings
        ≡ some (record row { state = active; wallet_address = some 65; updated_at = 6000 }))
    × ((s'.accounts 0).wallet_address ≡ some 65)
unfolding select count
wallet_completes_example =
    wallet_completes recover 0 3 signature waiting row (new_intent object 65 80002 41 5) 6000 ready
      refl refl refl (omega arith) refl refl refl refl refl
