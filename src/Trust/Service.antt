-- ===== src/Trust/Service.antt =====
-- The transactions of apps/gateway/src/AccountTrustService.js, and the handlers up to the mock JPKI
-- assertion. An account object is shared by all handlers, so it is a reference into `accounts`.
use creator_first_platform.Base.{
  ℕ, ◌+◌, Bool, true, false, Option, none, some, List, ◌&&◌, not, ◌==◌, ltb, leb, if◌then◌else◌,
}
use mathlib.Core.Option.{map as map_option}
use creator_first_platform.Base.Table.{select, update, insert}
use creator_first_platform.Base.Exec.{Exec, pure, gets, modify, require, or_throw, ◌>>=◌, ◌>>◌}
use creator_first_platform.Base.Exec.Codes.{
  trust_binding_not_found, trust_binding_expired, trust_binding_state_invalid, trust_csrf_invalid,
  test_user_required, trust_binding_already_active, trust_binding_in_progress,
  mock_jpki_challenge_invalid, mock_jpki_consent_required,
}
use creator_first_platform.Account.{Account}
use creator_first_platform.Trust.Store.{
  BindingState, created, jpki_asserted, wallet_bound, active, same_state, Binding, binding_row,
  AuditEvent, TrustStore, create_trust_binding, update_trust_binding, active_trust_binding,
  record_trust_audit_event,
}

-- the message of the typed data; its purpose and policy version are constants
pub record BindingMessage : Type 0 where
  pub account_subject_commitment : ℕ
  pub wallet_address : ℕ
  pub chain_id : ℕ
  pub binding_nonce : ℕ
  pub issued_at : ℕ
  pub deadline : ℕ

-- Times of an intent are in seconds.
pub record WalletIntent : Type 0 where
  pub typed_data : BindingMessage
  pub wallet_address : ℕ
  pub deadline : ℕ
  pub used : Bool

pub record Transaction : Type 0 where
  pub binding_id : ℕ
  pub owner_id : ℕ
  pub state : BindingState
  pub csrf_token : ℕ
  pub jpki_challenge : Option ℕ
  pub account_subject_commitment : ℕ
  pub created_at : ℕ
  pub updated_at : ℕ
  pub expires_at : ℕ
  pub registration_challenge : Option ℕ
  pub wallet_intent : Option WalletIntent

-- the map `transactions`, the account objects, and the database
pub record Trust : Type 0 where
  pub transactions : List Transaction
  pub accounts : ℕ → Account
  pub store : TrustStore

abbrev pub has_transaction_id : ℕ → Transaction → Bool
has_transaction_id id t = t.binding_id == id

abbrev pub on_store {ℓ} : {A : Type ℓ} → Exec TrustStore A → Exec Trust A
on_store m s = let (r, st) = m s.store in (r, record s { store = st })

-- A write to the transaction object of a binding, and to an account object
abbrev pub set_transaction : ℕ → (Transaction → Transaction) → Exec Trust (Unit {0})
set_transaction id f =
    modify (λ s. record s { transactions = update (has_transaction_id id) f s.transactions })

abbrev pub set_account : ℕ → (Account → Account) → Exec Trust (Unit {0})
set_account account f =
    modify
      (λ s. record s { accounts = λ a. if a == account then f (s.accounts a) else s.accounts a })

-- `#transaction`
unfoldable pub transaction : ℕ → ℕ → BindingState → ℕ → Exec Trust Transaction
transaction account binding_id expected_state now = do
  found ← gets (λ s. select (has_transaction_id binding_id) s.transactions)
  t ← or_throw found 404 trust_binding_not_found
  a ← gets (λ s. s.accounts account)
  require (t.owner_id == a.account_id) 404 trust_binding_not_found
  require (ltb now t.expires_at) 410 trust_binding_expired
  require (same_state t.state expected_state) 409 trust_binding_state_invalid
  pure t

abbrev pub is_token : Option ℕ → ℕ → Bool
is_token none token = false
is_token (some n) token = n == token

-- `#csrf`: the token of the body is `none` where it is no text.
unfoldable pub csrf : Transaction → Option ℕ → Exec Trust (Unit {0})
csrf t token = require (is_token token t.csrf_token) 403 trust_csrf_invalid

-- `detail` of `#transition`
pub record Detail : Type 0 where
  pub wallet_address : Option ℕ
  pub passkey_credential_id : Option ℕ

abbrev pub no_detail : Detail
no_detail = record { wallet_address = none; passkey_credential_id = none }

-- `#transition`
unfoldable pub transition : Transaction → BindingState → Detail → ℕ → Exec Trust (Unit {0})
transition t state detail now = do
  set_transaction t.binding_id (λ t. record t { state = state; updated_at = now })
  on_store (
      update_trust_binding (record {
        binding_id = t.binding_id;
        state = state;
        wallet_address = detail.wallet_address;
        passkey_credential_id = detail.passkey_credential_id;
        updated_at = now;
      }))
  on_store (
      modify (
        record_trust_audit_event (record {
          binding_id = t.binding_id;
          owner_id = t.owner_id;
          event_type = state;
          occurred_at = now;
        })))

-- `status`: the view of the latest binding, and whether the passkey was used
pub record BindingView : Type 0 where
  pub binding_id : ℕ
  pub state : BindingState
  -- the state, with WALLET_BOUND in place of ACTIVE
  pub assurance_level : BindingState
  pub wallet_address : Option ℕ
  pub passkey_registered : Bool
  pub updated_at : ℕ

abbrev is_present {ℓ} : {A : Type ℓ} → Option A → Bool
is_present none = false
is_present (some a) = true

abbrev binding_view : Binding → BindingView
binding_view r = record {
  binding_id = r.binding_id;
  state = r.state;
  assurance_level = if same_state r.state active then wallet_bound else r.state;
  wallet_address = r.wallet_address;
  passkey_registered = is_present r.passkey_credential_id;
  updated_at = r.updated_at;
}

unfoldable pub status : ℕ → Exec Trust (Option BindingView × Bool)
status account = do
  a ← gets (λ s. s.accounts account)
  binding ← gets (λ s. active_trust_binding a.account_id s.store.bindings)
  pure (map_option binding_view binding, a.passkey_authenticated)

-- The random values of a new transaction
pub record Drawn : Type 0 where
  pub binding_id : ℕ
  pub csrf_token : ℕ
  pub jpki_challenge : ℕ
  pub account_subject_commitment : ℕ

abbrev pub new_transaction : Account → Drawn → ℕ → ℕ → Transaction
new_transaction a drawn ttl now = record {
  binding_id = drawn.binding_id;
  owner_id = a.account_id;
  state = created;
  csrf_token = drawn.csrf_token;
  jpki_challenge = some drawn.jpki_challenge;
  account_subject_commitment = drawn.account_subject_commitment;
  created_at = now;
  updated_at = now;
  expires_at = now + ttl;
  registration_challenge = none;
  wallet_intent = none;
}

-- the row that the store makes of it
abbrev pub new_row : Account → Drawn → ℕ → ℕ → Binding
new_row a drawn ttl now =
    binding_row drawn.binding_id a.account_id drawn.account_subject_commitment created now
      (now + ttl)

abbrev pub created_event : Account → Drawn → ℕ → AuditEvent
created_event a drawn now = record {
  binding_id = drawn.binding_id;
  owner_id = a.account_id;
  event_type = created;
  occurred_at = now;
}

-- `Map.set`
abbrev pub put_transaction : Transaction → List Transaction → List Transaction
put_transaction t ts = elim (select (has_transaction_id t.binding_id) ts) [
  | none ↦ insert t ts
  | some old ↦ update (has_transaction_id t.binding_id) (λ _. t) ts
]

abbrev is_registered : Account → Bool
is_registered a = elim a.demo_user [ none ↦ false | some user ↦ true ]

abbrev is_not_active : Option Binding → Bool
is_not_active none = true
is_not_active (some r) = not (same_state r.state active)

abbrev is_over : Option Binding → ℕ → Bool
is_over none now = true
is_over (some r) now = leb r.expires_at now

-- `config.trustBindingTtlMs`
module _ (ttl : ℕ) where
  unfoldable pub begin_checked : Account → Drawn → ℕ → Exec Trust Transaction
  begin_checked a drawn now = do
    let t = new_transaction a drawn ttl now
    modify (λ s. record s { transactions = put_transaction t s.transactions })
    on_store (
        create_trust_binding t.binding_id t.owner_id t.account_subject_commitment t.state now
          t.expires_at)
    on_store (modify (record_trust_audit_event (created_event a drawn now)))
    pure t

  unfoldable pub begin : ℕ → Drawn → ℕ → Exec Trust Transaction
  begin account drawn now = do
    a ← gets (λ s. s.accounts account)
    require (is_registered a) 403 test_user_required
    existing ← gets (λ s. active_trust_binding a.account_id s.store.bindings)
    require (is_not_active existing) 409 trust_binding_already_active
    require (is_over existing now) 409 trust_binding_in_progress
    begin_checked a drawn now

pub record AssertForm : Type 0 where
  pub csrf_token : Option ℕ
  pub challenge : Option ℕ
  pub acknowledged_test_only : Bool
  pub consent_to_binding : Bool

-- `body.challenge === transaction.jpkiChallenge`
abbrev pub is_challenge : Option ℕ → Option ℕ → Bool
is_challenge none none = true
is_challenge (some a) (some b) = a == b
is_challenge _ _ = false

unfoldable pub assert_mock_jpki : ℕ → ℕ → AssertForm → ℕ → Exec Trust BindingState
assert_mock_jpki account binding_id body now = do
  t ← transaction account binding_id created now
  csrf t body.csrf_token
  require (is_challenge body.challenge t.jpki_challenge) 401 mock_jpki_challenge_invalid
  require (body.acknowledged_test_only && body.consent_to_binding) 400 mock_jpki_consent_required
  set_transaction t.binding_id (λ t. record t { jpki_challenge = none })
  transition t jpki_asserted no_detail now
  pure jpki_asserted
