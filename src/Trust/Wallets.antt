-- ===== src/Trust/Wallets.antt =====
-- `walletOptions` and `verifyWallet` of apps/gateway/src/AccountTrustService.js. viem's
-- `getAddress` and `recoverTypedDataAddress` are parameters.
use creator_first_platform.Base.{
  ℕ, ◌+◌, ◌*◌, ◌/◌, String, true, false, Option, none, some, ◌&&◌, not, ◌==◌, ltb, if◌then◌else◌,
}
use creator_first_platform.Base.Exec.{Exec, pure, gets, require, or_throw, ◌>>=◌, ◌>>◌}
use creator_first_platform.Base.Exec.Codes.{
  passkey_authentication_required, invalid_wallet_address, chain_not_allowed, wallet_intent_expired,
  wallet_binding_signature_invalid, wallet_binding_signer_mismatch,
}
use creator_first_platform.Trust.Store.{BindingState, passkey_registered, wallet_bound, active}
use creator_first_platform.Trust.Service.{
  Detail, BindingMessage, WalletIntent, Transaction, Trust, transaction, csrf, transition,
  set_transaction, set_account,
}

-- `wallet_address` is `none` where it is no text.
pub record WalletForm : Type 0 where
  pub csrf_token : Option ℕ
  pub wallet_address : Option ℕ
  pub chain_id : ℕ

pub record WalletProof : Type 0 where
  pub csrf_token : Option ℕ
  pub signature : String

abbrev pub address_of : (ℕ → Option ℕ) → Option ℕ → Option ℕ
address_of get_address none = none
address_of get_address (some a) = get_address a

abbrev pub new_intent : Transaction → ℕ → ℕ → ℕ → ℕ → WalletIntent
new_intent t wallet_address chain_id nonce issued_at = record {
  typed_data = record {
    account_subject_commitment = t.account_subject_commitment;
    wallet_address = wallet_address;
    chain_id = chain_id;
    binding_nonce = nonce;
    issued_at = issued_at;
    deadline = issued_at + 300;
  };
  wallet_address = wallet_address;
  deadline = issued_at + 300;
  used = false;
}

module _ (get_address : ℕ → Option ℕ) (chain_id : ℕ) where
  -- `nonce` is drawn at random.
  unfoldable pub wallet_options : ℕ → ℕ → WalletForm → ℕ → ℕ → Exec Trust BindingMessage
  wallet_options account binding_id body nonce now = do
    t ← transaction account binding_id passkey_registered now
    csrf t body.csrf_token
    a ← gets (λ s. s.accounts account)
    require a.passkey_authenticated 401 passkey_authentication_required
    w ← or_throw (address_of get_address body.wallet_address) 400 invalid_wallet_address
    require (body.chain_id == chain_id) 400 chain_not_allowed
    let intent = new_intent t w chain_id nonce (now / 1000)
    set_transaction t.binding_id (λ t. record t { wallet_intent = some intent })
    pure intent.typed_data

-- `intent && !intent.used && intent.deadline > now / 1000`
abbrev pub usable_intent : Option WalletIntent → ℕ → Option WalletIntent
usable_intent none now = none
usable_intent (some i) now = if not i.used && ltb now (i.deadline * 1000) then some i else none

-- `intent.used = true`: an intent is told from a later one of the transaction by its nonce.
abbrev pub use_intent : WalletIntent → Option WalletIntent → Option WalletIntent
use_intent i none = none
use_intent i (some j) = some (
    if j.typed_data.binding_nonce == i.typed_data.binding_nonce
    then record j { used = true }
    else j)

abbrev pub wallet_detail : ℕ → Detail
wallet_detail w = record { wallet_address = some w; passkey_credential_id = none }

-- `verifyWallet` before it awaits the recovery: the transaction and its intent
unfoldable pub verify_wallet_check :
    ℕ → ℕ → WalletProof → ℕ → Exec Trust (Transaction × WalletIntent)
verify_wallet_check account binding_id body now = do
  t ← transaction account binding_id passkey_registered now
  csrf t body.csrf_token
  i ← or_throw (usable_intent t.wallet_intent now) 410 wallet_intent_expired
  pure (t, i)

-- `recover` gives the form of `getAddress`.
module _ (recover : BindingMessage → String → Option ℕ) where
  -- and after it
  unfoldable pub verify_wallet_finish :
      ℕ → Transaction → WalletIntent → String → ℕ → Exec Trust BindingState
  verify_wallet_finish account t i signature now = do
    signer ← or_throw (recover i.typed_data signature) 401 wallet_binding_signature_invalid
    require (signer == i.wallet_address) 401 wallet_binding_signer_mismatch
    set_transaction t.binding_id (λ t. record t { wallet_intent = use_intent i t.wallet_intent })
    set_account account (λ a. record a { wallet_address = some i.wallet_address })
    let detail = wallet_detail i.wallet_address
    transition t wallet_bound detail now
    transition t active detail now
    pure active

  unfoldable pub verify_wallet : ℕ → ℕ → WalletProof → ℕ → Exec Trust BindingState
  verify_wallet account binding_id body now = do
    (t, i) ← verify_wallet_check account binding_id body now
    verify_wallet_finish account t i body.signature now
