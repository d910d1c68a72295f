-- ===== src/Trust/Passkeys.antt =====
-- The passkey handlers of apps/gateway/src/AccountTrustService.js, in two parts where they await
-- the library @simplewebauthn/server, which is a parameter.
use creator_first_platform.Base.{ℕ, String, Bool, true, Option, none, some, List}
use creator_first_platform.Base.Exec.{Exec, pure, gets, modify, require, or_throw, ◌>>=◌, ◌>>◌}
use creator_first_platform.Base.Exec.Codes.{
  passkey_options_required, passkey_registration_invalid, passkey_not_registered,
  passkey_credential_unknown, passkey_authentication_invalid,
}
use creator_first_platform.Trust.Store.{
  BindingState, jpki_asserted, passkey_registered, Credential, save_webauthn_credential,
  has_webauthn_credentials, webauthn_credential, update_webauthn_counter,
}
use creator_first_platform.Trust.Service.{
  Transaction, Trust, transaction, csrf, transition, set_transaction, set_account, on_store,
}

-- `body.response`; `content` is what the library verifies.
pub record AuthenticatorResponse : Type 0 where
  pub id : ℕ
  pub transports : Option (List String)
  pub content : ℕ

-- `verification.registrationInfo`
pub record RegistrationInfo : Type 0 where
  pub credential_id : ℕ
  pub public_key : ℕ
  pub counter : ℕ
  pub transports : Option (List String)
  pub device_type : String
  pub backed_up : Bool

pub record PasskeyForm : Type 0 where
  pub csrf_token : Option ℕ
  pub response : AuthenticatorResponse

-- `credential.transports ?? body.response?.response?.transports ?? []`
abbrev transports_of : Option (List String) → Option (List String) → List String
transports_of (some l) other = l
transports_of none (some l) = l
transports_of none none = List.[]

abbrev pub new_credential : RegistrationInfo → AuthenticatorResponse → ℕ → ℕ → Credential
new_credential info response owner now = record {
  credential_id = info.credential_id;
  owner_id = owner;
  public_key = info.public_key;
  counter = info.counter;
  transports = transports_of info.transports response.transports;
  device_type = info.device_type;
  backed_up = info.backed_up;
  created_at = now;
}

-- `registrationOptions` before it awaits the options, and after, with the challenge that they have
unfoldable pub registration_options_check : ℕ → ℕ → Option ℕ → ℕ → Exec Trust Transaction
registration_options_check account binding_id token now = do
  t ← transaction account binding_id jpki_asserted now
  csrf t token
  pure t

unfoldable pub registration_options_finish : Transaction → ℕ → Exec Trust ℕ
registration_options_finish t challenge = do
  set_transaction t.binding_id (λ t. record t { registration_challenge = some challenge })
  pure challenge

unfoldable pub registration_options : ℕ → ℕ → Option ℕ → ℕ → ℕ → Exec Trust ℕ
registration_options account binding_id token challenge now = do
  t ← registration_options_check account binding_id token now
  registration_options_finish t challenge

-- `verifyRegistration` before it awaits the verification: the transaction and its challenge
unfoldable pub verify_registration_check : ℕ → ℕ → PasskeyForm → ℕ → Exec Trust (Transaction × ℕ)
verify_registration_check account binding_id body now = do
  t ← transaction account binding_id jpki_asserted now
  csrf t body.csrf_token
  challenge ← or_throw t.registration_challenge 409 passkey_options_required
  pure (t, challenge)

-- `verifyRegistrationResponse`: `none` where it throws, or verifies nothing
module _ (verify_registration_response : AuthenticatorResponse → ℕ → Option RegistrationInfo) where
  -- and after it
  unfoldable pub verify_registration_finish :
      ℕ → Transaction → ℕ → AuthenticatorResponse → ℕ → Exec Trust BindingState
  verify_registration_finish account t challenge response now = do
    info ←
        or_throw (verify_registration_response response challenge) 401 passkey_registration_invalid
    a ← gets (λ s. s.accounts account)
    on_store (save_webauthn_credential (new_credential info response a.account_id now))
    set_transaction t.binding_id (λ t. record t { registration_challenge = none })
    set_account account (λ a. record a { passkey_authenticated = true })
    transition t passkey_registered
        (record { wallet_address = none; passkey_credential_id = some info.credential_id }) now
    pure passkey_registered

  unfoldable pub verify_registration : ℕ → ℕ → PasskeyForm → ℕ → Exec Trust BindingState
  verify_registration account binding_id body now = do
    (t, challenge) ← verify_registration_check account binding_id body now
    verify_registration_finish account t challenge body.response now

-- `authenticationOptions`; `challenge` is the one of the library's options.
unfoldable pub authentication_options : ℕ → ℕ → Exec Trust ℕ
authentication_options account challenge = do
  a ← gets (λ s. s.accounts account)
  found ← gets (λ s. has_webauthn_credentials a.account_id s.store)
  require found 404 passkey_not_registered
  set_account account (λ a. record a { authentication_challenge = some challenge })
  pure challenge

-- `verifyAuthentication` before it awaits the verification: the challenge and the passkey
unfoldable pub verify_authentication_check : ℕ → AuthenticatorResponse → Exec Trust (ℕ × Credential)
verify_authentication_check account response = do
  a ← gets (λ s. s.accounts account)
  challenge ← or_throw a.authentication_challenge 409 passkey_options_required
  found ← gets (λ s. webauthn_credential response.id a.account_id s.store)
  stored ← or_throw found 401 passkey_credential_unknown
  pure (challenge, stored)

-- `verifyAuthenticationResponse`: the new counter, or `none` where it throws or verifies nothing
module _ (verify_authentication_response : AuthenticatorResponse → ℕ → Credential → Option ℕ) where
  -- and after it
  unfoldable pub verify_authentication_finish :
      ℕ → ℕ → Credential → AuthenticatorResponse → Exec Trust (Unit {0})
  verify_authentication_finish account challenge stored response = do
    counter ←
        or_throw (verify_authentication_response response challenge stored) 401
          passkey_authentication_invalid
    on_store (modify (update_webauthn_counter stored.credential_id counter))
    set_account account
        (λ a. record a { authentication_challenge = none; passkey_authenticated = true })

  unfoldable pub verify_authentication : ℕ → AuthenticatorResponse → Exec Trust (Unit {0})
  verify_authentication account response = do
    (challenge, stored) ← verify_authentication_check account response
    verify_authentication_finish account challenge stored response
