-- ===== src/Trust/Trails/Passkeys.antt =====
-- The passkey handlers keep the events of a binding the path to its state.
use creator_first_platform.Base.{
  ℕ, ◌==◌, ◌≡◌, refl, true, Option, none, some, if◌then◌else◌, arith, inl, inr, Option-cases,
}
use creator_first_platform.Base.Table.{select, update, insert}
use creator_first_platform.Base.Exec.{Result-cases}
use creator_first_platform.Trust.Store.{
  jpki_asserted, passkey_registered, Credential, has_credential_id, save_webauthn_credential,
  update_webauthn_counter,
}
use creator_first_platform.Trust.Service.{
  Transaction, Trust, has_transaction_id, transaction, csrf, set_transaction,
}
use creator_first_platform.Trust.Passkeys.{
  AuthenticatorResponse, RegistrationInfo, PasskeyForm, new_credential, registration_options_check,
  registration_options_finish, registration_options, verify_registration_check,
  verify_registration_finish, verify_registration, authentication_options,
  verify_authentication_check, verify_authentication_finish, verify_authentication,
}
use creator_first_platform.Trust.Trails.{IsTraced, object_state, quiet_object, transition-IsTraced}
use creator_first_platform.Trust.Trails.Handlers.{
  transaction_lem, object_lem, quiet-IsTraced, aside-IsTraced,
}

pub options-IsTraced :
    (account id : ℕ) (token : Option ℕ) (challenge now : ℕ) (s : Trust)
    → IsTraced s
    → IsTraced (registration_options account id token challenge now s).1
unfolding registration_options registration_options_check registration_options_finish csrf
options-IsTraced account id token challenge now s h =
    let same = (transaction_lem account id jpki_asserted now s).0 in
    elim (Result-cases (transaction account id jpki_asserted now s).0) [
      | inr (f, r) ↦ ground arith
      | inl (t, r) ↦
          let kept =
            quiet-IsTraced (λ t. record t { registration_challenge = some challenge }) (λ y. refl)
              (λ y. refl) t.binding_id s h in
          ground arith
    ]

module _ (verify_registration_response : AuthenticatorResponse → ℕ → Option RegistrationInfo) where
  pub registration_finish-IsTraced :
      (account : ℕ) (t : Transaction) (challenge : ℕ) (response : AuthenticatorResponse) (now : ℕ)
      (s : Trust)
      → object_state (select (has_transaction_id t.binding_id) s.transactions) ≡ some jpki_asserted
      → IsTraced s
      → IsTraced
          (verify_registration_finish verify_registration_response account t challenge response now
            s).1
  unfolding verify_registration_finish save_webauthn_credential
  registration_finish-IsTraced account t challenge response now s object h =
      elim (Option-cases (verify_registration_response response challenge)) [
        | inl refused ↦ ground arith
        | inr (info, verified) ↦
            let f : Transaction → Transaction = λ t. record t { registration_challenge = none } in
            let value = new_credential info response (s.accounts account).account_id now in
            let still =
              quiet_object f (λ y. refl) (λ y. refl) t.binding_id t.binding_id s.transactions in
            let quiet = quiet-IsTraced f (λ y. refl) (λ y. refl) t.binding_id s h in
            let aside =
              aside-IsTraced
                (λ a.
                  if a == account
                  then record (s.accounts a) { passkey_authenticated = true }
                  else s.accounts a)
                (insert value s.store.credentials) (set_transaction t.binding_id f s).1 quiet in
            let kept =
              transition-IsTraced t jpki_asserted passkey_registered
                (record { wallet_address = none; passkey_credential_id = some info.credential_id })
                now _ (rw still object) refl aside in
            ground arith
      ]

  pub registration-IsTraced :
      (account id : ℕ) (body : PasskeyForm) (now : ℕ) (s : Trust)
      → IsTraced s
      → IsTraced (verify_registration verify_registration_response account id body now s).1
  unfolding verify_registration verify_registration_check csrf
  registration-IsTraced account id body now s h =
      let same = (transaction_lem account id jpki_asserted now s).0 in
      elim (Result-cases (transaction account id jpki_asserted now s).0) [
        | inr (f, r) ↦ ground arith
        | inl (t, r) ↦
            let object = (object_lem account id jpki_asserted now s t r).0 in
            elim (Option-cases t.registration_challenge) [
              | inl missing ↦ ground arith
              | inr (challenge, drawn) ↦
                  let kept =
                    registration_finish-IsTraced account t challenge body.response now s object h in
                  ground arith
            ]
      ]

pub authentication_options-IsTraced :
    (account challenge : ℕ) (s : Trust)
    → IsTraced s
    → IsTraced (authentication_options account challenge s).1
unfolding authentication_options
authentication_options-IsTraced account challenge s h =
    let aside =
      aside-IsTraced
        (λ a.
          if a == account
          then record (s.accounts a) { authentication_challenge = some challenge }
          else s.accounts a)
        s.store.credentials s h in
    ground arith

module _ (verify_authentication_response : AuthenticatorResponse → ℕ → Credential → Option ℕ) where
  pub authentication-IsTraced :
      (account : ℕ) (response : AuthenticatorResponse) (s : Trust)
      → IsTraced s
      → IsTraced (verify_authentication verify_authentication_response account response s).1
  unfolding verify_authentication verify_authentication_check verify_authentication_finish
      update_webauthn_counter
  authentication-IsTraced account response s h =
      elim (Result-cases (verify_authentication_check account response s).0) [
        | inr (f, r) ↦ ground arith
        | inl ((challenge, stored), r) ↦
            elim (Option-cases (verify_authentication_response response challenge stored)) [
              | inl refused ↦ ground arith
              | inr (counter, verified) ↦
                  let aside =
                    aside-IsTraced
                      (λ a.
                        if a == account
                        then record (s.accounts a) {
                          authentication_challenge = none;
                          passkey_authenticated = true;
                        }
                        else s.accounts a)
                      (update (has_credential_id stored.credential_id)
                        (λ r. record r { counter = counter }) s.store.credentials)
                      s h in
                  ground arith
            ]
      ]
