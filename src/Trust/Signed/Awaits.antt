-- ===== src/Trust/Signed/Awaits.antt =====
-- The parts of the handlers after their awaits, whatever has happened in between.
use creator_first_platform.Base.{
  ℕ, ◌≡◌, refl, String, true, Option, none, some, List, ◌==◌, arith, inl, inr, subst, Option-cases,
  if◌then◌else◌,
}
use creator_first_platform.Base.Table.{select, insert}
use creator_first_platform.Account.{Account}
use creator_first_platform.Trust.Store.{
  BindingState, passkey_registered, Binding, Credential, has_binding_id, save_webauthn_credential,
}
use creator_first_platform.Trust.Service.{
  BindingMessage, Transaction, Trust, Detail, set_transaction,
}
use creator_first_platform.Trust.Passkeys.{
  AuthenticatorResponse, RegistrationInfo, new_credential, registration_options_finish,
  verify_registration_finish,
}
use creator_first_platform.Trust.Wallets.{wallet_detail}
use creator_first_platform.Trust.Signed.{
  Signs, IsGoodObject, IsGood, is_set, settled, IsSettled, Allows, transition-IsGood,
  transition-IsSettled,
}
use creator_first_platform.Trust.Signed.Handlers.{quiet-IsGood, IsSettled-object}

module _ (recover : BindingMessage → String → Option ℕ) where
  pub options-IsGood :
      (t : Transaction) (challenge : ℕ) (s : Trust)
      → IsGood recover s
      → IsGood recover (registration_options_finish t challenge s).1
  unfolding registration_options_finish IsGoodObject
  options-IsGood t challenge s h =
      quiet-IsGood recover (λ t. record t { registration_challenge = some challenge }) (λ y. refl)
        t.binding_id s (λ t b found good. good) h

  pub aside-IsGood :
      (accounts : ℕ → Account) (credentials : List Credential) (s : Trust)
      → IsGood recover s
      → IsGood recover
          (record s { accounts = accounts; store = record s.store { credentials = credentials } })
  unfolding IsGood
  aside-IsGood accounts credentials s h k = h k

  pub aside-IsSettled :
      (k commitment : ℕ) (accounts : ℕ → Account) (credentials : List Credential) (s : Trust)
      → IsSettled k commitment s
      → IsSettled k commitment
          (record s { accounts = accounts; store = record s.store { credentials = credentials } })
  unfolding IsSettled
  aside-IsSettled k commitment accounts credentials s h = h

  Allows-registered :
      (id : ℕ) (r : Option Binding)
      → Allows recover passkey_registered
          (record { wallet_address = none; passkey_credential_id = some id })
          r
  Allows-registered id none = tt
  Allows-registered id (some r) = (
    λ n. refl,
    λ n. absurd (ground arith),
    λ n. absurd (ground arith),
    λ w e. absurd (ground arith),
  )

  Allows-wallet :
      (state : BindingState) (w commitment : ℕ) (r : Option Binding)
      → settled r ≡ some commitment
      → Signs recover w commitment
      → Allows recover state (wallet_detail w) r
  Allows-wallet state w commitment none a signs = tt
  Allows-wallet state w commitment (some r) a signs =
      let present : is_set r.passkey_credential_id ≡ true = ground arith in
      let same : commitment ≡ r.account_subject_commitment = ground arith in
      (
        λ n. present,
        λ n. present,
        λ n. refl,
        λ v e.
            subst (λ c. Signs recover v c) same
              (subst (λ n. Signs recover n commitment) (ground arith) signs),
      )

  pub Allows-at :
      (t : Transaction) (state : BindingState) (w commitment : ℕ) (s : Trust)
      → IsSettled t.binding_id commitment s
      → Signs recover w commitment
      → Allows recover state
          (wallet_detail w)
          (select (has_binding_id t.binding_id) s.store.bindings)
  unfolding IsSettled
  Allows-at t state w commitment s settles signs =
      Allows-wallet state w commitment (select (has_binding_id t.binding_id) s.store.bindings)
        settles signs

  module _
      (verify_registration_response : AuthenticatorResponse → ℕ → Option RegistrationInfo) where
    pub registration-IsGood :
        (account : ℕ) (t : Transaction) (challenge : ℕ) (response : AuthenticatorResponse) (now : ℕ)
        (s : Trust)
        → IsGood recover s
        → let s' =
            (verify_registration_finish verify_registration_response account t challenge response
              now s).1 in
          IsGood recover s'
          × ((k commitment : ℕ) → IsSettled k commitment s → IsSettled k commitment s')
    unfolding verify_registration_finish save_webauthn_credential IsGoodObject
    registration-IsGood account t challenge response now s h =
        elim (Option-cases (verify_registration_response response challenge)) [
          | inl refused ↦ (ground arith, λ k c settles. ground arith)
          | inr (info, verified) ↦
              let f : Transaction → Transaction = λ t. record t { registration_challenge = none } in
              let accounts : ℕ → Account = λ a.
                if a == account
                then record (s.accounts a) { passkey_authenticated = true }
                else s.accounts a in
              let rows =
                insert (new_credential info response (s.accounts account).account_id now)
                  s.store.credentials in
              let detail : Detail = record {
                wallet_address = none;
                passkey_credential_id = some info.credential_id;
              } in
              let quiet =
                quiet-IsGood recover f (λ y. refl) t.binding_id s (λ t b found good. good) h in
              let aside = aside-IsGood accounts rows (set_transaction t.binding_id f s).1 quiet in
              let kept =
                transition-IsGood recover t passkey_registered detail now _
                  (Allows-registered info.credential_id _) aside in
              (
                ground arith,
                λ k c settles.
                    let still = transition-IsSettled t passkey_registered detail now k c _ (
                      aside-IsSettled k c accounts rows (set_transaction t.binding_id f s).1
                        (IsSettled-object recover f t.binding_id k c s settles)) in
                    ground arith,
              )
        ]
