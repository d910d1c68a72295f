-- ===== src/Trust/Trails/Wallets.antt =====
-- The wallet handlers keep the events of a binding the path to its state.
use creator_first_platform.Base.{
  ℕ, ◌/◌, ◌==◌, ◌≡◌, refl, String, Option, some, if◌then◌else◌, arith, inl, inr, Option-cases,
}
use creator_first_platform.Base.Table.{select}
use creator_first_platform.Base.Exec.{Result-cases}
use creator_first_platform.Trust.Store.{passkey_registered, wallet_bound, active}
use creator_first_platform.Trust.Service.{
  Transaction, Trust, BindingMessage, WalletIntent, has_transaction_id, transaction, csrf,
  set_transaction,
}
use creator_first_platform.Trust.Wallets.{
  WalletForm, WalletProof, wallet_options, verify_wallet_check, verify_wallet_finish, verify_wallet,
  wallet_detail, use_intent, new_intent, usable_intent, address_of,
}
use creator_first_platform.Trust.Trails.{
  IsTraced, object_state, quiet_object, transition-IsTraced, transition_object,
}
use creator_first_platform.Trust.Trails.Handlers.{
  transaction_lem, object_lem, quiet-IsTraced, aside-IsTraced,
}

module _ (get_address : ℕ → Option ℕ) (chain_id : ℕ) where
  pub wallet_options-IsTraced :
      (account id : ℕ) (body : WalletForm) (nonce now : ℕ) (s : Trust)
      → IsTraced s
      → IsTraced (wallet_options get_address chain_id account id body nonce now s).1
  unfolding wallet_options csrf
  wallet_options-IsTraced account id body nonce now s h =
      let same = (transaction_lem account id passkey_registered now s).0 in
      elim (Result-cases (transaction account id passkey_registered now s).0) [
        | inr (f, r) ↦ ground arith
        | inl (t, r) ↦ elim (Option-cases (address_of get_address body.wallet_address)) [
          | inl missing ↦ ground arith
          | inr (w, valid) ↦
              let kept =
                quiet-IsTraced
                  (λ y. record y {
                    wallet_intent = some (new_intent t w chain_id nonce (now / 1000));
                  })
                  (λ y. refl) (λ y. refl) t.binding_id s h in
              ground arith
        ]
      ]

module _ (recover : BindingMessage → String → Option ℕ) where
  pub wallet_finish-IsTraced :
      (account : ℕ) (t : Transaction) (i : WalletIntent) (signature : String) (now : ℕ) (s : Trust)
      → object_state (select (has_transaction_id t.binding_id) s.transactions)
        ≡ some passkey_registered
      → IsTraced s
      → IsTraced (verify_wallet_finish recover account t i signature now s).1
  unfolding verify_wallet_finish
  wallet_finish-IsTraced account t i signature now s object h =
      let f : Transaction → Transaction =
        λ t. record t { wallet_intent = use_intent i t.wallet_intent } in
      let still = quiet_object f (λ y. refl) (λ y. refl) t.binding_id t.binding_id s.transactions in
      let quiet = quiet-IsTraced f (λ y. refl) (λ y. refl) t.binding_id s h in
      let aside =
        aside-IsTraced
          (λ a.
            if a == account
            then record (s.accounts a) { wallet_address = some i.wallet_address }
            else s.accounts a)
          s.store.credentials (set_transaction t.binding_id f s).1 quiet in
      let detail = wallet_detail i.wallet_address in
      let before : object_state (
            select (has_transaction_id t.binding_id)
              (set_transaction t.binding_id f s).1.transactions)
          ≡ some passkey_registered =
        rw still object in
      let bound =
        transition-IsTraced t passkey_registered wallet_bound detail now _ before refl aside in
      let middle = transition_object t passkey_registered wallet_bound detail now _ before in
      let done = transition-IsTraced t wallet_bound active detail now _ middle refl bound in
      ground arith

  pub wallet-IsTraced :
      (account id : ℕ) (body : WalletProof) (now : ℕ) (s : Trust)
      → IsTraced s
      → IsTraced (verify_wallet recover account id body now s).1
  unfolding verify_wallet verify_wallet_check csrf
  wallet-IsTraced account id body now s h =
      let same = (transaction_lem account id passkey_registered now s).0 in
      elim (Result-cases (transaction account id passkey_registered now s).0) [
        | inr (f, r) ↦ ground arith
        | inl (t, r) ↦
            let object = (object_lem account id passkey_registered now s t r).0 in
            elim (Option-cases (usable_intent t.wallet_intent now)) [
              | inl missing ↦ ground arith
              | inr (i, usable) ↦
                  let kept = wallet_finish-IsTraced account t i body.signature now s object h in
                  ground arith
            ]
      ]
