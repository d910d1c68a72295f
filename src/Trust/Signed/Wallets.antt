-- ===== src/Trust/Signed/Wallets.antt =====
-- `walletOptions` and the two parts of `verifyWallet`.
use creator_first_platform.Base.{
  ℕ, ◌≡◌, refl, String, true, Option, none, some, ◌==◌, arith, inl, inr, subst, sym, Option-cases,
  Bool-cases, if◌then◌else◌, ◌/◌,
}
use creator_first_platform.Base.Table.{select}
use creator_first_platform.Base.Exec.{ok, Result-cases}
use creator_first_platform.Account.{Account}
use creator_first_platform.Trust.Store.{
  BindingState, passkey_registered, wallet_bound, active, same_state, Binding, has_binding_id,
}
use creator_first_platform.Trust.Service.{
  BindingMessage, WalletIntent, Transaction, Trust, has_transaction_id, transaction, csrf,
  transition, set_transaction,
}
use creator_first_platform.Trust.Wallets.{
  WalletForm, WalletProof, wallet_options, verify_wallet_check, verify_wallet_finish, wallet_detail,
  use_intent, new_intent, usable_intent, address_of,
}
use creator_first_platform.Trust.Trails.Handlers.{transaction_lem, object_lem}
use creator_first_platform.Trust.Signed.{
  Signs, IsGoodIntent, IsGoodObject, IsGoodAt, IsGood, has_passkey, settled, IsSettled,
  transition-IsGood, transition-IsSettled,
}
use creator_first_platform.Trust.Signed.Handlers.{quiet-IsGood, IsSettled-object}
use creator_first_platform.Trust.Signed.Awaits.{aside-IsGood, aside-IsSettled, Allows-at}

module _ (recover : BindingMessage → String → Option ℕ) where
  -- The object that `#transaction` has found, under its own identifier
  found_lem :
      (account id : ℕ) (expected : BindingState) (now : ℕ) (s : Trust) (t : Transaction)
      → (transaction account id expected now s).0 ≡ ok t
      → (select (has_transaction_id t.binding_id) s.transactions ≡ some t)
        × (same_state t.state expected ≡ true)
  found_lem account id expected now s t r =
      let (found, owner, state, time) = (transaction_lem account id expected now s).1 t r in
      let same = (object_lem account id expected now s t r).1 in
      (subst (λ k. select (has_transaction_id k) s.transactions ≡ some t) (sym same) found, state)

  module _ (get_address : ℕ → Option ℕ) (chain_id : ℕ) where
    pub options-IsGood :
        (account id : ℕ) (body : WalletForm) (nonce now : ℕ) (s : Trust)
        → IsGood recover s
        → IsGood recover (wallet_options get_address chain_id account id body nonce now s).1
          × ((k commitment : ℕ)
              → IsSettled k commitment s
              → IsSettled k commitment
                  (wallet_options get_address chain_id account id body nonce now s).1)
    unfolding wallet_options csrf IsGoodObject
    options-IsGood account id body nonce now s h =
        let same = (transaction_lem account id passkey_registered now s).0 in
        elim (Result-cases (transaction account id passkey_registered now s).0) [
          | inr (f, r) ↦ (ground arith, λ k c settles. ground arith)
          | inl (t, r) ↦ elim (Option-cases (address_of get_address body.wallet_address)) [
            | inl missing ↦ (ground arith, λ k c settles. ground arith)
            | inr (w, valid) ↦
                let f : Transaction → Transaction = λ y. record y {
                  wallet_intent = some (new_intent t w chain_id nonce (now / 1000));
                } in
                let (found, state) = found_lem account id passkey_registered now s t r in
                let kept =
                  quiet-IsGood recover f (λ y. refl) t.binding_id s
                    (λ o b there good.
                      let own : t.account_subject_commitment ≡ o.account_subject_commitment =
                        ground arith in
                      (good.0, good.1, λ i e. (ground arith, ground arith)))
                    h in
                (
                  ground arith,
                  λ k c settles.
                      let still = IsSettled-object recover f t.binding_id k c s settles in
                      ground arith,
                )
          ]
        ]

  settled_row :
      (o : Option Transaction) (r : Option Binding) (t : Transaction)
      → o ≡ some t
      → has_passkey t.state ≡ true
      → IsGoodAt recover o r
      → (settled r ≡ some t.account_subject_commitment)
        × ((i : WalletIntent)
            → t.wallet_intent ≡ some i
            → IsGoodIntent recover t.account_subject_commitment i)
  unfolding IsGoodObject
  settled_row none r t e state h = absurd (ground arith)
  settled_row (some o) none t e state h = absurd h
  settled_row (some o) (some r) t e state h =
      let good : IsGoodObject recover t r =
        let same : o ≡ t = ground arith in subst (λ x. IsGoodObject recover x r) same h.1 in
      let present = good.1 state in (ground (arith, good.0), good.2)

  registered_lem :
      (state : BindingState) → same_state state passkey_registered ≡ true → has_passkey state ≡ true
  registered_lem passkey_registered h = refl
  registered_lem _ h = absurd (ground arith)

  usable_lem :
      (o : Option WalletIntent) (now : ℕ) (i : WalletIntent)
      → usable_intent o now ≡ some i
      → o ≡ some i
  usable_lem none now i h = absurd (ground arith)
  usable_lem (some j) now i h = ground arith

  -- What `verifyWallet` has found when it awaits
  pub check_lem :
      (account id : ℕ) (body : WalletProof) (now : ℕ) (s : Trust) (t : Transaction)
      (i : WalletIntent)
      → IsGood recover s
      → (verify_wallet_check account id body now s).0 ≡ ok (t, i)
      → IsSettled t.binding_id t.account_subject_commitment s
        × IsGoodIntent recover t.account_subject_commitment i
  unfolding verify_wallet_check csrf IsGood IsSettled
  check_lem account id body now s t i h e =
      elim (Result-cases (transaction account id passkey_registered now s).0) [
        | inr (f, r) ↦ absurd (ground arith)
        | inl (u, r) ↦
            let same = (transaction_lem account id passkey_registered now s).0 in
            let (found, state) = found_lem account id passkey_registered now s u r in
            let past : has_passkey u.state ≡ true = registered_lem u.state state in
            let (settles, intents) =
              settled_row (select (has_transaction_id u.binding_id) s.transactions)
                (select (has_binding_id u.binding_id) s.store.bindings) u found past
                (h u.binding_id) in
            let own : u ≡ t = ground arith in
            let read : usable_intent u.wallet_intent now ≡ some i = ground arith in
            let intent = usable_lem u.wallet_intent now i read in
            subst
              (λ y.
                IsSettled y.binding_id y.account_subject_commitment s
                × IsGoodIntent recover y.account_subject_commitment i)
              own (settles, intents i intent)
      ]

  intent_used :
      (commitment : ℕ) (i : WalletIntent) (o : Option WalletIntent) (j : WalletIntent)
      → ((x : WalletIntent) → o ≡ some x → IsGoodIntent recover commitment x)
      → use_intent i o ≡ some j
      → IsGoodIntent recover commitment j
  intent_used commitment i none j h e = absurd (ground arith)
  intent_used commitment i (some x) j h e =
      let good = h x refl in (ground (arith, good.0), ground (arith, good.1))

  -- After the await, with what was found before it: a wallet is bound where it has signed.
  pub wallet-IsGood :
      (account : ℕ) (t : Transaction) (i : WalletIntent) (signature : String) (now : ℕ) (s : Trust)
      → IsSettled t.binding_id t.account_subject_commitment s
      → IsGoodIntent recover t.account_subject_commitment i
      → IsGood recover s
      → let s' = (verify_wallet_finish recover account t i signature now s).1 in
        IsGood recover s'
        × ((k commitment : ℕ) → IsSettled k commitment s → IsSettled k commitment s')
  unfolding verify_wallet_finish IsGoodObject
  wallet-IsGood account t i signature now s settles intent h =
      let c = t.account_subject_commitment in
      let f : Transaction → Transaction =
        λ t. record t { wallet_intent = use_intent i t.wallet_intent } in
      let accounts : ℕ → Account = λ a.
        if a == account
        then record (s.accounts a) { wallet_address = some i.wallet_address }
        else s.accounts a in
      let detail = wallet_detail i.wallet_address in
      let s1 = (set_transaction t.binding_id f s).1 in
      let s2 : Trust = record s1 { accounts = accounts } in
      let s3 = (transition t wallet_bound detail now s2).1 in
      let begun : (k commitment : ℕ) → IsSettled k commitment s → IsSettled k commitment s2 =
        λ k c e.
          aside-IsSettled recover k c accounts s.store.credentials s1
            (IsSettled-object recover f t.binding_id k c s e) in
      let bound : (k commitment : ℕ) → IsSettled k commitment s → IsSettled k commitment s3 =
        λ k c e. transition-IsSettled t wallet_bound detail now k c s2 (begun k c e) in
      let quiet =
        quiet-IsGood recover f (λ y. refl) t.binding_id s
          (λ o b found good. (
            good.0,
            good.1,
            λ j e. intent_used o.account_subject_commitment i o.wallet_intent j good.2 e,
          ))
          h in
      let aside = aside-IsGood recover accounts s.store.credentials s1 quiet in
      elim (Option-cases (recover i.typed_data signature)) [
        | inl invalid ↦ (ground arith, λ k c e. ground arith)
        | inr (w, recovered) ↦ elim (Bool-cases (w == i.wallet_address)) [
          | inr other ↦ (ground arith, λ k c e. ground arith)
          | inl own ↦
              let signed : recover i.typed_data signature ≡ some i.wallet_address = ground arith in
              let signs : Signs recover i.wallet_address c =
                (i.typed_data, signature, signed, intent.0, intent.1) in
              let kept =
                transition-IsGood recover t wallet_bound detail now s2
                  (Allows-at recover t wallet_bound i.wallet_address c s2
                    (begun t.binding_id c settles) signs)
                  aside in
              let done =
                transition-IsGood recover t active detail now s3
                  (Allows-at recover t active i.wallet_address c s3 (bound t.binding_id c settles)
                    signs)
                  kept in
              (
                ground arith,
                λ k c e.
                    let middle = bound k c e in
                    let last = transition-IsSettled t active detail now k c s3 middle in
                    ground arith,
              )
        ]
      ]
