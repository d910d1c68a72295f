-- ===== src/Trust/Trails/Handlers.antt =====
-- `#transaction`, and the mock JPKI assertion: it keeps the events of a binding the path to its
-- state.
use creator_first_platform.Base.{
  ℕ, ◌<◌, ◌≡◌, refl, true, none, some, List, arith, inl, inr, subst, sym, ap,
}
use creator_first_platform.Base.Table.{select, select_holds}
use creator_first_platform.Base.Exec.{ok, Result-cases}
use creator_first_platform.Account.{Account}
use creator_first_platform.Trust.Store.{
  BindingState, created, jpki_asserted, passkey_registered, wallet_bound, active, same_state,
  Credential,
}
use creator_first_platform.Trust.Service.{
  Transaction, Trust, AssertForm, no_detail, has_transaction_id, transaction, csrf,
  assert_mock_jpki, set_transaction,
}
use creator_first_platform.Trust.Trails.{
  IsTraced, object_state, quiet_object, transition-IsTraced, same-IsTraced,
}

-- What `#transaction` answers: the object of the binding, in the expected state
pub transaction_lem :
    (account id : ℕ) (expected : BindingState) (now : ℕ) (s : Trust)
    → ((transaction account id expected now s).1 ≡ s)
      × ((t : Transaction)
          → (transaction account id expected now s).0 ≡ ok t
          → (select (has_transaction_id id) s.transactions ≡ some t)
            × (t.owner_id ≡ (s.accounts account).account_id)
            × (same_state t.state expected ≡ true)
            × (now < t.expires_at))
unfolding transaction
transaction_lem account id expected now s =
    (ground arith, λ t r. (ground arith, ground arith, ground arith, ground arith))

same_state_lem : (a b : BindingState) → same_state a b ≡ true → a ≡ b
same_state_lem created created h = refl
same_state_lem jpki_asserted jpki_asserted h = refl
same_state_lem passkey_registered passkey_registered h = refl
same_state_lem wallet_bound wallet_bound h = refl
same_state_lem active active h = refl
same_state_lem _ _ h = absurd (ground arith)

-- The state of the object that `#transaction` has found, under its own identifier
pub object_lem :
    (account id : ℕ) (expected : BindingState) (now : ℕ) (s : Trust) (t : Transaction)
    → (transaction account id expected now s).0 ≡ ok t
    → (object_state (select (has_transaction_id t.binding_id) s.transactions) ≡ some expected)
      × (t.binding_id ≡ id)
object_lem account id expected now s t r =
    let (found, owner, state, time) = (transaction_lem account id expected now s).1 t r in
    let same : id ≡ t.binding_id =
      ground (arith, select_holds (has_transaction_id id) t s.transactions found) in
    (
      subst (λ k. object_state (select (has_transaction_id k) s.transactions) ≡ some expected) same
          (rw found (ap some (same_state_lem t.state expected state))),
      sym same,
    )

-- A write to an object that leaves its state alone
pub quiet-IsTraced :
    (f : Transaction → Transaction)
    → ((t : Transaction) → (f t).binding_id ≡ t.binding_id)
    → ((t : Transaction) → (f t).state ≡ t.state)
    → (id : ℕ) (s : Trust) → IsTraced s
    → IsTraced (set_transaction id f s).1
quiet-IsTraced f keep quiet id s h =
    same-IsTraced s (set_transaction id f s).1 refl refl
      (λ k. quiet_object f keep quiet k id s.transactions) h

pub assert-IsTraced :
    (account id : ℕ) (body : AssertForm) (now : ℕ) (s : Trust)
    → IsTraced s
    → IsTraced (assert_mock_jpki account id body now s).1
unfolding assert_mock_jpki csrf
assert-IsTraced account id body now s h =
    let same = (transaction_lem account id created now s).0 in
    elim (Result-cases (transaction account id created now s).0) [
      | inr (f, r) ↦ ground arith
      | inl (t, r) ↦
          let object = (object_lem account id created now s t r).0 in
          let f : Transaction → Transaction = λ t. record t { jpki_challenge = none } in
          let quiet = quiet-IsTraced f (λ y. refl) (λ y. refl) t.binding_id s h in
          let still =
            quiet_object f (λ y. refl) (λ y. refl) t.binding_id t.binding_id s.transactions in
          let kept =
            transition-IsTraced t created jpki_asserted no_detail now
              (set_transaction t.binding_id f s).1 (rw still object) refl quiet in
          ground arith
    ]

-- Passkeys and accounts have no part in it.
pub aside-IsTraced :
    (accounts : ℕ → Account) (credentials : List Credential) (s : Trust)
    → IsTraced s
    → IsTraced
        (record s { accounts = accounts; store = record s.store { credentials = credentials } })
aside-IsTraced accounts credentials s h =
    same-IsTraced s
      (record s { accounts = accounts; store = record s.store { credentials = credentials } }) refl
      refl (λ k. refl) h
