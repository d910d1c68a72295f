-- ===== src/Trust/Completes.antt =====
-- Each handler of a binding that is in order takes it one state further.
use creator_first_platform.Base.{
  ℕ, ◌<◌, ◌≡◌, refl, String, true, false, Option, some, List, [], ◌∷◌, ◌==◌, arith, subst, sym,
  if◌then◌else◌,
}
use creator_first_platform.Base.Table.{select, update, count, select_holds}
use creator_first_platform.Base.Table.Keyed.{select-update_each}
use creator_first_platform.Base.Exec.{ok}
use creator_first_platform.Account.{Account}
use creator_first_platform.Trust.Store.{
  BindingState, created, jpki_asserted, passkey_registered, wallet_bound, active, same_state,
  Binding, BindingUpdate, has_binding_id, set_binding, breaks_active_index, is_other_active,
}
use creator_first_platform.Trust.Service.{
  BindingMessage, WalletIntent, Transaction, Trust, Detail, is_token, has_transaction_id,
  transaction, csrf, transition, set_transaction,
}
use creator_first_platform.Trust.Wallets.{
  WalletProof, verify_wallet, verify_wallet_check, verify_wallet_finish, wallet_detail, use_intent,
  usable_intent,
}
use creator_first_platform.Trust.Trails.{value_of, is_stopped, transition_written}

same_state_refl : (a : BindingState) → same_state a a ≡ true
same_state_refl created = refl
same_state_refl jpki_asserted = refl
same_state_refl passkey_registered = refl
same_state_refl wallet_bound = refl
same_state_refl active = refl

-- `#transaction` answers an account that owns the transaction, in its time and its state.
transaction_answers :
    (account k : ℕ) (t : Transaction) (now : ℕ) (s : Trust)
    → select (has_transaction_id k) s.transactions ≡ some t
    → t.owner_id ≡ (s.accounts account).account_id
    → now < t.expires_at
    → transaction account k t.state now s ≡ (ok t, s)
unfolding transaction
transaction_answers account k t now s found owns time =
    let same = same_state_refl t.state in ground arith

-- The update of a row leaves the number of other ACTIVE rows.
count_others :
    (owner k : ℕ) (value : BindingUpdate) (rows : List Binding)
    → count (is_other_active owner k) (update (has_binding_id k) (set_binding value) rows)
      ≡ count (is_other_active owner k) rows
unfolding count update
count_others owner k value [] = refl
count_others owner k value (x ∷ rows) = ground (arith, count_others owner k value rows)

alone_lem :
    (k : ℕ) (r : Binding) (rows : List Binding)
    → select (has_binding_id k) rows ≡ some r
    → count (is_other_active r.owner_id k) rows ≡ 0
    → breaks_active_index k rows ≡ false
unfolding breaks_active_index
alone_lem k r rows found none_other = ground arith

-- A transition that the index does not stop
row_moves :
    (t : Transaction) (r : Binding) (state : BindingState) (detail : Detail) (now owner : ℕ)
    (s : Trust)
    → is_stopped t state detail now s ≡ false
    → select (has_binding_id t.binding_id) s.store.bindings ≡ some r
    → let (answer, s') = transition t state detail now s in
      (answer ≡ ok tt)
      × (select (has_binding_id t.binding_id) s'.store.bindings
          ≡ some (set_binding (value_of t state detail now s) r))
      × (s'.accounts ≡ s.accounts)
      × (count (is_other_active owner t.binding_id) s'.store.bindings
          ≡ count (is_other_active owner t.binding_id) s.store.bindings)
row_moves t r state detail now owner s free found =
    let rows =
      select-update_each (λ (r : Binding). r.binding_id)
        (set_binding (value_of t state detail now s)) (λ y. refl) t.binding_id t.binding_id
        s.store.bindings in
    rw (transition_written t state detail now s free) (
      refl,
      ground arith,
      refl,
      count_others owner t.binding_id (value_of t state detail now s) s.store.bindings,
    )

module _ (recover : BindingMessage → String → Option ℕ) where
  finish_completes :
      (account : ℕ) (t : Transaction) (r : Binding) (i : WalletIntent) (signature : String)
      (now : ℕ) (s : Trust)
      → select (has_binding_id t.binding_id) s.store.bindings ≡ some r
      → recover i.typed_data signature ≡ some i.wallet_address
      → count (is_other_active r.owner_id t.binding_id) s.store.bindings ≡ 0
      → let (answer, s') = verify_wallet_finish recover account t i signature now s in
        (answer ≡ ok active)
        × (select (has_binding_id t.binding_id) s'.store.bindings
            ≡ some (record r {
              state = active;
              wallet_address = some i.wallet_address;
              updated_at = now;
            }))
        × ((s'.accounts account).wallet_address ≡ some i.wallet_address)
  unfolding verify_wallet_finish
  finish_completes account t r i signature now s found signed alone =
      let k = t.binding_id in
      let f : Transaction → Transaction =
        λ t. record t { wallet_intent = use_intent i t.wallet_intent } in
      let accounts : ℕ → Account = λ a.
        if a == account
        then record (s.accounts a) { wallet_address = some i.wallet_address }
        else s.accounts a in
      let detail = wallet_detail i.wallet_address in
      let s2 : Trust = record (set_transaction k f s).1 { accounts = accounts } in
      let s3 = (transition t wallet_bound detail now s2).1 in
      let (ok1, row1, accounts1, others1) =
        row_moves t r wallet_bound detail now r.owner_id s2 refl found in
      let bound = set_binding (value_of t wallet_bound detail now s2) r in
      let free : breaks_active_index k s3.store.bindings ≡ false =
        alone_lem k bound s3.store.bindings row1 (ground (arith, others1)) in
      let (ok2, row2, accounts2, others2) =
        row_moves t bound active detail now r.owner_id s3 free row1 in
      let own : (s2.accounts account).wallet_address ≡ some i.wallet_address = ground arith in
      (ground arith, ground arith, ground arith)

  check_completes :
      (account k : ℕ) (body : WalletProof) (t : Transaction) (i : WalletIntent) (now : ℕ)
      (s : Trust)
      → transaction account k passkey_registered now s ≡ (ok t, s)
      → body.csrf_token ≡ some t.csrf_token
      → usable_intent t.wallet_intent now ≡ some i
      → verify_wallet_check account k body now s ≡ (ok (t, i), s)
  unfolding verify_wallet_check csrf
  check_completes account k body t i now s answers token usable =
      let accepted : is_token body.csrf_token t.csrf_token ≡ true = ground arith in
      rw (answers, accepted, usable) refl

  verify_checked :
      (account k : ℕ) (body : WalletProof) (t : Transaction) (i : WalletIntent) (now : ℕ)
      (s : Trust)
      → verify_wallet_check account k body now s ≡ (ok (t, i), s)
      → verify_wallet recover account k body now s
        ≡ verify_wallet_finish recover account t i body.signature now s
  unfolding verify_wallet
  verify_checked account k body t i now s checked = rw checked refl

  -- `verifyWallet` of a transaction that the account owns, in its time and PASSKEY_REGISTERED,
  -- with its CSRF token, an intent that can be used, whose wallet has signed its message, and no
  -- other ACTIVE row of the owner, answers ACTIVE, and leaves the row ACTIVE and the row and the
  -- account with the wallet of the intent.
  pub wallet_completes :
      (account k : ℕ) (body : WalletProof) (t : Transaction) (r : Binding) (i : WalletIntent)
      (now : ℕ) (s : Trust)
      → select (has_transaction_id k) s.transactions ≡ some t
      → select (has_binding_id k) s.store.bindings ≡ some r
      → t.owner_id ≡ (s.accounts account).account_id
      → now < t.expires_at
      → t.state ≡ passkey_registered
      → body.csrf_token ≡ some t.csrf_token
      → usable_intent t.wallet_intent now ≡ some i
      → recover i.typed_data body.signature ≡ some i.wallet_address
      → count (is_other_active r.owner_id k) s.store.bindings ≡ 0
      → let (answer, s') = verify_wallet recover account k body now s in
        (answer ≡ ok active)
        × (select (has_binding_id k) s'.store.bindings
            ≡ some (record r {
              state = active;
              wallet_address = some i.wallet_address;
              updated_at = now;
            }))
        × ((s'.accounts account).wallet_address ≡ some i.wallet_address)
  wallet_completes account k body t r i now s found row owns time ready token usable signed alone =
      let own : t.binding_id ≡ k =
        ground (arith, select_holds (has_transaction_id k) t s.transactions found) in
      let answers : transaction account k passkey_registered now s ≡ (ok t, s) =
        subst (λ st. transaction account k st now s ≡ (ok t, s)) ready
          (transaction_answers account k t now s found owns time) in
      let row' : select (has_binding_id t.binding_id) s.store.bindings ≡ some r =
        subst (λ n. select (has_binding_id n) s.store.bindings ≡ some r) (sym own) row in
      let alone' : count (is_other_active r.owner_id t.binding_id) s.store.bindings ≡ 0 =
        subst (λ n. count (is_other_active r.owner_id n) s.store.bindings ≡ 0) (sym own) alone in
      let (done, state, linked) =
        finish_completes account t r i body.signature now s row' signed alone' in
      let checked = check_completes account k body t i now s answers token usable in
      let same = verify_checked account k body t i now s checked in
      rw same (
        done,
        subst
            (λ n.
              select (has_binding_id n)
                (verify_wallet_finish recover account t i body.signature now s).1.store.bindings
              ≡ some (record r {
                state = active;
                wallet_address = some i.wallet_address;
                updated_at = now;
              }))
            own state,
        linked,
      )
