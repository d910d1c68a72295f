-- ===== src/Trust/Histories.antt =====
-- Histories of the handlers of an account's trust binding, each run to its end.
use creator_first_platform.Base.{ℕ, ◌≡◌, refl, String, Option, none, List, [], ◌∷◌, arith}
use creator_first_platform.Base.Table.{select}
use creator_first_platform.Account.{Account}
use creator_first_platform.Trust.Store.{Credential, has_binding_id}
use creator_first_platform.Trust.Service.{
  Trust, Drawn, AssertForm, BindingMessage, begin, assert_mock_jpki,
}
use creator_first_platform.Trust.Passkeys.{
  AuthenticatorResponse, RegistrationInfo, PasskeyForm, registration_options, verify_registration,
  authentication_options, verify_authentication,
}
use creator_first_platform.Trust.Wallets.{WalletForm, WalletProof, wallet_options, verify_wallet}
use creator_first_platform.Trust.Trails.{IsTraced, trail, path_to, row_state}
use creator_first_platform.Trust.Trails.Begins.{begin-IsTraced}
use creator_first_platform.Trust.Trails.Handlers.{assert-IsTraced, aside-IsTraced}
use creator_first_platform.Trust.Trails.Passkeys.{
  options-IsTraced, registration-IsTraced, authentication_options-IsTraced, authentication-IsTraced,
}
use creator_first_platform.Trust.Trails.Wallets.{wallet_options-IsTraced, wallet-IsTraced}

-- A call of a handler for an account, with what it draws at random, or another write to the
-- accounts, or a restart of the process, which leaves only the database.
pub data Step : Type 0 where
  begins : ℕ → Drawn → Step
  asserts : ℕ → ℕ → AssertForm → Step
  asks_registration : ℕ → ℕ → Option ℕ → ℕ → Step
  registers : ℕ → ℕ → PasskeyForm → Step
  asks_authentication : ℕ → ℕ → Step
  authenticates : ℕ → AuthenticatorResponse → Step
  asks_wallet : ℕ → ℕ → WalletForm → ℕ → Step
  binds : ℕ → ℕ → WalletProof → Step
  writes_accounts : (ℕ → Account) → Step
  restarts : (ℕ → Account) → Step

module _ (ttl : ℕ)
    (verify_registration_response : AuthenticatorResponse → ℕ → Option RegistrationInfo)
    (verify_authentication_response : AuthenticatorResponse → ℕ → Credential → Option ℕ)
    (get_address : ℕ → Option ℕ) (chain_id : ℕ) (recover : BindingMessage → String → Option ℕ) where
  unfoldable pub step : Trust → ℕ × Step → Trust
  step s (now, begins account drawn) = (begin ttl account drawn now s).1
  step s (now, asserts account id body) = (assert_mock_jpki account id body now s).1
  step s (now, asks_registration account id token challenge) =
      (registration_options account id token challenge now s).1
  step s (now, registers account id body) =
      (verify_registration verify_registration_response account id body now s).1
  step s (now, asks_authentication account challenge) =
      (authentication_options account challenge s).1
  step s (now, authenticates account response) =
      (verify_authentication verify_authentication_response account response s).1
  step s (now, asks_wallet account id body nonce) =
      (wallet_options get_address chain_id account id body nonce now s).1
  step s (now, binds account id body) = (verify_wallet recover account id body now s).1
  step s (now, writes_accounts accounts) = record s { accounts = accounts }
  step s (now, restarts accounts) = record s { transactions = []; accounts = accounts }

  unfoldable pub run : Trust → List (ℕ × Step) → Trust
  run s [] = s
  run s (e ∷ es) = run (step s e) es

  -- `randomUUID` draws no identifier that a binding has.
  abbrev pub DrawsFresh : Step → Trust → Type 0
  DrawsFresh (begins account drawn) s =
      select (has_binding_id drawn.binding_id) s.store.bindings ≡ none
  DrawsFresh _ s = Unit {0}

  unfoldable pub AreFresh : Trust → List (ℕ × Step) → Type 0
  AreFresh s [] = Unit {0}
  AreFresh s ((now, e) ∷ es) = DrawsFresh e s × AreFresh (step s (now, e)) es

  begins-IsTraced :
      (account : ℕ) (drawn : Drawn) (now : ℕ) (s : Trust)
      → select (has_binding_id drawn.binding_id) s.store.bindings ≡ none
      → IsTraced s
      → IsTraced (begin ttl account drawn now s).1
  unfolding begin
  begins-IsTraced account drawn now s fresh h =
      let kept = begin-IsTraced ttl (s.accounts account) drawn now s fresh h in ground arith

  restart-IsTraced :
      (accounts : ℕ → Account) (s : Trust)
      → IsTraced s
      → IsTraced (record s { transactions = []; accounts = accounts })
  unfolding IsTraced select
  restart-IsTraced accounts s h k = ((h k).0, refl)

  step-IsTraced :
      (s : Trust) (now : ℕ) (e : Step) → DrawsFresh e s → IsTraced s → IsTraced (step s (now, e))
  unfolding step
  step-IsTraced s now (begins account drawn) fresh h = begins-IsTraced account drawn now s fresh h
  step-IsTraced s now (asserts account id body) fresh h = assert-IsTraced account id body now s h
  step-IsTraced s now (asks_registration account id token challenge) fresh h =
      options-IsTraced account id token challenge now s h
  step-IsTraced s now (registers account id body) fresh h =
      registration-IsTraced verify_registration_response account id body now s h
  step-IsTraced s now (asks_authentication account challenge) fresh h =
      authentication_options-IsTraced account challenge s h
  step-IsTraced s now (authenticates account response) fresh h =
      authentication-IsTraced verify_authentication_response account response s h
  step-IsTraced s now (asks_wallet account id body nonce) fresh h =
      wallet_options-IsTraced get_address chain_id account id body nonce now s h
  step-IsTraced s now (binds account id body) fresh h =
      wallet-IsTraced recover account id body now s h
  step-IsTraced s now (writes_accounts accounts) fresh h =
      aside-IsTraced accounts s.store.credentials s h
  step-IsTraced s now (restarts accounts) fresh h = restart-IsTraced accounts s h

  run-IsTraced :
      (s : Trust) (es : List (ℕ × Step)) → AreFresh s es → IsTraced s → IsTraced (run s es)
  unfolding run AreFresh
  run-IsTraced s [] fresh h = h
  run-IsTraced s ((now, e) ∷ es) fresh h =
      run-IsTraced (step s (now, e)) es fresh.1 (step-IsTraced s now e fresh.0 h)

  -- From a state without transactions, bindings and audit events, after any history of the
  -- handlers of the trust binding, each run to its end, of writes to the accounts and of restarts,
  -- in which no drawn identifier is the one of a binding, the audit events of each binding are the
  -- path to the state of its row: CREATED, JPKI_ASSERTED, PASSKEY_REGISTERED, WALLET_BOUND,
  -- ACTIVE.
  pub run_follows_path :
      (s : Trust) (es : List (ℕ × Step)) (k : ℕ)
      → s.transactions ≡ []
      → s.store.bindings ≡ []
      → s.store.audit_events ≡ []
      → AreFresh s es
      → trail k (run s es).store.audit_events
        ≡ path_to (row_state (select (has_binding_id k) (run s es).store.bindings))
  unfolding IsTraced trail select
  run_follows_path s es k no_objects no_rows no_events fresh =
      (run-IsTraced s es fresh (λ n. rw (no_objects, no_rows, no_events) (refl, refl)) k).0
