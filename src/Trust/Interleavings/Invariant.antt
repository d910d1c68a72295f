-- ===== src/Trust/Interleavings/Invariant.antt =====
-- What holds in every interleaving of the handlers: an ACTIVE binding has a passkey and a signed
-- wallet.
use creator_first_platform.Base.{
  ℕ, zero, suc, ◌≡◌, refl, String, true, Option, none, some, List, [], ◌∷◌, arith, inl, inr,
  Option-cases, subst,
}
use creator_first_platform.Base.Table.{select}
use creator_first_platform.Base.Exec.{Result-cases}
use creator_first_platform.Account.{Account}
use creator_first_platform.Trust.Store.{active, Binding, Credential, has_binding_id}
use creator_first_platform.Trust.Service.{BindingMessage, Transaction, Trust, Drawn, begin}
use creator_first_platform.Trust.Passkeys.{
  AuthenticatorResponse, RegistrationInfo, registration_options_check, registration_options_finish,
  verify_registration_check, authentication_options, verify_authentication_check,
  verify_authentication_finish,
}
use creator_first_platform.Trust.Wallets.{verify_wallet_check}
use creator_first_platform.Trust.Signed.{
  Signs, IsGoodRow, IsGoodIntent, IsGoodAt, IsGood, IsSettled, is_set,
}
use creator_first_platform.Trust.Signed.Handlers.{
  begin-IsGood, begin-IsSettled, assert-IsGood, assert-IsSettled,
}
use creator_first_platform.Trust.Signed.Awaits.{
  options-IsGood as registration_options-IsGood, registration-IsGood,
}
use creator_first_platform.Trust.Signed.Wallets.{options-IsGood, check_lem, wallet-IsGood}
use creator_first_platform.Trust.Store.{update_webauthn_counter}
use creator_first_platform.Trust.Interleavings.{
  Waiting, waits_options, waits_registration, waits_authentication, waits_wallet, Racing, Step,
  begins, asserts, checks_options, checks_registration, asks_authentication, checks_authentication,
  asks_wallet, checks_wallet, finishes, writes_accounts, restarts, waiting_at, waiting_without,
  finish, step, run, DrawsFresh, AreFresh,
}

module _ (recover : BindingMessage → String → Option ℕ) where
  abbrev IsGoodWaiting : Trust → Waiting → Type 0
  IsGoodWaiting s (waits_wallet account t i signature) =
      IsSettled t.binding_id t.account_subject_commitment s
      × IsGoodIntent recover t.account_subject_commitment i
  IsGoodWaiting s _ = Unit {0}

  unfoldable AreGood : Trust → List Waiting → Type 0
  AreGood s [] = Unit {0}
  AreGood s (w ∷ ws) = IsGoodWaiting s w × AreGood s ws

  abbrev Settles : Trust → Trust → Type 0
  Settles s s' = (k commitment : ℕ) → IsSettled k commitment s → IsSettled k commitment s'

  still_good :
      (s s' : Trust) → Settles s s' → (w : Waiting) → IsGoodWaiting s w → IsGoodWaiting s' w
  still_good s s' settles (waits_options t) h = tt
  still_good s s' settles (waits_registration account t challenge response) h = tt
  still_good s s' settles (waits_authentication account challenge stored response) h = tt
  still_good s s' settles (waits_wallet account t i signature) h =
      (settles t.binding_id t.account_subject_commitment h.0, h.1)

  still-AreGood : (s s' : Trust) → Settles s s' → (ws : List Waiting) → AreGood s ws → AreGood s' ws
  unfolding AreGood
  still-AreGood s s' settles [] h = tt
  still-AreGood s s' settles (w ∷ ws) h =
      (still_good s s' settles w h.0, still-AreGood s s' settles ws h.1)

  without-AreGood :
      (s : Trust) (n : ℕ) (ws : List Waiting) → AreGood s ws → AreGood s (waiting_without n ws)
  unfolding AreGood waiting_without
  without-AreGood s n [] h = tt
  without-AreGood s zero (w ∷ ws) h = h.1
  without-AreGood s (suc n) (w ∷ ws) h = (h.0, without-AreGood s n ws h.1)

  abbrev IsGoodAtAwait : Trust → Option Waiting → Type 0
  IsGoodAtAwait s none = Unit {0}
  IsGoodAtAwait s (some w) = IsGoodWaiting s w

  at-AreGood :
      (s : Trust) (n : ℕ) (ws : List Waiting) → AreGood s ws → IsGoodAtAwait s (waiting_at n ws)
  unfolding AreGood waiting_at
  at-AreGood s n [] h = tt
  at-AreGood s zero (w ∷ ws) h = h.0
  at-AreGood s (suc n) (w ∷ ws) h = at-AreGood s n ws h.1

module _ (ttl : ℕ)
    (verify_registration_response : AuthenticatorResponse → ℕ → Option RegistrationInfo)
    (verify_authentication_response : AuthenticatorResponse → ℕ → Credential → Option ℕ)
    (get_address : ℕ → Option ℕ) (chain_id : ℕ) (recover : BindingMessage → String → Option ℕ) where
  -- The handlers that write only accounts and passkeys
  same_keeps :
      (s s' : Trust)
      → s'.transactions ≡ s.transactions
      → s'.store.bindings ≡ s.store.bindings
      → IsGood recover s
      → IsGood recover s' × Settles recover s s'
  unfolding IsGood IsSettled
  same_keeps s s' objects rows h = (λ k. rw (objects, rows) (h k), λ k c e. rw rows e)

  authentication_keeps :
      (account expected : ℕ) (stored : Credential) (response : AuthenticatorResponse) (s : Trust)
      → IsGood recover s
      → let s' =
          (verify_authentication_finish verify_authentication_response account expected stored
            response s).1 in
        IsGood recover s' × Settles recover s s'
  unfolding verify_authentication_finish update_webauthn_counter
  authentication_keeps account expected stored response s h =
      same_keeps s
        (verify_authentication_finish verify_authentication_response account expected stored
          response s).1
        (ground arith) (ground arith) h

  ask_keeps :
      (account challenge : ℕ) (s : Trust)
      → IsGood recover s
      → IsGood recover (authentication_options account challenge s).1
        × Settles recover s (authentication_options account challenge s).1
  unfolding authentication_options
  ask_keeps account challenge s h =
      same_keeps s (authentication_options account challenge s).1 (ground arith) (ground arith) h

  begin_keeps :
      (account : ℕ) (drawn : Drawn) (now : ℕ) (s : Trust)
      → select (has_binding_id drawn.binding_id) s.store.bindings ≡ none
      → IsGood recover s
      → IsGood recover (begin ttl account drawn now s).1
        × Settles recover s (begin ttl account drawn now s).1
  unfolding begin
  begin_keeps account drawn now s fresh h =
      let good = begin-IsGood recover ttl (s.accounts account) drawn now s fresh h in
      (
        ground arith,
        λ k c e.
            let still =
              begin-IsSettled recover ttl (s.accounts account) drawn now k c s fresh h e in
            ground arith,
      )

  options_keeps :
      (t : Transaction) (challenge : ℕ) (s : Trust)
      → Settles recover s (registration_options_finish t challenge s).1
  unfolding registration_options_finish IsSettled
  options_keeps t challenge s k c e = e

  finish_keeps :
      (o : Option Waiting) (challenge now : ℕ) (s : Trust)
      → IsGoodAtAwait recover s o
      → IsGood recover s
      → IsGood recover (
          finish ttl verify_registration_response verify_authentication_response get_address
            chain_id recover o challenge now s)
        × Settles recover s (
            finish ttl verify_registration_response verify_authentication_response get_address
              chain_id recover o challenge now s)
  unfolding finish
  finish_keeps none challenge now s a h = (h, λ k c e. e)
  finish_keeps (some (waits_options t)) challenge now s a h =
      (registration_options-IsGood recover t challenge s h, options_keeps t challenge s)
  finish_keeps (some (waits_registration account t expected response)) challenge now s a h =
      registration-IsGood recover verify_registration_response account t expected response now s h
  finish_keeps (some (waits_authentication account expected stored response)) challenge now s a h =
      authentication_keeps account expected stored response s h
  finish_keeps (some (waits_wallet account t i signature)) challenge now s a h =
      wallet-IsGood recover account t i signature now s a.0 a.1 h

  row_of :
      (o : Option Transaction) (b : Option Binding) (r : Binding)
      → b ≡ some r
      → IsGoodAt recover o b
      → IsGoodRow recover r
  row_of o none r e h = absurd (ground arith)
  row_of none (some b) r e h = let same : b ≡ r = ground arith in subst (IsGoodRow recover) same h
  row_of (some t) (some b) r e h =
      let same : b ≡ r = ground arith in subst (IsGoodRow recover) same h.0

  no_object :
      (o : Option Transaction) (b : Option Binding) → IsGoodAt recover o b → IsGoodAt recover none b
  no_object none b h = h
  no_object (some t) none h = tt
  no_object (some t) (some b) h = h.0

  restart-IsGood :
      (accounts : ℕ → Account) (s : Trust)
      → IsGood recover s
      → IsGood recover (record s { transactions = []; accounts = accounts })
  unfolding IsGood select
  restart-IsGood accounts s h k = no_object _ _ (h k)

  abbrev IsSafe : Racing → Type 0
  IsSafe s = IsGood recover s.trust × AreGood recover s.trust s.waiting

  moves :
      (s : Racing) (t : Trust)
      → IsGood recover t × Settles recover s.trust t
      → IsSafe s
      → IsSafe (record s { trust = t })
  moves s t k h = (k.0, still-AreGood recover s.trust t k.1 s.waiting h.1)

  step_safe :
      (s : Racing) (now : ℕ) (e : Step)
      → DrawsFresh ttl verify_registration_response verify_authentication_response get_address
          chain_id recover e s.trust
      → IsSafe s
      → IsSafe (
          step ttl verify_registration_response verify_authentication_response get_address chain_id
            recover s
            (now, e))
  unfolding step AreGood
  step_safe s now (begins account drawn) fresh h =
      moves s _ (begin_keeps account drawn now s.trust fresh h.0) h
  step_safe s now (asserts account id body) fresh h =
      moves s _
        (
          assert-IsGood recover account id body now s.trust h.0,
          λ k c e. assert-IsSettled recover account id body now k c s.trust e,
        )
        h
  step_safe s now (checks_options account id token) fresh h =
      elim (Result-cases (registration_options_check account id token now s.trust).0) [
        | inl (t, r) ↦ rw r (h.0, (tt, h.1))
        | inr (f, r) ↦ rw r h
      ]
  step_safe s now (checks_registration account id body) fresh h =
      elim (Result-cases (verify_registration_check account id body now s.trust).0) [
        | inl ((t, c), r) ↦ rw r (h.0, (tt, h.1))
        | inr (f, r) ↦ rw r h
      ]
  step_safe s now (asks_authentication account challenge) fresh h =
      moves s _ (ask_keeps account challenge s.trust h.0) h
  step_safe s now (checks_authentication account response) fresh h =
      elim (Result-cases (verify_authentication_check account response s.trust).0) [
        | inl ((c, stored), r) ↦ rw r (h.0, (tt, h.1))
        | inr (f, r) ↦ rw r h
      ]
  step_safe s now (asks_wallet account id body nonce) fresh h =
      moves s _ (options-IsGood recover get_address chain_id account id body nonce now s.trust h.0)
        h
  step_safe s now (checks_wallet account id body) fresh h =
      elim (Result-cases (verify_wallet_check account id body now s.trust).0) [
        | inl ((t, i), r) ↦
            rw r (h.0, (check_lem recover account id body now s.trust t i h.0 r, h.1))
        | inr (f, r) ↦ rw r h
      ]
  step_safe s now (finishes n challenge) fresh h =
      let (good, settles) =
        finish_keeps (waiting_at n s.waiting) challenge now s.trust
          (at-AreGood recover s.trust n s.waiting h.1) h.0 in
      (
        good,
        still-AreGood recover s.trust _ settles (waiting_without n s.waiting)
            (without-AreGood recover s.trust n s.waiting h.1),
      )
  step_safe s now (writes_accounts accounts) fresh h =
      moves s _ (same_keeps s.trust (record s.trust { accounts = accounts }) refl refl h.0) h
  step_safe s now (restarts accounts) fresh h = (restart-IsGood accounts s.trust h.0, tt)

  run_safe :
      (s : Racing) (es : List (ℕ × Step))
      → AreFresh ttl verify_registration_response verify_authentication_response get_address
          chain_id recover s es
      → IsSafe s
      → IsSafe (
          run ttl verify_registration_response verify_authentication_response get_address chain_id
            recover s es)
  unfolding run AreFresh
  run_safe s [] fresh h = h
  run_safe s ((now, e) ∷ es) fresh h =
      run_safe
        (step ttl verify_registration_response verify_authentication_response get_address chain_id
          recover s (now, e))
        es fresh.1 (step_safe s now e fresh.0 h)

  -- From a state without transactions, bindings and waiting handlers, after any interleaving of
  -- the handlers of the trust binding, in which other handlers may run at each await, the accounts
  -- may be written and the process may restart, and in which no drawn identifier is the one of a
  -- binding: a binding whose row is ACTIVE has a passkey, and the wallet of the row has signed a
  -- message that names it and the account commitment of the row.
  pub run_binds_signed :
      (s : Racing) (es : List (ℕ × Step)) (k : ℕ) (r : Binding)
      → s.trust.transactions ≡ []
      → s.trust.store.bindings ≡ []
      → s.waiting ≡ []
      → AreFresh ttl verify_registration_response verify_authentication_response get_address
          chain_id recover s es
      → select
          (has_binding_id k)
          (run ttl verify_registration_response verify_authentication_response get_address chain_id
            recover s es).trust.store.bindings
        ≡ some r
      → r.state ≡ active
      → (is_set r.passkey_credential_id ≡ true)
        × ((w : ℕ) × (r.wallet_address ≡ some w) × Signs recover w r.account_subject_commitment)
  unfolding AreGood IsGood IsGoodRow select
  run_binds_signed s es k r no_objects no_rows no_waiting fresh found done =
      let safe = run_safe s es fresh (λ n. rw (no_objects, no_rows) tt, rw no_waiting tt) in
      let row = row_of _ _ r found (safe.0 k) in
      elim (Option-cases r.wallet_address) [
        | inl missing ↦ absurd (ground (arith, row.1))
        | inr (w, bound) ↦ (row.0 (rw done refl), (w, bound, row.2 w bound))
      ]
