-- ===== src/Trust/Interleavings.antt =====
-- Histories in which other handlers run while one waits for the passkey library or for the recovery
-- of a signer.
pub mod Invariant
use creator_first_platform.Base.{
  ℕ, zero, suc, ◌≡◌, refl, String, Bool, true, Option, none, some, List, [], ◌∷◌, ◌++◌, arith, inl,
  inr, Option-cases,
}
use creator_first_platform.Base.Table.{select, insert}
use creator_first_platform.Base.Exec.{ok, err, Result, Result-cases}
use creator_first_platform.Account.{Account}
use creator_first_platform.Trust.Store.{active, Binding, Credential, has_binding_id}
use creator_first_platform.Trust.Service.{
  BindingMessage, WalletIntent, Transaction, Trust, Drawn, AssertForm, begin, begin_checked,
  assert_mock_jpki, transaction, csrf,
}
use creator_first_platform.Trust.Passkeys.{
  AuthenticatorResponse, RegistrationInfo, PasskeyForm, registration_options_check,
  registration_options_finish, verify_registration_check, verify_registration_finish,
  authentication_options, verify_authentication_check, verify_authentication_finish,
}
use creator_first_platform.Trust.Wallets.{
  WalletForm, WalletProof, wallet_options, verify_wallet_check, verify_wallet_finish,
}
use creator_first_platform.Trust.Trails.Handlers.{transaction_lem}
use creator_first_platform.Trust.Signed.{
  Signs, IsGoodRow, IsGoodIntent, IsGoodAt, IsGood, IsSettled, has_wallet, has_passkey, is_set,
}
use creator_first_platform.Trust.Signed.Handlers.{
  begin-IsGood, begin-IsSettled, assert-IsGood, assert-IsSettled,
}
use creator_first_platform.Trust.Signed.Awaits.{
  options-IsGood as registration_options-IsGood, registration-IsGood, aside-IsGood, aside-IsSettled,
}
use creator_first_platform.Trust.Signed.Wallets.{options-IsGood, check_lem, wallet-IsGood}

-- A handler at its await, with what it has read before
pub data Waiting : Type 0 where
  waits_options : Transaction → Waiting
  waits_registration : ℕ → Transaction → ℕ → AuthenticatorResponse → Waiting
  waits_authentication : ℕ → ℕ → Credential → AuthenticatorResponse → Waiting
  waits_wallet : ℕ → Transaction → WalletIntent → String → Waiting

pub record Racing : Type 0 where
  pub trust : Trust
  pub waiting : List Waiting

abbrev wait {ℓ} : {A : Type ℓ} → Result A → (A → Waiting) → List Waiting → List Waiting
wait (ok a) f ws = f a ∷ ws
wait (err e) f ws = ws

unfoldable pub waiting_at : ℕ → List Waiting → Option Waiting
waiting_at n [] = none
waiting_at zero (w ∷ ws) = some w
waiting_at (suc n) (w ∷ ws) = waiting_at n ws

unfoldable pub waiting_without : ℕ → List Waiting → List Waiting
waiting_without n [] = []
waiting_without zero (w ∷ ws) = ws
waiting_without (suc n) (w ∷ ws) = w ∷ waiting_without n ws

pub data Step : Type 0 where
  begins : ℕ → Drawn → Step
  asserts : ℕ → ℕ → AssertForm → Step
  checks_options : ℕ → ℕ → Option ℕ → Step
  checks_registration : ℕ → ℕ → PasskeyForm → Step
  asks_authentication : ℕ → ℕ → Step
  checks_authentication : ℕ → AuthenticatorResponse → Step
  asks_wallet : ℕ → ℕ → WalletForm → ℕ → Step
  checks_wallet : ℕ → ℕ → WalletProof → Step
  -- the handler at a place goes on; the number is the challenge of the options it may wait for
  finishes : ℕ → ℕ → Step
  writes_accounts : (ℕ → Account) → Step
  restarts : (ℕ → Account) → Step

module _ (ttl : ℕ)
    (verify_registration_response : AuthenticatorResponse → ℕ → Option RegistrationInfo)
    (verify_authentication_response : AuthenticatorResponse → ℕ → Credential → Option ℕ)
    (get_address : ℕ → Option ℕ) (chain_id : ℕ) (recover : BindingMessage → String → Option ℕ) where
  unfoldable pub finish : Option Waiting → ℕ → ℕ → Trust → Trust
  finish none challenge now s = s
  finish (some (waits_options t)) challenge now s = (registration_options_finish t challenge s).1
  finish (some (waits_registration account t expected response)) challenge now s =
      (verify_registration_finish verify_registration_response account t expected response now s).1
  finish (some (waits_authentication account expected stored response)) challenge now s =
      (verify_authentication_finish verify_authentication_response account expected stored response
        s).1
  finish (some (waits_wallet account t i signature)) challenge now s =
      (verify_wallet_finish recover account t i signature now s).1

  unfoldable pub step : Racing → ℕ × Step → Racing
  step s (now, begins account drawn) = record s { trust = (begin ttl account drawn now s.trust).1 }
  step s (now, asserts account id body) = record s {
    trust = (assert_mock_jpki account id body now s.trust).1;
  }
  step s (now, checks_options account id token) = record s {
    waiting =
        wait (registration_options_check account id token now s.trust).0 (λ t. waits_options t)
          s.waiting;
  }
  step s (now, checks_registration account id body) = record s {
    waiting =
        wait (verify_registration_check account id body now s.trust).0
          (λ (t, challenge). waits_registration account t challenge body.response) s.waiting;
  }
  step s (now, asks_authentication account challenge) = record s {
    trust = (authentication_options account challenge s.trust).1;
  }
  step s (now, checks_authentication account response) = record s {
    waiting =
        wait (verify_authentication_check account response s.trust).0
          (λ (challenge, stored). waits_authentication account challenge stored response) s.waiting;
  }
  step s (now, asks_wallet account id body nonce) = record s {
    trust = (wallet_options get_address chain_id account id body nonce now s.trust).1;
  }
  step s (now, checks_wallet account id body) = record s {
    waiting =
        wait (verify_wallet_check account id body now s.trust).0
          (λ (t, i). waits_wallet account t i body.signature) s.waiting;
  }
  step s (now, finishes n challenge) = record {
    trust = finish (waiting_at n s.waiting) challenge now s.trust;
    waiting = waiting_without n s.waiting;
  }
  step s (now, writes_accounts accounts) = record s {
    trust = record s.trust { accounts = accounts };
  }
  step s (now, restarts accounts) = record {
    trust = record s.trust { transactions = []; accounts = accounts };
    waiting = [];
  }

  unfoldable pub run : Racing → List (ℕ × Step) → Racing
  run s [] = s
  run s (e ∷ es) = run (step s e) es

  abbrev pub DrawsFresh : Step → Trust → Type 0
  DrawsFresh (begins account drawn) s =
      select (has_binding_id drawn.binding_id) s.store.bindings ≡ none
  DrawsFresh _ s = Unit {0}

  -- `randomUUID` draws no identifier that a binding has.
  unfoldable pub AreFresh : Racing → List (ℕ × Step) → Type 0
  AreFresh s [] = Unit {0}
  AreFresh s ((now, e) ∷ es) = DrawsFresh e s.trust × AreFresh (step s (now, e)) es
