-- ===== src/Participants/Enrollments/Chain.antt =====
-- The chain that the operator drives. The participant registry is a contract on Polygon Amoy, so
-- it is an interface here: what the operator reads of it and what a transaction does to it.
use creator_first_platform.Base.{ℕ, ◌≡◌, Bool, true, Option, none, some}

-- The answer of `chain.status`; `none` is the zero address, or the zero hash.
pub record ChainStatus : Type 0 where
  pub wallet : Option ℕ
  pub approved_roles : ℕ
  pub active : Bool
  pub initial_funding_completed : Bool
  pub registered_participant_id : Option ℕ

pub record Chain : Type 1 where
  pub State : Type 0
  -- by participant and wallet
  pub status : State → ℕ → ℕ → ChainStatus
  -- `approveClaimedInvitation` for a participant, a wallet and roles, until a time; `none` is a
  -- transaction that reverts
  pub approve : State → ℕ → ℕ → ℕ → ℕ → Option State
  -- `fundInitial` for a participant, under an operation identifier; `none` is one that reverts
  pub fund : State → ℕ → ℕ → Option State
  -- Where a funding takes effect, the participant is reported as funded, and stays so.
  pub fund_completes :
      (s s' : State) (participant operation wallet : ℕ)
      → fund s participant operation ≡ some s'
      → (status s' participant wallet).initial_funding_completed ≡ true
  pub fund_keeps :
      (s s' : State) (participant operation other wallet : ℕ)
      → fund s participant operation ≡ some s'
      → (status s other wallet).initial_funding_completed ≡ true
      → (status s' other wallet).initial_funding_completed ≡ true
  -- `InitialFundingAlreadyCompleted`
  pub fund_refuses :
      (s : State) (participant operation wallet : ℕ)
      → (status s participant wallet).initial_funding_completed ≡ true
      → fund s participant operation ≡ none
  pub approve_keeps :
      (s s' : State) (participant wallet roles expires other wallet' : ℕ)
      → approve s participant wallet roles expires ≡ some s'
      → (status s other wallet').initial_funding_completed ≡ true
      → (status s' other wallet').initial_funding_completed ≡ true
