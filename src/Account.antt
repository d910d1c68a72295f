-- ===== src/Account.antt =====
-- The `account` objects of apps/gateway/src/server.js: one for each platform session. A wallet
-- address, checked and normalised by viem's `getAddress`, is only compared, so it is a number.
use creator_first_platform.Base.{ℕ, String, Bool, true, false, Option, none, List, []}
use creator_first_platform.Catalog.{Tier}

pub record DemoUser : Type 0 where
  pub test_user_id : ℕ
  pub display_name : String
  pub created_at : ℕ

-- `flow_version` and `consent_version`: the code tells only the V2 texts from all others.
pub data Flow : Type 0 where
  flow_v1 flow_v2 : Flow

pub data Consent : Type 0 where
  consent_v1 consent_v2 : Consent

abbrev pub same_consent : Consent → Consent → Bool
same_consent consent_v1 consent_v1 = true
same_consent consent_v2 consent_v2 = true
same_consent _ _ = false

-- `participantInvitationProof`: what the holder of the wallet has signed
pub record InvitationProof : Type 0 where
  pub invitation_id : ℕ
  pub roles : ℕ
  pub consent_version : Consent

pub record Account : Type 0 where
  pub platform_session_id : ℕ
  pub account_id : ℕ
  pub active : Bool
  pub subscription_active : Bool
  pub wallet_address : Option ℕ
  pub tiers : List (String × Tier)
  pub demo_user : Option DemoUser
  pub demo_registration_key : Option String
  pub demo_registration_hash : Option ℕ
  pub passkey_authenticated : Bool
  pub authentication_challenge : Option ℕ
  pub participant_invitation_proof : Option InvitationProof

-- the object that `createAccount` makes
abbrev pub new_account : ℕ → ℕ → Account
new_account platform_session_id account_id = record {
  platform_session_id = platform_session_id;
  account_id = account_id;
  active = true;
  subscription_active = true;
  wallet_address = none;
  tiers = [];
  demo_user = none;
  demo_registration_key = none;
  demo_registration_hash = none;
  passkey_authenticated = false;
  authentication_challenge = none;
  participant_invitation_proof = none;
}
