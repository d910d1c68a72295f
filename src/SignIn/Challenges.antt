-- ===== src/SignIn/Challenges.antt =====
-- `createChallenge` and `verifyChallenge`. The message of a challenge is only compared and handed
-- to the recovery of its signer, so it is the record of what the text is made from; its other lines
-- are constants of the configuration.
use creator_first_platform.Base.{
  ℕ, ◌+◌, String, Bool, true, false, Option, none, some, List, ◌&&◌, ◌==◌, not, ltb,
}
use creator_first_platform.Base.Table.{select, update, insert}
use creator_first_platform.Base.Exec.{Exec, pure, gets, modify, require, or_throw, ◌>>=◌, ◌>>◌}
use creator_first_platform.Base.Exec.Codes.{
  invalid_wallet_address, chain_not_allowed, invitation_not_claimable, invitation_consent_required,
  siwe_challenge_invalid, siwe_message_mismatch, siwe_signature_invalid, siwe_signer_mismatch,
}
use creator_first_platform.Account.{Account, InvitationProof, same_consent}
use creator_first_platform.Participants.Forms.{TextMethods}
use creator_first_platform.Participants.Rows.{InvitationState, revoked, Database}
use creator_first_platform.Participants.Invitations.Service.{ConsentForm, consent_accepted, inspect}

pub record Message : Type 0 where
  pub address : ℕ
  pub nonce : ℕ
  pub issued_at : ℕ
  pub expires_at : ℕ
  -- the lines on the invitation, its roles and its consent
  pub proof : Option InvitationProof

pub record Challenge : Type 0 where
  pub challenge_id : ℕ
  pub owner_id : ℕ
  pub address : ℕ
  pub message : Message
  pub participant_invitation_proof : Option InvitationProof
  pub expires_at : ℕ
  pub used : Bool

-- the map `challenges`, and the database
pub record SignIn : Type 0 where
  pub challenges : List Challenge
  pub database : Database

-- `address` is `none` where it is no text; `invitation_token` where it is `undefined`.
pub record ChallengeForm : Type 0 where
  pub address : Option ℕ
  pub chain_id : ℕ
  pub invitation_token : Option String
  pub consent : ConsentForm

-- `message` is `none` where the text is none that a challenge has.
pub record VerifyForm : Type 0 where
  pub challenge_id : ℕ
  pub message : Option Message
  pub signature : Option String

abbrev is_revoked : InvitationState → Bool
is_revoked revoked = true
is_revoked _ = false

abbrev pub has_challenge_id : ℕ → Challenge → Bool
has_challenge_id id c = c.challenge_id == id

abbrev same_proof : Option InvitationProof → Option InvitationProof → Bool
same_proof none none = true
same_proof (some p) (some q) =
    p.invitation_id == q.invitation_id
    && p.roles == q.roles
    && same_consent p.consent_version q.consent_version
same_proof _ _ = false

abbrev pub same_message : Option Message → Message → Bool
same_message none m = false
same_message (some n) m =
    n.address == m.address
    && n.nonce == m.nonce
    && n.issued_at == m.issued_at
    && n.expires_at == m.expires_at
    && same_proof n.proof m.proof

abbrev pub address_of : (ℕ → Option ℕ) → Option ℕ → Option ℕ
address_of get_address none = none
address_of get_address (some a) = get_address a

-- A read of the database
abbrev on_database {ℓ} : {A : Type ℓ} → Exec Database A → Exec SignIn A
on_database m s = let (r, db) = m s.database in (r, record s { database = db })

abbrev pub new_challenge : Account → ℕ → ℕ → ℕ → ℕ → Option InvitationProof → Challenge
new_challenge account address id nonce now proof = record {
  challenge_id = id;
  owner_id = account.account_id;
  address = address;
  message = record {
    address = address;
    nonce = nonce;
    issued_at = now;
    expires_at = now + 300000;
    proof = proof;
  };
  participant_invitation_proof = proof;
  expires_at = now + 300000;
  used = false;
}

module _ (digest : String → ℕ) (methods : TextMethods) where
  -- The proof that the message will be about, where the body names an invitation.
  unfoldable pub proof_for :
      ChallengeForm → ℕ → Option String → Exec SignIn (Option InvitationProof)
  proof_for body now none = pure none
  proof_for body now (some token) = do
    (row, expired) ← on_database (inspect digest methods token now)
    require (not expired && not (is_revoked row.state)) 409 invitation_not_claimable
    require (consent_accepted row.flow_version body.consent) 400 invitation_consent_required
    pure (
        some (record {
          invitation_id = row.invitation_id;
          roles = row.role_bits;
          consent_version = row.consent_version;
        }))

  -- viem's `getAddress`, and `config.chainId`
  module _ (get_address : ℕ → Option ℕ) (chain_id : ℕ) where
    -- `id` and `nonce` are drawn at random.
    unfoldable pub create_challenge : Account → ChallengeForm → ℕ → ℕ → ℕ → Exec SignIn Challenge
    create_challenge account body id nonce now = do
      address ← or_throw (address_of get_address body.address) 400 invalid_wallet_address
      require (body.chain_id == chain_id) 400 chain_not_allowed
      proof ← proof_for body now body.invitation_token
      let challenge = new_challenge account address id nonce now proof
      modify (λ s. record s { challenges = insert challenge s.challenges })
      pure challenge

-- `recover` is viem's `recoverMessageAddress`, with the form that `getAddress` gives.
module _ (recover : Message → String → Option ℕ) where
  -- `verifyChallenge` before it awaits the recovery: the challenge and the signature
  unfoldable pub verify_check : Account → VerifyForm → ℕ → Exec SignIn (Challenge × String)
  verify_check account body now = do
    found ← gets (λ s. select (has_challenge_id body.challenge_id) s.challenges)
    challenge ← or_throw found 401 siwe_challenge_invalid
    require
        (challenge.owner_id == account.account_id
          && not challenge.used
          && ltb now challenge.expires_at)
        401 siwe_challenge_invalid
    require (same_message body.message challenge.message) 401 siwe_message_mismatch
    signature ← or_throw body.signature 401 siwe_message_mismatch
    pure (challenge, signature)

  -- and after it: the account with its wallet
  unfoldable pub verify_finish : Account → Challenge → String → Exec SignIn Account
  verify_finish account challenge signature = do
    signer ← or_throw (recover challenge.message signature) 401 siwe_signature_invalid
    require (signer == challenge.address) 401 siwe_signer_mismatch
    modify (λ s. record s {
      challenges =
          update (has_challenge_id challenge.challenge_id) (λ c. record c { used = true })
            s.challenges;
    })
    pure (record account {
      wallet_address = some challenge.address;
      participant_invitation_proof = challenge.participant_invitation_proof;
    })

  unfoldable pub verify_challenge : Account → VerifyForm → ℕ → Exec SignIn Account
  verify_challenge account body now = do
    (challenge, signature) ← verify_check account body now
    verify_finish account challenge signature
