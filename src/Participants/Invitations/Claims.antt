-- ===== src/Participants/Invitations/Claims.antt =====
-- What a claim of an invitation requires, and what it leaves.
use creator_first_platform.Base.{
  ℕ, ◌<◌, String, ◌≡◌, refl, subst, ◌⊎◌, inl, inr, true, false, Option, none, some, arith,
  Bool-cases,
}
use creator_first_platform.Base.Table.{update_none}
use creator_first_platform.Base.Table.Keyed.{
  IsKeyed, count_of_key, select_of_key, select-update_key,
}
use creator_first_platform.Base.Exec.{ok, err}
use creator_first_platform.Base.Exec.Codes.{invitation_not_claimable}
use creator_first_platform.Account.{
  Account, Consent, consent_v1, consent_v2, same_consent, InvitationProof,
}
use creator_first_platform.Participants.Forms.{TextMethods}
use creator_first_platform.Participants.Rows.{claimed, Invitation, Database}
use creator_first_platform.Participants.Store.Invitations.{
  participant_invitation_by_id, participant_invitation_by_token_hash, has_token_hash, is_pending,
  is_claimable, claim_participant_invitation,
}
use creator_first_platform.Participants.Invitations.Service.{
  ConsentForm, Claim, consent_accepted, is_proof_of, is_claimed, claim, claim_row, claim_open,
  claim_write,
}

-- The account has a proof for this invitation: its identifier, its roles and its consent.
abbrev IsProved : Option InvitationProof → Invitation → Type 0
IsProved none row = ⊥
IsProved (some proof) row =
    (proof.invitation_id ≡ row.invitation_id)
    × (proof.roles ≡ row.role_bits)
    × (proof.consent_version ≡ row.consent_version)

same_consent_lem : (c d : Consent) → same_consent c d ≡ true → c ≡ d
same_consent_lem consent_v1 consent_v1 h = refl
same_consent_lem consent_v2 consent_v2 h = refl
same_consent_lem _ _ h = absurd (ground arith)

same_consent_refl : (c : Consent) → same_consent c c ≡ true
same_consent_refl consent_v1 = refl
same_consent_refl consent_v2 = refl

proof_proves :
    (proof : Option InvitationProof) (row : Invitation)
    → is_proof_of proof row ≡ true
    → IsProved proof row
unfolding is_proof_of
proof_proves none row h = absurd (ground arith)
proof_proves (some p) row h = (
  ground arith,
  ground arith,
  same_consent_lem p.consent_version row.consent_version (ground arith),
)

proved_proof :
    (proof : Option InvitationProof) (row : Invitation)
    → IsProved proof row
    → is_proof_of proof row ≡ true
unfolding is_proof_of
proved_proof none row h = absurd h
proved_proof (some p) row (i, r, c) =
    let consent : same_consent p.consent_version row.consent_version ≡ true =
      subst (λ d. same_consent p.consent_version d ≡ true) c
        (same_consent_refl p.consent_version) in
    ground arith

-- What `claim` asks of an open invitation.
pub record IsClaimable (row : Invitation) (a : Account) (form : ConsentForm) (now : ℕ)
    : Type 0 where
  pub consented : consent_accepted row.flow_version form ≡ true
  pub proved : IsProved a.participant_invitation_proof row
  pub pending : is_pending row.state ≡ true
  pub unexpired : now < row.expires_at

-- The row that a claim leaves.
abbrev pub claimed_row : Invitation → ℕ → ℕ → Invitation
claimed_row row wallet now = record row {
  state = claimed;
  claimed_wallet = some wallet;
  claimed_at = some now;
}

abbrev pub invitation_key : Invitation → ℕ
invitation_key r = r.invitation_id

module _ (digest : String → ℕ) (methods : TextMethods) (get_address : ℕ → Option ℕ) where
  -- What the `UPDATE` and the rest do to the row.
  claim_write_lem :
      (row : Invitation) (a : Account) (w now : ℕ) (db : Database)
      → IsKeyed invitation_key db.invitations
      → participant_invitation_by_id row.invitation_id db ≡ some row
      → let (r, db') = claim_write digest methods get_address row a w now db in
        ((is_claimable row.invitation_id now row ≡ true)
          × (r
              ≡ ok (record {
                account = record a { participant_invitation_proof = none };
                row = some (claimed_row row w now);
              }))
          × (participant_invitation_by_id row.invitation_id db' ≡ some (claimed_row row w now)))
        ⊎ (is_claimable row.invitation_id now row ≡ false)
          × (r ≡ err (record { status = 409; code = invitation_not_claimable }))
          × (db' ≡ db)
  unfolding claim_write claim_participant_invitation participant_invitation_by_id
  claim_write_lem row a w now db u found =
      let changes =
        count_of_key invitation_key (is_claimable row.invitation_id now) row.invitation_id
          (λ y h. ground arith) row db.invitations u found in
      let after =
        select-update_key invitation_key (is_claimable row.invitation_id now)
          (λ r. claimed_row r w now) (λ y. refl) row.invitation_id row db.invitations found in
      elim (Bool-cases (is_claimable row.invitation_id now row)) [
        | inl fits ↦ inl (fits, ground arith, ground arith)
        | inr shut ↦ inr (
          shut,
          ground arith,
          ground (
            arith,
            update_none (is_claimable row.invitation_id now) (λ r. claimed_row r w now)
                db.invitations,
          ),
        )
      ]

  module _ (token : String) (a : Account) (form : ConsentForm) (now w0 w : ℕ) (row : Invitation)
      (db : Database) (keyed : IsKeyed invitation_key db.invitations)
      (found : participant_invitation_by_token_hash (digest token) db ≡ some row)
      (linked : a.wallet_address ≡ some w0) (valid : get_address w0 ≡ some w) where
    by_id : participant_invitation_by_id row.invitation_id db ≡ some row
    unfolding participant_invitation_by_id participant_invitation_by_token_hash
    by_id =
        select_of_key invitation_key (has_token_hash (digest token)) row db.invitations keyed found

    claim_reads :
        is_claimed row.state ≡ false
        → claim digest methods get_address token a form now db
          ≡ claim_open digest methods get_address row a w0 form now db
    unfolding claim claim_row
    claim_reads fresh = ground arith

    -- Under the same conditions, and where `IsClaimable` holds, the claim succeeds: the proof of
    -- the account is used up, and the row is CLAIMED by the wallet.
    pub claim_grants :
        is_claimed row.state ≡ false
        → IsClaimable row a form now
        → let (r, db') = claim digest methods get_address token a form now db in
          (r
            ≡ ok (record {
              account = record a { participant_invitation_proof = none };
              row = some (claimed_row row w now);
            }))
          × (participant_invitation_by_id row.invitation_id db' ≡ some (claimed_row row w now))
    unfolding claim_open
    claim_grants fresh c =
        let proof = proved_proof a.participant_invitation_proof row c.proved in
        rw (claim_reads fresh) (ground (arith, claim_write_lem row a w now db keyed by_id))

    -- With invitation identifiers that are unique, a row found by the token, and a linked wallet
    -- with a valid address: a claim of a row that is not claimed yet succeeds only where
    -- `IsClaimable` holds: the consent of its flow, a stored proof of the account with the
    -- identifier, the roles and the consent version of this invitation, a pending state and an
    -- expiry that is still ahead.
    pub claim_requires :
        (x : Claim)
        → is_claimed row.state ≡ false
        → (claim digest methods get_address token a form now db).0 ≡ ok x
        → IsClaimable row a form now
    unfolding claim_open
    claim_requires x fresh h =
        let same = claim_reads fresh in
        let proved = proof_proves a.participant_invitation_proof row in
        ground (arith, claim_write_lem row a w now db keyed by_id)
