-- ===== src/SignIn/Proofs.antt =====
-- What a verified challenge says of the wallet and of the invitation.
use creator_first_platform.Base.{
  ℕ, ◌<◌, ◌≡◌, refl, String, true, false, Option, some, arith, subst, inl, inr,
}
use creator_first_platform.Base.Table.{select, update, select_holds}
use creator_first_platform.Base.Table.Keyed.{select-update_key}
use creator_first_platform.Base.Exec.{ok, err, Result-cases}
use creator_first_platform.Base.Exec.Codes.{siwe_challenge_invalid}
use creator_first_platform.Account.{Account}
use creator_first_platform.SignIn.Challenges.{
  Message, Challenge, SignIn, VerifyForm, has_challenge_id, verify_check, verify_finish,
  verify_challenge,
}

-- What a verification that succeeds has found and leaves in the account.
pub record IsVerified (recover : Message → String → Option ℕ) (a : Account) (body : VerifyForm)
    (now : ℕ) (s : SignIn) (a' : Account) : Type 0 where
  pub challenge : Challenge
  pub signature : String
  pub found : select (has_challenge_id body.challenge_id) s.challenges ≡ some challenge
  pub owned : challenge.owner_id ≡ a.account_id
  pub unused : challenge.used ≡ false
  pub unexpired : now < challenge.expires_at
  pub signed : recover challenge.message signature ≡ some challenge.address
  pub linked : a'.wallet_address ≡ some challenge.address
  pub proven : a'.participant_invitation_proof ≡ challenge.participant_invitation_proof

module _ (recover : Message → String → Option ℕ) where
  check_lem :
      (a : Account) (body : VerifyForm) (now : ℕ) (s : SignIn) (c : Challenge) (sig : String)
      → (verify_check recover a body now s).0 ≡ ok (c, sig)
      → (select (has_challenge_id body.challenge_id) s.challenges ≡ some c)
        × (c.owner_id ≡ a.account_id)
        × (c.used ≡ false)
        × (now < c.expires_at)
        × ((verify_check recover a body now s).1 ≡ s)
  unfolding verify_check
  check_lem a body now s c sig h =
      (ground arith, ground arith, ground arith, ground arith, ground arith)

  finish_lem :
      (a : Account) (c : Challenge) (sig : String) (s : SignIn) (a' : Account)
      → (verify_finish recover a c sig s).0 ≡ ok a'
      → (recover c.message sig ≡ some c.address)
        × (a'.wallet_address ≡ some c.address)
        × (a'.participant_invitation_proof ≡ c.participant_invitation_proof)
        × ((verify_finish recover a c sig s).1.challenges
            ≡ update (has_challenge_id c.challenge_id) (λ x. record x { used = true }) s.challenges)
  unfolding verify_finish
  finish_lem a c sig s a' h = (ground arith, ground arith, ground arith, ground arith)

  pub verified :
      (a : Account) (body : VerifyForm) (now : ℕ) (s : SignIn) (a' : Account)
      → (verify_challenge recover a body now s).0 ≡ ok a'
      → IsVerified recover a body now s a'
        × ((verify_challenge recover a body now s).1.challenges
            ≡ update
                (has_challenge_id body.challenge_id)
                (λ x. record x { used = true })
                s.challenges)
  unfolding verify_challenge
  verified a body now s a' h = elim (Result-cases (verify_check recover a body now s).0) [
    | inl ((c, sig), r) ↦
        let (found, owned, unused, unexpired, same) = check_lem a body now s c sig r in
        let (signed, linked, proven, marked) = finish_lem a c sig s a' (ground arith) in
        let own : c.challenge_id ≡ body.challenge_id =
          ground (arith, select_holds (has_challenge_id body.challenge_id) c s.challenges found) in
        (
          record {
            challenge = c;
            signature = sig;
            found = found;
            owned = owned;
            unused = unused;
            unexpired = unexpired;
            signed = signed;
            linked = linked;
            proven = proven;
          },
          subst
              (λ k.
                (verify_challenge recover a body now s).1.challenges
                ≡ update (has_challenge_id k) (λ x. record x { used = true }) s.challenges)
              own (ground arith),
        )
    | inr (f, r) ↦ absurd (ground arith)
  ]

  used_lem :
      (a : Account) (body : VerifyForm) (now : ℕ) (s : SignIn) (c : Challenge)
      → select (has_challenge_id body.challenge_id) s.challenges ≡ some c
      → c.used ≡ true
      → verify_challenge recover a body now s
        ≡ (err (record { status = 401; code = siwe_challenge_invalid }), s)
  unfolding verify_challenge verify_check
  used_lem a body now s c found used = ground arith

  -- After a verification that succeeds, another one of the same challenge, by any account and with
  -- any body, is refused with 401, and nothing is written.
  pub verify_once :
      (a b : Account) (body again : VerifyForm) (now later : ℕ) (s : SignIn) (a' : Account)
      → (verify_challenge recover a body now s).0 ≡ ok a'
      → again.challenge_id ≡ body.challenge_id
      → let s' = (verify_challenge recover a body now s).1 in
        verify_challenge recover b again later s'
        ≡ (err (record { status = 401; code = siwe_challenge_invalid }), s')
  verify_once a b body again now later s a' h same =
      let (v, marked) = verified a body now s a' h in
      let s' = (verify_challenge recover a body now s).1 in
      let row =
        select-update_key (λ x. x.challenge_id) (has_challenge_id body.challenge_id)
          (λ x. record x { used = true }) (λ y. refl) body.challenge_id v.challenge s.challenges
          v.found in
      let own =
        select_holds (has_challenge_id body.challenge_id) v.challenge s.challenges v.found in
      used_lem b again later s' (record v.challenge { used = true })
        (rw (same, marked, row, own) refl) refl
