-- ===== src/SignIn/Histories.antt =====
-- Histories of the two handlers: a linked wallet comes with a signature over what it is linked to.
use creator_first_platform.Base.{
  ℕ, ◌≡◌, refl, String, Bool, true, Option, none, some, List, [], ◌∷◌, arith, Option-cases,
  Bool-cases, subst, sym, ap, ◌∙◌, inl, inr,
}
use creator_first_platform.Base.Table.{select, update, insert}
use creator_first_platform.Base.Exec.{ok, bind_keeps, Result-cases}
use creator_first_platform.Account.{Account}
use creator_first_platform.Participants.Forms.{TextMethods}
use creator_first_platform.Participants.Rows.{Database}
use creator_first_platform.SignIn.Challenges.{
  Message, Challenge, SignIn, ChallengeForm, VerifyForm, has_challenge_id, new_challenge,
  address_of, proof_for, create_challenge, verify_check, verify_finish, verify_challenge,
}
use creator_first_platform.SignIn.Proofs.{verified}

-- Each challenge's message names the wallet and the invitation of the challenge.
IsFaithful : List Challenge → Type 0
IsFaithful [] = Unit {0}
IsFaithful (c ∷ cs) =
    (c.message.address ≡ c.address)
    × (c.message.proof ≡ c.participant_invitation_proof)
    × IsFaithful cs

insert-IsFaithful :
    (c : Challenge) (cs : List Challenge)
    → c.message.address ≡ c.address
    → c.message.proof ≡ c.participant_invitation_proof
    → IsFaithful cs
    → IsFaithful (insert c cs)
unfolding IsFaithful
insert-IsFaithful c [] a p h = (a, p, tt)
insert-IsFaithful c (x ∷ cs) a p h = (h.0, h.1, insert-IsFaithful c cs a p h.2)

update-IsFaithful :
    (q : Challenge → Bool) (cs : List Challenge)
    → IsFaithful cs
    → IsFaithful (update q (λ x. record x { used = true }) cs)
unfolding IsFaithful update
update-IsFaithful q [] h = tt
update-IsFaithful q (x ∷ cs) h = (ground arith, ground arith, update-IsFaithful q cs h.2)

select-IsFaithful :
    (q : Challenge → Bool) (c : Challenge) (cs : List Challenge)
    → IsFaithful cs
    → select q cs ≡ some c
    → (c.message.address ≡ c.address) × (c.message.proof ≡ c.participant_invitation_proof)
unfolding IsFaithful select
select-IsFaithful q c [] h e = absurd (ground arith)
select-IsFaithful q c (x ∷ cs) h e =
    let rest : select q cs ≡ some c
        → (c.message.address ≡ c.address) × (c.message.proof ≡ c.participant_invitation_proof) =
      select-IsFaithful q c cs h.2 in
    elim (Bool-cases (q x)) [
      | inl hit ↦
          let same : x ≡ c = ground arith in
          subst
            (λ y.
              (y.message.address ≡ y.address) × (y.message.proof ≡ y.participant_invitation_proof))
            same (h.0, h.1)
      | inr miss ↦ rest (ground arith)
    ]

module _ (recover : Message → String → Option ℕ) where
  verify_check_state :
      (a : Account) (body : VerifyForm) (now : ℕ) (s : SignIn)
      → (verify_check recover a body now s).1 ≡ s
  unfolding verify_check
  verify_check_state a body now s = ground arith

  finish-IsFaithful :
      (a : Account) (c : Challenge) (sig : String) (s : SignIn)
      → IsFaithful s.challenges
      → IsFaithful (verify_finish recover a c sig s).1.challenges
  unfolding verify_finish
  finish-IsFaithful a c sig s h =
      ground (arith, update-IsFaithful (has_challenge_id c.challenge_id) s.challenges h)

  verify-IsFaithful :
      (a : Account) (body : VerifyForm) (now : ℕ) (s : SignIn)
      → IsFaithful s.challenges
      → IsFaithful (verify_challenge recover a body now s).1.challenges
  unfolding verify_challenge
  verify-IsFaithful a body now s h =
      bind_keeps (λ t. IsFaithful t.challenges) (verify_check recover a body now) _ s
        (rw (verify_check_state a body now s) h)
        λ (c, sig) r.
          finish-IsFaithful a c sig (verify_check recover a body now s).1
            (rw (verify_check_state a body now s) h)

module _ (digest : String → ℕ) (methods : TextMethods) (get_address : ℕ → Option ℕ)
    (chain_id : ℕ) where
  proof_for_state :
      (body : ChallengeForm) (now : ℕ) (token : Option String) (s : SignIn)
      → (proof_for digest methods body now token s).1.challenges ≡ s.challenges
  unfolding proof_for
  proof_for_state body now none s = refl
  proof_for_state body now (some token) s = ground arith

  create-IsFaithful :
      (a : Account) (body : ChallengeForm) (id nonce now : ℕ) (s : SignIn)
      → IsFaithful s.challenges
      → IsFaithful
          (create_challenge digest methods get_address chain_id a body id nonce now s).1.challenges
  unfolding create_challenge
  create-IsFaithful a body id nonce now s h =
      let same = proof_for_state body now body.invitation_token s in
      elim (Option-cases (address_of get_address body.address)) [
        | inl missing ↦ ground arith
        | inr (w, valid) ↦
            elim (Result-cases (proof_for digest methods body now body.invitation_token s).0) [
              | inl (p, r) ↦
                  let kept =
                    insert-IsFaithful (new_challenge a w id nonce now p) s.challenges refl refl h in
                  ground arith
              | inr (f, r) ↦ ground arith
            ]
      ]

-- A call of one of the two handlers, or a write to the database by another one.
pub data Step : Type 0 where
  creates : Account → ChallengeForm → ℕ → ℕ → Step
  verifies : Account → VerifyForm → Step
  writes : (Database → Database) → Step

module _ (recover : Message → String → Option ℕ) (digest : String → ℕ) (methods : TextMethods)
    (get_address : ℕ → Option ℕ) (chain_id : ℕ) where
  unfoldable pub step : SignIn → ℕ × Step → SignIn
  step s (now, creates a body id nonce) =
      (create_challenge digest methods get_address chain_id a body id nonce now s).1
  step s (now, verifies a body) = (verify_challenge recover a body now s).1
  step s (now, writes f) = record s { database = f s.database }

  unfoldable pub run : SignIn → List (ℕ × Step) → SignIn
  run s [] = s
  run s (e ∷ es) = run (step s e) es

  step-IsFaithful :
      (s : SignIn) (now : ℕ) (e : Step)
      → IsFaithful s.challenges
      → IsFaithful (step s (now, e)).challenges
  unfolding step
  step-IsFaithful s now (creates a body id nonce) h =
      create-IsFaithful digest methods get_address chain_id a body id nonce now s h
  step-IsFaithful s now (verifies a body) h = verify-IsFaithful recover a body now s h
  step-IsFaithful s now (writes f) h = h

  run-IsFaithful :
      (s : SignIn) (es : List (ℕ × Step))
      → IsFaithful s.challenges
      → IsFaithful (run s es).challenges
  unfolding run
  run-IsFaithful s [] h = h
  run-IsFaithful s ((now, e) ∷ es) h =
      run-IsFaithful (step s (now, e)) es (step-IsFaithful s now e h)

  -- From a state without challenges, after any history of the two handlers and of other writes to
  -- the database, a verification that succeeds links the wallet that a message names, and the
  -- proof of invitation that it names, where the recovered signer of that message is that wallet.
  pub run_proves :
      (s : SignIn) (es : List (ℕ × Step)) (a : Account) (body : VerifyForm) (now : ℕ) (a' : Account)
      → s.challenges ≡ []
      → (verify_challenge recover a body now (run s es)).0 ≡ ok a'
      → (m : Message) × (signature : String) × (recover m signature ≡ some m.address)
        × (a'.wallet_address ≡ some m.address)
        × (a'.participant_invitation_proof ≡ m.proof)
  unfolding IsFaithful
  run_proves s es a body now a' start h =
      let (v, marked) = verified recover a body now (run s es) a' h in
      let (same, proof) =
        select-IsFaithful (has_challenge_id body.challenge_id) v.challenge (run s es).challenges
          (run-IsFaithful s es (rw start tt)) v.found in
      (
        v.challenge.message,
        v.signature,
        v.signed ∙ ap some (sym same),
        v.linked ∙ ap some (sym same),
        v.proven ∙ sym proof,
      )
