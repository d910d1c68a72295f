-- ===== src/Participants/Invitations/Histories.antt =====
-- Histories of the invitation service: steps on a database. A handler that awaits the mailer is two steps, so
-- that a history is any interleaving of handlers.
use creator_first_platform.Base.{
  ℕ, ◌≤◌, String, ◌≡◌, refl, Bool, true, Option, none, some, List, [], ◌∷◌, arith, if◌then◌else◌,
  Bool-cases, inl, inr,
}
use creator_first_platform.Base.Table.{select, update, insert, select-insert_old}
use creator_first_platform.Base.Table.Keyed.{select-update_key}
use creator_first_platform.Account.{Account}
use creator_first_platform.Participants.Forms.{TextMethods}
use creator_first_platform.Participants.Rows.{claimed, sent, Invitation, Database}
use creator_first_platform.Participants.Store.Invitations.{
  participant_invitation_by_id, has_invitation_id, is_sent, is_pending, is_resendable, is_markable,
  is_claimable, mark_participant_invitation_sent, rotate_participant_invitation_token,
  mark_participant_invitation_resent, claim_participant_invitation,
}
use creator_first_platform.Participants.Invitations.Service.{
  InvitationForm, ConsentForm, create, send_check, send_finish, resend_rotate, resend_finish, claim,
  claim_row, claim_open, claim_write, claim_again,
}

pub data Step : Type 0 where
  creates : InvitationForm → ℕ → String → Step
  checks_send : ℕ → String → Step
  finishes_send : ℕ → Option ℕ → Step
  rotates : ℕ → String → Step
  -- with the `attemptedAt` of its first part
  finishes_resend : ℕ → String → Option ℕ → ℕ → Step
  claims : String → Account → ConsentForm → Step

module _ (digest : String → ℕ) (methods : TextMethods) (get_address : ℕ → Option ℕ) where
  unfoldable pub step : Database → ℕ × Step → Database
  step db (now, creates form id token) = (create digest methods form id token now db).1
  step db (now, checks_send id token) = (send_check digest methods id token now db).1
  step db (now, finishes_send id mail) = (send_finish digest methods id mail now db).1
  step db (now, rotates id token) = (resend_rotate digest methods id token now db).1
  step db (now, finishes_resend id key mail attempted_at) =
      (resend_finish digest methods id key mail attempted_at db).1
  step db (now, claims token account form) =
      (claim digest methods get_address token account form now db).1

  unfoldable pub run : Database → List (ℕ × Step) → Database
  run db [] = db
  run db (e ∷ es) = run (step db e) es

-- The row under an identifier is there and has a property.
pub Holds : ℕ → (Invitation → Type 0) → List Invitation → Type 0
Holds id Q rows = (r : Invitation) × (select (has_invitation_id id) rows ≡ some r) × Q r

pub Holds-intro :
    (id : ℕ) (Q : Invitation → Type 0) (r : Invitation) (db : Database)
    → participant_invitation_by_id id db ≡ some r
    → Q r
    → Holds id Q db.invitations
unfolding Holds participant_invitation_by_id
Holds-intro id Q r db e q = (r, e, q)

pub Holds-elim :
    (id : ℕ) (Q : Invitation → Type 0) (db : Database)
    → Holds id Q db.invitations
    → (r : Invitation) × (participant_invitation_by_id id db ≡ some r) × Q r
unfolding Holds participant_invitation_by_id
Holds-elim id Q db h = h

-- A property of a row that every statement which the service makes at `now` keeps.
pub record IsKept (Q : Invitation → Type 0) (now : ℕ) : Type 0 where
  pub on_sent :
      (r : Invitation)
      → is_pending r.state ≡ true
      → Q r
      → Q (record r { state = sent; sent_at = some now })
  pub on_rotated :
      (r : Invitation) (hash expires : ℕ)
      → is_sent r.state ≡ true
      → Q r
      → Q (record r { token_hash = hash; expires_at = expires })
  pub on_resent :
      (r : Invitation) (start : Option ℕ) (n : ℕ)
      → is_sent r.state ≡ true
      → Q r
      → Q (record r {
        sent_at = some now;
        last_resend_at = some now;
        resend_window_started_at = start;
        resend_count = n;
      })
  pub on_claimed :
      (r : Invitation) (wallet : ℕ)
      → is_pending r.state ≡ true
      → Q r
      → Q (record r { state = claimed; claimed_wallet = some wallet; claimed_at = some now })

update_keeps :
    (id : ℕ) (Q : Invitation → Type 0) (q : Invitation → Bool) (f : Invitation → Invitation)
    (rows : List Invitation)
    → ((y : Invitation) → (f y).invitation_id ≡ y.invitation_id)
    → ((y : Invitation) → q y ≡ true → Q y → Q (f y))
    → Holds id Q rows
    → Holds id Q (update q f rows)
unfolding Holds
update_keeps id Q q f rows keep step_lem (r, e, h) = (
  if q r then f r else r,
  select-update_key (λ y. y.invitation_id) q f keep id r rows e,
  elim (Bool-cases (q r)) [ inl hit ↦ rw hit (step_lem r hit h) | inr miss ↦ rw miss h ],
)

insert_keeps :
    (id : ℕ) (Q : Invitation → Type 0) (x : Invitation) (rows : List Invitation)
    → Holds id Q rows
    → Holds id Q (insert x rows)
unfolding Holds
insert_keeps id Q x rows (r, e, h) = (r, select-insert_old (has_invitation_id id) x rows r e, h)

module _ (id : ℕ) (Q : Invitation → Type 0) (now : ℕ) (kept : IsKept Q now) where
  sent_keeps :
      (i : ℕ) (db : Database)
      → Holds id Q db.invitations
      → Holds id Q (mark_participant_invitation_sent i now db).invitations
  unfolding mark_participant_invitation_sent
  sent_keeps i db =
      update_keeps id Q (is_markable i) _ db.invitations (λ y. refl)
        (λ y h. kept.on_sent y (ground arith))

  rotated_keeps :
      (i hash expires : ℕ) (db : Database)
      → Holds id Q db.invitations
      → Holds id Q (rotate_participant_invitation_token i hash expires db).0.invitations
  unfolding rotate_participant_invitation_token
  rotated_keeps i hash expires db =
      update_keeps id Q (is_resendable i) _ db.invitations (λ y. refl)
        (λ y h. kept.on_rotated y hash expires (ground arith))

  resent_keeps :
      (i : ℕ) (start : Option ℕ) (n : ℕ) (db : Database)
      → Holds id Q db.invitations
      → Holds id Q (mark_participant_invitation_resent i now start n db).invitations
  unfolding mark_participant_invitation_resent
  resent_keeps i start n db =
      update_keeps id Q (is_resendable i) _ db.invitations (λ y. refl)
        (λ y h. kept.on_resent y start n (ground arith))

  claimed_keeps :
      (i wallet : ℕ) (db : Database)
      → Holds id Q db.invitations
      → Holds id Q (claim_participant_invitation i wallet now db).0.invitations
  unfolding claim_participant_invitation
  claimed_keeps i wallet db =
      update_keeps id Q (is_claimable i now) _ db.invitations (λ y. refl)
        (λ y h. kept.on_claimed y wallet (ground arith))

  module _ (digest : String → ℕ) (methods : TextMethods) (db : Database)
      (h : Holds id Q db.invitations) where
    create_keeps :
        (form : InvitationForm) (i : ℕ) (token : String)
        → Holds id Q (create digest methods form i token now db).1.invitations
    unfolding create
    create_keeps form i token = grind (arith, insert_keeps)

    send_check_keeps :
        (i : ℕ) (token : String)
        → Holds id Q (send_check digest methods i token now db).1.invitations
    unfolding send_check
    send_check_keeps i token = grind arith

    send_finish_keeps :
        (i : ℕ) (mail : Option ℕ)
        → Holds id Q (send_finish digest methods i mail now db).1.invitations
    unfolding send_finish
    send_finish_keeps i none = h
    send_finish_keeps i (some d) = sent_keeps i db h

    resend_rotate_keeps :
        (i : ℕ) (token : String)
        → Holds id Q (resend_rotate digest methods i token now db).1.invitations
    unfolding resend_rotate
    resend_rotate_keeps i token = grind (arith, rotated_keeps, resent_keeps)

    resend_finish_keeps :
        (i : ℕ) (key : String) (mail : Option ℕ) (attempted_at : ℕ)
        → Holds id Q (resend_finish digest methods i key mail attempted_at db).1.invitations
    unfolding resend_finish
    resend_finish_keeps i key none at = h
    resend_finish_keeps i key (some d) at = grind arith

    claim_write_keeps :
        (g : ℕ → Option ℕ) (row : Invitation) (a : Account) (w : ℕ)
        → Holds id Q (claim_write digest methods g row a w now db).1.invitations
    unfolding claim_write
    claim_write_keeps g row a w = let k = claimed_keeps row.invitation_id w db h in ground arith

    claim_keeps :
        (g : ℕ → Option ℕ) (token : String) (a : Account) (form : ConsentForm)
        → Holds id Q (claim digest methods g token a form now db).1.invitations
    unfolding claim claim_row claim_again claim_open
    claim_keeps g token a form = grind (arith, claim_write_keeps)

  -- One step of a handler keeps what each statement keeps.
  step_keeps :
      (digest : String → ℕ) (methods : TextMethods) (g : ℕ → Option ℕ) (e : Step) (db : Database)
      → Holds id Q db.invitations
      → Holds id Q (step digest methods g db (now, e)).invitations
  unfolding step
  step_keeps digest methods g (creates f i t) db h = create_keeps digest methods db h f i t
  step_keeps digest methods g (checks_send i t) db h = send_check_keeps digest methods db h i t
  step_keeps digest methods g (finishes_send i m) db h = send_finish_keeps digest methods db h i m
  step_keeps digest methods g (rotates i t) db h = resend_rotate_keeps digest methods db h i t
  step_keeps digest methods g (finishes_resend i k m t) db h =
      resend_finish_keeps digest methods db h i k m t
  step_keeps digest methods g (claims t a f) db h = claim_keeps digest methods db h g t a f

-- The clock does not run backwards along a history that begins at `start`.
abbrev pub IsOrdered : ℕ → List (ℕ × Step) → Type 0
IsOrdered start [] = Unit {0}
IsOrdered start ((now, _) ∷ es) = (start ≤ now) × IsOrdered now es

pub run_keeps :
    (digest : String → ℕ) (methods : TextMethods) (g : ℕ → Option ℕ) (id : ℕ)
    (Q : Invitation → Type 0) (start now : ℕ)
    → ((t : ℕ) → start ≤ t → IsKept Q t)
    → start ≤ now
    → (es : List (ℕ × Step)) (db : Database) → IsOrdered now es
    → Holds id Q db.invitations
    → Holds id Q (run digest methods g db es).invitations
unfolding run
run_keeps digest methods g id Q start now kept later [] db o h = h
run_keeps digest methods g id Q start now kept later ((t, e) ∷ es) db o h =
    run_keeps digest methods g id Q start t kept (omega arith) es (step digest methods g db (t, e))
      o.1 (step_keeps id Q t (kept t (omega arith)) digest methods g e db h)
