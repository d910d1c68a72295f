-- ===== src/Participants/Invitations/Resends.antt =====
-- The limits on resending an invitation, and what a resend does to the token.
use creator_first_platform.Base.{
  ℕ, ◌+◌, ◌≤◌, ◌<◌, String, ◌≡◌, refl, Option, some, List, true, arith, Option-cases, inl, inr,
}
use creator_first_platform.Base.Table.{select_holds}
use creator_first_platform.Base.Table.Keyed.{select-update_key}
use creator_first_platform.Base.Exec.{ok}
use creator_first_platform.Participants.Forms.{TextMethods}
use creator_first_platform.Participants.Rows.{sent, Invitation, Database}
use creator_first_platform.Participants.Store.Invitations.{
  has_invitation_id, is_resendable, participant_invitation_by_id,
  rotate_participant_invitation_token, mark_participant_invitation_resent,
}
use creator_first_platform.Participants.Invitations.Availability.{
  resend_availability, resend_at, used_resends, window_start, resend_cooldown_ms,
  max_resends_per_window,
}
use creator_first_platform.Participants.Invitations.Service.{resend_rotate}
use creator_first_platform.Participants.Invitations.Claims.{invitation_key}
use creator_first_platform.Participants.Invitations.Histories.{
  Step, run, IsOrdered, IsKept, Holds-intro, Holds-elim, run_keeps,
}

-- The row after the `n`-th resend of its window.
abbrev pub resent_row : Invitation → ℕ → ℕ → ℕ → Invitation
resent_row row hash now n = record row {
  token_hash = hash;
  sent_at = some now;
  last_resend_at = some now;
  resend_window_started_at = some (window_start row.resend_window_started_at now);
  resend_count = n;
}

-- What a resend that goes through has found.
pub record IsResendable (row : Invitation) (now n : ℕ) : Type 0 where
  pub was_sent : row.state ≡ sent
  pub unexpired : now < row.expires_at
  pub due : resend_at row ≤ now
  pub counted : n ≡ used_resends row now + 1
  pub limited : n ≤ max_resends_per_window

available_lem :
    (row : Invitation) (now : ℕ)
    → (resend_availability (some row) now).available ≡ true
    → IsResendable row now ((resend_availability (some row) now).resend_count + 1)
      × ((resend_availability (some row) now).window_started_at
          ≡ some (window_start row.resend_window_started_at now))
unfolding resend_availability
available_lem row now h = ground arith

module _ (id : ℕ) (row : Invitation) (db : Database)
    (found : participant_invitation_by_id id db ≡ some row) (open_row : row.state ≡ sent) where
  own_id : row.invitation_id ≡ id
  unfolding participant_invitation_by_id
  own_id = ground (arith, select_holds (has_invitation_id id) row db.invitations found)

  rotated_row :
      (hash expires : ℕ)
      → participant_invitation_by_id id (rotate_participant_invitation_token id hash expires db).0
        ≡ some (record row { token_hash = hash; expires_at = expires })
  unfolding participant_invitation_by_id rotate_participant_invitation_token
  rotated_row hash expires = ground (
    arith,
    own_id,
    select-update_key invitation_key (is_resendable id)
        (λ r. record r { token_hash = hash; expires_at = expires }) (λ y. refl) id row
        db.invitations found,
  )

  marked_row :
      (now n : ℕ) (start : Option ℕ)
      → participant_invitation_by_id id (mark_participant_invitation_resent id now start n db)
        ≡ some (record row {
          sent_at = some now;
          last_resend_at = some now;
          resend_window_started_at = start;
          resend_count = n;
        })
  unfolding participant_invitation_by_id mark_participant_invitation_resent
  marked_row now n start = ground (
    arith,
    own_id,
    select-update_key invitation_key (is_resendable id)
        (λ r. record r {
          sent_at = some now;
          last_resend_at = some now;
          resend_window_started_at = start;
          resend_count = n;
        })
        (λ y. refl) id row db.invitations found,
  )

module _ (digest : String → ℕ) (methods : TextMethods) where
  -- A resend goes through only for a row that is sent and not expired, whose delay is over, and as
  -- the next one, of at most three, of its window.
  pub resend_rotate_requires :
      (id : ℕ) (token : String) (now n : ℕ) (db : Database)
      → (resend_rotate digest methods id token now db).0 ≡ ok n
      → (row : Invitation) × (participant_invitation_by_id id db ≡ some row)
        × IsResendable row now n
  unfolding resend_rotate
  resend_rotate_requires id token now n db h =
      elim (Option-cases (participant_invitation_by_id id db)) [
        | inl missing ↦ absurd (ground arith)
        | inr (row, found) ↦
            let (limits, start) = available_lem row now (ground arith) in (row, found, ground arith)
      ]

  -- And then its row has the new token and the new count.
  pub resend_rotate_writes :
      (id : ℕ) (token : String) (now n : ℕ) (row : Invitation) (db : Database)
      → participant_invitation_by_id id db ≡ some row
      → (resend_rotate digest methods id token now db).0 ≡ ok n
      → participant_invitation_by_id id (resend_rotate digest methods id token now db).1
        ≡ some (resent_row row (digest token) now n)
  unfolding resend_rotate
  resend_rotate_writes id token now n row db found h =
      let (limits, start) = available_lem row now (ground arith) in
      let db' = (rotate_participant_invitation_token id (digest token) row.expires_at db).0 in
      let turned = rotated_row id row db found limits.was_sent (digest token) row.expires_at in
      ground (
        arith,
        marked_row id (record row { token_hash = digest token }) db' turned limits.was_sent now n
            (some (window_start row.resend_window_started_at now)),
      )

-- The last resend was at `start` or later.
abbrev IsResentSince : ℕ → Invitation → Type 0
IsResentSince start r = (t : ℕ) × (r.last_resend_at ≡ some t) × (start ≤ t)

since-IsKept : (start now : ℕ) → start ≤ now → IsKept (IsResentSince start) now
since-IsKept start now later = record {
  on_sent = λ r p h. h;
  on_rotated = λ r hash expires p h. h;
  on_resent = λ r w n p h. (now, refl, later);
  on_claimed = λ r w p h. h;
}

-- Two resends of one invitation that both go through are at least ten minutes apart, whatever
-- handlers run in between, under a clock that does not run backwards.
pub resends_apart :
    (digest : String → ℕ) (methods : TextMethods) (get_address : ℕ → Option ℕ) (id t t' n n' : ℕ)
    (token token' : String) (es : List (ℕ × Step)) (db : Database)
    → (resend_rotate digest methods id token t db).0 ≡ ok n
    → IsOrdered t es
    → (resend_rotate digest methods id token' t'
        (run digest methods get_address (resend_rotate digest methods id token t db).1 es)).0
      ≡ ok n'
    → t + resend_cooldown_ms ≤ t'
resends_apart digest methods g id t t' n n' token token' es db first o second =
    let (row, found, limits) = resend_rotate_requires digest methods id token t n db first in
    let db' = (resend_rotate digest methods id token t db).1 in
    let written = resend_rotate_writes digest methods id token t n row db found first in
    let kept =
      run_keeps digest methods g id (IsResentSince t) t t (since-IsKept t) (omega arith) es db' o (
        Holds-intro id (IsResentSince t) (resent_row row (digest token) t n) db' written
          (t, refl, omega arith)) in
    let (r, e, since) = Holds-elim id (IsResentSince t) (run digest methods g db' es) kept in
    let (r', e', limits') =
      resend_rotate_requires digest methods id token' t' n' (run digest methods g db' es) second in
    ground arith
