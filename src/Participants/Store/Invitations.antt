-- ===== src/Participants/Store/Invitations.antt =====
-- The invitation statements of apps/gateway/src/GatewayStore.js. An `UPDATE` comes with the number
-- of rows that it changes, where the callers read it.
use creator_first_platform.Base.{
  ℕ, String, Bool, true, false, Option, none, some, ◌&&◌, ◌==◌, ltb, str_eq,
}
use creator_first_platform.Base.Table.{select, update, count, insert}
use creator_first_platform.Participants.Rows.{
  InvitationState, created, sent, claimed, Invitation, InvitationEvent, ResendRequest, Database,
}

abbrev pub has_invitation_id : ℕ → Invitation → Bool
has_invitation_id id r = r.invitation_id == id

abbrev pub has_token_hash : ℕ → Invitation → Bool
has_token_hash hash r = r.token_hash == hash

abbrev pub is_sent : InvitationState → Bool
is_sent sent = true
is_sent _ = false

-- `state IN ('CREATED', 'SENT')`
abbrev pub is_pending : InvitationState → Bool
is_pending created = true
is_pending sent = true
is_pending _ = false

-- The caller draws a fresh identifier and a fresh 32-byte token.
unfoldable pub create_participant_invitation : Invitation → Database → Database
create_participant_invitation value db = record db { invitations = insert value db.invitations }

unfoldable pub participant_invitation_by_id : ℕ → Database → Option Invitation
participant_invitation_by_id id db = select (has_invitation_id id) db.invitations

unfoldable pub participant_invitation_by_token_hash : ℕ → Database → Option Invitation
participant_invitation_by_token_hash hash db = select (has_token_hash hash) db.invitations

abbrev pub is_markable : ℕ → Invitation → Bool
is_markable id r = r.invitation_id == id && is_pending r.state

unfoldable pub mark_participant_invitation_sent : ℕ → ℕ → Database → Database
mark_participant_invitation_sent id sent_at db = record db {
  invitations =
      update (is_markable id) (λ r. record r { state = sent; sent_at = some sent_at })
        db.invitations;
}

abbrev pub is_resendable : ℕ → Invitation → Bool
is_resendable id r = r.invitation_id == id && is_sent r.state

unfoldable pub rotate_participant_invitation_token : ℕ → ℕ → ℕ → Database → Database × ℕ
rotate_participant_invitation_token id token_digest expires_at db = (
  record db {
    invitations =
        update (is_resendable id)
          (λ r. record r { token_hash = token_digest; expires_at = expires_at }) db.invitations;
  },
  count (is_resendable id) db.invitations,
)

unfoldable pub mark_participant_invitation_resent : ℕ → ℕ → Option ℕ → ℕ → Database → Database
mark_participant_invitation_resent id sent_at window_started_at resend_count db = record db {
  invitations =
      update (is_resendable id)
        (λ r. record r {
          sent_at = some sent_at;
          last_resend_at = some sent_at;
          resend_window_started_at = window_started_at;
          resend_count = resend_count;
        })
        db.invitations;
}

abbrev pub is_claimable : ℕ → ℕ → Invitation → Bool
is_claimable id now r = r.invitation_id == id && is_pending r.state && ltb now r.expires_at

unfoldable pub claim_participant_invitation : ℕ → ℕ → ℕ → Database → Database × ℕ
claim_participant_invitation id wallet claimed_at db = (
  record db {
    invitations =
        update (is_claimable id claimed_at)
          (λ r. record r {
            state = claimed;
            claimed_wallet = some wallet;
            claimed_at = some claimed_at;
          })
          db.invitations;
  },
  count (is_claimable id claimed_at) db.invitations,
)

unfoldable pub record_participant_invitation_event : InvitationEvent → Database → Database
record_participant_invitation_event value db = record db {
  invitation_events = insert value db.invitation_events;
}

abbrev pub is_resend_request : ℕ → String → ResendRequest → Bool
is_resend_request id key r = r.invitation_id == id && str_eq r.idempotency_key key

unfoldable pub participant_invitation_resend_request : ℕ → String → Database → Option ResendRequest
participant_invitation_resend_request id key db =
    select (is_resend_request id key) db.resend_requests

-- `none` where the primary key is taken
unfoldable pub record_participant_invitation_resend_request :
    ResendRequest → Database → Option Database
unfolding participant_invitation_resend_request
record_participant_invitation_resend_request value db =
    elim (participant_invitation_resend_request value.invitation_id value.idempotency_key db) [
      | none ↦ some (record db { resend_requests = insert value db.resend_requests })
      | some _ ↦ none
    ]
