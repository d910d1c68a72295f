-- ===== src/Playback/Store.antt =====
-- The playback tables of apps/gateway/src/GatewayStore.js. Identifiers, digests and tokens that the
-- code makes itself are only compared, so they are natural numbers; a time is a number of
-- milliseconds, also where the column holds its ISO text, which orders the same way.
use creator_first_platform.Base.{
  ℕ, ◌+◌, String, Bool, true, false, Option, none, some, List, [], ◌∷◌, ◌&&◌, ◌==◌, ltb, leb,
  str_eq, if◌then◌else◌,
}
use creator_first_platform.Base.Table.{select, update, count, insert}

pub data SessionState : Type 0 where
  authorized started active closed revoked expired : SessionState

-- `state IN ('AUTHORIZED', 'STARTED', 'ACTIVE')`
abbrev pub is_open : SessionState → Bool
is_open authorized = true
is_open started = true
is_open active = true
is_open closed = false
is_open revoked = false
is_open expired = false

-- `state NOT IN ('CLOSED', 'REVOKED', 'EXPIRED')`
abbrev pub is_not_ended : SessionState → Bool
is_not_ended closed = false
is_not_ended revoked = false
is_not_ended expired = false
is_not_ended _ = true

pub data Reason : Type 0 where
  authorized_reason account_restricted_reason subscription_inactive_reason : Reason
  early_supporter_reason supporter_reason budget_reason concurrency_reason : Reason

-- authorization_decisions
pub record Decision : Type 0 where
  pub decision_id : ℕ
  pub owner_id : ℕ
  pub track_id : String
  pub allowed : Bool
  pub reason_code : Reason
  pub rights_version : String
  pub decided_at : ℕ

-- playback_sessions
pub record Session : Type 0 where
  pub session_id : ℕ
  pub decision_id : ℕ
  pub owner_id : ℕ
  pub track_id : String
  pub adapter_ref : String
  pub state : SessionState
  pub issued_at : ℕ
  pub expires_at : ℕ
  pub lease_released : Bool
  pub bytes_delivered : ℕ

-- The JSON answer of `createPlayback`; `streamUrl` is a fixed prefix and the session's identifier.
pub record PlaybackResponse : Type 0 where
  pub playback_session_id : ℕ
  pub expires_at : ℕ

-- idempotency_keys
pub record IdempotencyKey : Type 0 where
  pub owner_id : ℕ
  pub idempotency_key : String
  pub request_hash : ℕ
  pub response : PlaybackResponse

-- delivery_evidence
pub record Evidence : Type 0 where
  pub evidence_id : ℕ
  pub session_id : ℕ
  pub decision_id : ℕ
  pub track_id : String
  pub response_status : ℕ
  pub bytes_delivered : ℕ
  pub started_at : ℕ
  pub completed_at : ℕ

pub record PlaybackStore : Type 0 where
  pub decisions : List Decision
  pub sessions : List Session
  pub idempotency_keys : List IdempotencyKey
  pub delivery_evidence : List Evidence

abbrev pub has_session_id : ℕ → Session → Bool
has_session_id id s = s.session_id == id

-- the condition of `activeSessionForOwner`
abbrev pub is_live : ℕ → ℕ → Session → Bool
is_live owner now s = s.owner_id == owner && is_open s.state && ltb now s.expires_at

unfoldable pub record_decision : Decision → PlaybackStore → PlaybackStore
record_decision value s = record s { decisions = insert value s.decisions }

unfoldable pub active_session_for_owner : ℕ → ℕ → PlaybackStore → Option Session
active_session_for_owner owner now s = select (is_live owner now) s.sessions

-- The row that `createSession` writes; the other columns take their defaults.
unfoldable pub new_session : ℕ → ℕ → ℕ → String → String → ℕ → ℕ → Session
new_session session_id decision_id owner_id track_id adapter_ref issued_at expires_at = record {
  session_id = session_id;
  decision_id = decision_id;
  owner_id = owner_id;
  track_id = track_id;
  adapter_ref = adapter_ref;
  state = authorized;
  issued_at = issued_at;
  expires_at = expires_at;
  lease_released = false;
  bytes_delivered = 0;
}

-- The caller draws a fresh 32-byte identifier; a clash would break the primary key, so `none`.
unfoldable pub create_session : Session → PlaybackStore → Option PlaybackStore
create_session value s = elim (select (has_session_id value.session_id) s.sessions) [
  | none ↦ some (record s { sessions = insert value s.sessions })
  | some _ ↦ none
]

unfoldable pub session : ℕ → PlaybackStore → Option Session
session id s = select (has_session_id id) s.sessions

unfoldable pub set_session_state : ℕ → SessionState → PlaybackStore → PlaybackStore
set_session_state id state s = record s {
  sessions = update (has_session_id id) (λ r. record r { state = state }) s.sessions;
}

abbrev pub is_closable : ℕ → ℕ → Session → Bool
is_closable id owner r = r.session_id == id && r.owner_id == owner && is_not_ended r.state

-- with the number of rows changed
unfoldable pub close_session : ℕ → ℕ → PlaybackStore → PlaybackStore × ℕ
close_session id owner s = (
  record s {
    sessions =
        update (is_closable id owner) (λ r. record r { state = closed; lease_released = true })
          s.sessions;
  },
  count (is_closable id owner) s.sessions,
)

unfoldable pub expire_session : ℕ → PlaybackStore → PlaybackStore
expire_session id s = record s {
  sessions =
      update (has_session_id id) (λ r. record r { state = expired; lease_released = true })
        s.sessions;
}

abbrev pub is_key_of : ℕ → String → IdempotencyKey → Bool
is_key_of owner key k = k.owner_id == owner && str_eq k.idempotency_key key

unfoldable pub idempotent_response : ℕ → String → PlaybackStore → Option IdempotencyKey
idempotent_response owner key s = select (is_key_of owner key) s.idempotency_keys

-- The caller has just found no row for this key, so the primary key holds.
unfoldable pub save_idempotent_response : IdempotencyKey → PlaybackStore → PlaybackStore
save_idempotent_response value s = record s { idempotency_keys = insert value s.idempotency_keys }

abbrev pub is_running : ℕ → Session → Bool
is_running id r = r.session_id == id && is_not_ended r.state

-- `INSERT OR IGNORE` and the `UPDATE`, in one transaction
unfoldable pub record_evidence : Evidence → PlaybackStore → PlaybackStore
record_evidence value s = record s {
  delivery_evidence = elim (select (λ e. e.evidence_id == value.evidence_id) s.delivery_evidence) [
    | none ↦ insert value s.delivery_evidence
    | some _ ↦ s.delivery_evidence
  ];
  sessions =
      update (is_running value.session_id)
        (λ r. record r {
          bytes_delivered = r.bytes_delivered + value.bytes_delivered;
          state = active;
        })
        s.sessions;
}

abbrev pub sum_since : ℕ → List Evidence → ℕ
sum_since start [] = 0
sum_since start (e ∷ es) =
    (if leb start e.completed_at then e.bytes_delivered else 0) + sum_since start es

unfoldable pub delivered_bytes_since : ℕ → PlaybackStore → ℕ
delivered_bytes_since start s = sum_since start s.delivery_evidence
