-- ===== src/Playback/Deliver.antt =====
-- `deliverStream` of apps/gateway/src/server.js. It waits once, for the media adapter:
-- `deliver_check` is its part before the wait, `deliver_open` its part after, and `stream_event` a
-- callback of the stream that is then under way.
use creator_first_platform.Base.{ℕ, ◌+◌, Bool, true, false, List, [], ◌∷◌, ◌==◌, leb, if◌then◌else◌}
use creator_first_platform.Base.Exec.{
  Exec, pure, throw, gets, modify, require, or_throw, ◌>>=◌, ◌>>◌,
}
use creator_first_platform.Base.Exec.Codes.{
  playback_session_not_found, playback_session_expired, playback_session_inactive,
  media_adapter_failure, range_not_satisfiable,
}
use creator_first_platform.Account.{Account}
use creator_first_platform.Playback.Store.{
  started, is_open, Session, Evidence, PlaybackStore, session, set_session_state, expire_session,
  record_evidence,
}

abbrev Playback : Type 0 → Type 0
Playback = Exec PlaybackStore

-- `if (session.expires_at <= Date.now()) { store.expireSession(sessionId); throw … }`
unfoldable pub check_expiry : Session → ℕ → Playback (Unit {0})
unfolding expire_session
check_expiry row now =
    if leb row.expires_at now
    then (do modify (expire_session row.session_id); throw 410 playback_session_expired)
    else pure tt

unfoldable pub deliver_check : Account → ℕ → ℕ → Playback Session
unfolding session check_expiry
deliver_check account session_id now = do
  found ← gets (session session_id)
  row ← or_throw found 404 playback_session_not_found
  require (row.owner_id == account.account_id) 404 playback_session_not_found
  check_expiry row now
  require (is_open row.state) 410 playback_session_inactive
  pure row

-- What `mediaAdapter.open` came to: a stream with its status, a `RangeError`, or another error.
pub data Opened : Type 0 where
  opened : ℕ → Opened
  bad_range failed : Opened

-- The closure of a delivery under way: `bytesDelivered`, `recorded` and what they go with.
pub record Delivery : Type 0 where
  pub session : Session
  pub status : ℕ
  pub started_at : ℕ
  pub bytes_delivered : ℕ
  pub recorded : Bool

unfoldable pub deliver_open : Session → ℕ → Opened → Playback Delivery
unfolding set_session_state
deliver_open row started_at (opened status) = do
  modify (set_session_state row.session_id started)
  pure (record {
    session = row;
    status = status;
    started_at = started_at;
    bytes_delivered = 0;
    recorded = false;
  })
deliver_open row started_at bad_range = throw 416 range_not_satisfiable
deliver_open row started_at failed = throw 502 media_adapter_failure

-- The whole handler where nothing else runs while it waits.
unfoldable pub deliver_stream : Account → ℕ → ℕ → Opened → Playback Delivery
deliver_stream account session_id now outcome = do
  row ← deliver_check account session_id now
  deliver_open row now outcome

-- `data` with the length of the chunk; `finished` is any of 'end', 'aborted' and 'close', at a time
-- and with a fresh identifier.
pub data StreamEvent : Type 0 where
  chunk : ℕ → StreamEvent
  finished : ℕ → ℕ → StreamEvent

abbrev pub evidence_of : Delivery → ℕ → ℕ → Evidence
evidence_of d now evidence_id = record {
  evidence_id = evidence_id;
  session_id = d.session.session_id;
  decision_id = d.session.decision_id;
  track_id = d.session.track_id;
  response_status = d.status;
  bytes_delivered = d.bytes_delivered;
  started_at = d.started_at;
  completed_at = now;
}

-- the closure `record`
unfoldable pub record_once : Delivery → ℕ → ℕ → PlaybackStore → Delivery × PlaybackStore
record_once d now evidence_id s =
    if d.recorded
    then (d, s)
    else (record d { recorded = true }, record_evidence (evidence_of d now evidence_id) s)

unfoldable pub stream_event : StreamEvent → Delivery × PlaybackStore → Delivery × PlaybackStore
unfolding record_once
stream_event (chunk n) (d, s) = (record d { bytes_delivered = d.bytes_delivered + n }, s)
stream_event (finished now id) (d, s) = record_once d now id s

unfoldable pub stream : List StreamEvent → Delivery × PlaybackStore → Delivery × PlaybackStore
stream [] st = st
stream (e ∷ es) st = stream es (stream_event e st)
