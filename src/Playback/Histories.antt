-- ===== src/Playback/Histories.antt =====
-- Histories of playback calls, where no other call runs while `deliverStream` waits for the media
-- adapter, and what goes wrong where one does.
use creator_first_platform.Base.{ℕ, ◌+◌, ◌≤◌, ◌<◌, String, ◌≡◌, true, some, List, [], ◌∷◌, arith}
use mathlib.Core.Path.{subst}
use creator_first_platform.Base.Table.{select, count_mono, select_holds}
use creator_first_platform.Base.Table.Keyed.{IsKeyed, count-update_key}
use creator_first_platform.Base.Exec.{ok, bind_keeps}
use creator_first_platform.Account.{Account}
use creator_first_platform.Playback.Store.{
  is_live, is_open, has_session_id, Session, started, closed, PlaybackStore, close_session,
}
use creator_first_platform.Playback.Create.{
  PlaybackConfig, PlaybackRequest, Moment, create_playback,
}
use creator_first_platform.Playback.Deliver.{
  Opened, opened, bad_range, failed, Delivery, StreamEvent, chunk, finished, stream_event,
  deliver_check, deliver_open, deliver_stream, evidence_of,
}
use creator_first_platform.Playback.Exclusive.{
  session_key, live_count, IsValid, create_playback-IsValid, close_session-IsValid,
  record_evidence-IsValid, expire_session-IsValid, set_started-IsValid,
}

pub data Call : Type 0 where
  create : Account → PlaybackRequest → Moment → Call
  deliver : Account → ℕ → Opened → Call
  event : Delivery → StreamEvent → Call
  close : ℕ → ℕ → Call

-- `DELETE /v1/playback-sessions/…` is `close_session`.
unfoldable pub step : (String → ℕ) → PlaybackConfig → PlaybackStore → ℕ × Call → PlaybackStore
step h c s (now, create a req m) = (create_playback h c a req (record m { now = now }) s).1
step h c s (now, deliver a id outcome) = (deliver_stream a id now outcome s).1
step h c s (now, event d e) = (stream_event e (d, s)).1
step h c s (now, close id owner) = (close_session id owner s).0

unfoldable pub run : (String → ℕ) → PlaybackConfig → PlaybackStore → List (ℕ × Call) → PlaybackStore
run h c s [] = s
run h c s (e ∷ es) = run h c (step h c s e) es

-- The clock does not run backwards from `now` along the history, and ends at `end`.
abbrev pub IsOrdered : ℕ → List (ℕ × Call) → ℕ → Type 0
IsOrdered now [] end = now ≤ end
IsOrdered now ((t, _) ∷ es) end = (now ≤ t) × IsOrdered t es end

later-IsValid : (now t : ℕ) (s : PlaybackStore) → now ≤ t → IsValid now s → IsValid t s
later-IsValid now t s h v = record {
  keyed = v.keyed;
  exclusive = λ o. omega (
    arith,
    v.exclusive o,
    count_mono (is_live o t) (is_live o now) s.sessions (λ r l. ground arith),
  );
}

deliver_check_ok :
    (a : Account) (id now : ℕ) (r : Session) (s : PlaybackStore)
    → (deliver_check a id now s).0 ≡ ok r
    → (select (has_session_id r.session_id) s.sessions ≡ some r)
      × (is_live a.account_id now r ≡ true)
      × ((deliver_check a id now s).1 ≡ s)
unfolding deliver_check
deliver_check_ok a id now r s h =
    let e : select (has_session_id id) s.sessions ≡ some r = ground arith in
    let same : id ≡ r.session_id =
      ground (arith, select_holds (has_session_id id) r s.sessions e) in
    (subst (λ k. select (has_session_id k) s.sessions ≡ some r) same e, ground arith, ground arith)

deliver_check-IsValid :
    (a : Account) (id now : ℕ) (s : PlaybackStore)
    → IsValid now s
    → IsValid now (deliver_check a id now s).1
unfolding deliver_check
deliver_check-IsValid a id now s v = grind (arith, expire_session-IsValid now)

deliver_open-IsValid :
    (now : ℕ) (r : Session) (o : Opened) (s : PlaybackStore)
    → select (has_session_id r.session_id) s.sessions ≡ some r
    → is_open r.state ≡ true
    → IsValid now s
    → IsValid now (deliver_open r now o s).1
unfolding deliver_open
deliver_open-IsValid now r (opened st) s e live v =
    set_started-IsValid now r.session_id r s e live v
deliver_open-IsValid now r bad_range s e live v = v
deliver_open-IsValid now r failed s e live v = v

deliver_stream-IsValid :
    (a : Account) (id now : ℕ) (o : Opened) (s : PlaybackStore)
    → IsValid now s
    → IsValid now (deliver_stream a id now o s).1
unfolding deliver_stream
deliver_stream-IsValid a id now o s v =
    bind_keeps (IsValid now) (deliver_check a id now) _ s (deliver_check-IsValid a id now s v)
      λ r e.
        let (found, live, same) = deliver_check_ok a id now r s e in
        rw same (deliver_open-IsValid now r o s found (ground arith) v)

stream_event-IsValid :
    (now : ℕ) (d : Delivery) (e : StreamEvent) (s : PlaybackStore)
    → IsValid now s
    → IsValid now (stream_event e (d, s)).1
unfolding stream_event
stream_event-IsValid now d (chunk n) s v = v
stream_event-IsValid now d (finished t i) s v =
    let k = record_evidence-IsValid now (evidence_of d t i) s v in ground arith

step-IsValid :
    (h : String → ℕ) (c : PlaybackConfig) (s : PlaybackStore) (t : ℕ) (e : Call)
    → IsValid t s
    → IsValid t (step h c s (t, e))
unfolding step
step-IsValid h c s t (create a req m) v =
    create_playback-IsValid h c a req (record m { now = t }) s v
step-IsValid h c s t (deliver a id o) v = deliver_stream-IsValid a id t o s v
step-IsValid h c s t (event d e) v = stream_event-IsValid t d e s v
step-IsValid h c s t (close id o) v = close_session-IsValid t id o s v

run-IsValid :
    (h : String → ℕ) (c : PlaybackConfig) (s : PlaybackStore) (now end : ℕ) (es : List (ℕ × Call))
    → IsOrdered now es end
    → IsValid now s
    → IsValid end (run h c s es)
unfolding run
run-IsValid h c s now end [] o v = later-IsValid now end s o v
run-IsValid h c s now end ((t, e) ∷ es) o v =
    run-IsValid h c (step h c s (t, e)) t end es o.1
      (step-IsValid h c s t e (later-IsValid now t s o.0 v))

-- From a store that is valid at `now`, after any ordered history of calls, in which nothing else
-- runs while a delivery waits for the media adapter, each owner has at most one live session at
-- the end.
pub run-exclusive :
    (h : String → ℕ) (c : PlaybackConfig) (s : PlaybackStore) (now end owner : ℕ)
    (es : List (ℕ × Call))
    → IsOrdered now es end
    → IsValid now s
    → live_count owner end (run h c s es) ≤ 1
run-exclusive h c s now end owner es o v = (run-IsValid h c s now end es o v).exclusive owner

-- Where a session that has not expired was closed while its delivery waited for the media adapter,
-- and session identifiers are unique, the opened stream makes one more session of its owner live.
pub deliver_open_revives :
    (row : Session) (started_at now status : ℕ) (r : Session) (s : PlaybackStore)
    → IsKeyed session_key s.sessions
    → select (has_session_id row.session_id) s.sessions ≡ some r
    → r.state ≡ closed
    → now < r.expires_at
    → live_count r.owner_id now (deliver_open row started_at (opened status) s).1
      ≡ live_count r.owner_id now s + 1
unfolding deliver_open
deliver_open_revives row started_at now status r s k e c l = ground (
  arith,
  count-update_key session_key (is_live r.owner_id now) (λ x. record x { state = started })
      row.session_id r s.sessions k e,
)
