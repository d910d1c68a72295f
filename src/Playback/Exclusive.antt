-- ===== src/Playback/Exclusive.antt =====
-- An owner has at most one live playback session.
use creator_first_platform.Base.{
  ℕ, ◌+◌, ◌≤◌, String, ◌≡◌, refl, true, Option, none, some, arith, ◌==◌, if◌then◌else◌,
}
use creator_first_platform.Base.Table.{select, count, count-insert, count-select, count-update-le}
use native.Mathlib.Nat.{le_trans}
use creator_first_platform.Base.Table.Keyed.{
  IsKeyed, insert-IsKeyed, update-IsKeyed, count-update_key-le,
}
use creator_first_platform.Base.Exec.{ok}
use creator_first_platform.Catalog.{Track}
use creator_first_platform.Account.{Account}
use creator_first_platform.Playback.Store.{
  is_live, is_open, is_closable, has_session_id, Session, started, closed, PlaybackStore, Evidence,
  IdempotencyKey, close_session, record_evidence, expire_session, set_session_state, new_session,
  active_session_for_owner,
}
use creator_first_platform.Playback.Create.{
  PlaybackConfig, PlaybackRequest, Moment, authorize, issue, answer, issue_session, create_playback,
  replay,
}

-- how many live sessions `owner` has at `now`
abbrev pub live_count : ℕ → ℕ → PlaybackStore → ℕ
live_count owner now s = count (is_live owner now) s.sessions

abbrev pub IsExclusive : ℕ → PlaybackStore → Type 0
IsExclusive now s = (owner : ℕ) → live_count owner now s ≤ 1

close-live :
    (o now id owner : ℕ) (s : PlaybackStore)
    → live_count o now (close_session id owner s).0 ≤ live_count o now s
unfolding close_session
close-live o now id owner s = count-update-le _ _ _ s.sessions (λ r h k. ground arith)

expire-live :
    (o now id : ℕ) (s : PlaybackStore) → live_count o now (expire_session id s) ≤ live_count o now s
unfolding expire_session
expire-live o now id s = count-update-le _ _ _ s.sessions (λ r h k. ground arith)

evidence-live :
    (o now : ℕ) (e : Evidence) (s : PlaybackStore)
    → live_count o now (record_evidence e s) ≤ live_count o now s
unfolding record_evidence
evidence-live o now e s = count-update-le _ _ _ s.sessions (λ r h k. ground arith)

pub authorize-sessions :
    (c : PlaybackConfig) (a : Account) (t : Track) (m : Moment) (s : PlaybackStore)
    → (authorize c a t m s).1.sessions ≡ s.sessions
unfolding authorize
authorize-sessions c a t m s = ground arith

pub authorize-ok :
    (c : PlaybackConfig) (a : Account) (t : Track) (m : Moment) (s : PlaybackStore)
    → (authorize c a t m s).0 ≡ ok tt
    → (authorize c a t m s).1 ≡ s
unfolding authorize
authorize-ok c a t m s h = ground arith

authorize-free :
    (c : PlaybackConfig) (a : Account) (t : Track) (m : Moment) (s : PlaybackStore)
    → (authorize c a t m s).0 ≡ ok tt
    → select (is_live a.account_id m.now) s.sessions ≡ none
unfolding authorize active_session_for_owner
authorize-free c a t m s h = ground arith

issue_session-live :
    (c : PlaybackConfig) (a : Account) (t : Track) (key : String) (hash : ℕ) (m : Moment)
    (ref : String) (o : ℕ) (s : PlaybackStore)
    → live_count o m.now (issue_session c a t key hash m ref s).1
      ≤ live_count o m.now s + (if o == a.account_id then 1 else 0)
unfolding issue_session
issue_session-live c a t key hash m ref o s = ground (
  arith,
  count-insert (is_live o m.now)
      (new_session m.session_id m.decision_id a.account_id t.track_id ref m.now
        (m.now + c.playback_ttl_ms))
      s.sessions,
)

issue-live :
    (c : PlaybackConfig) (a : Account) (t : Track) (key : String) (hash : ℕ) (m : Moment) (o : ℕ)
    (s : PlaybackStore)
    → live_count o m.now (issue c a t key hash m s).1
      ≤ live_count o m.now s + (if o == a.account_id then 1 else 0)
unfolding issue
issue-live c a t key hash m o s = grind (arith, issue_session-live c a t key hash m)

answer-live :
    (c : PlaybackConfig) (a : Account) (t : Track) (key : String) (hash : ℕ) (m : Moment)
    (prior : Option IdempotencyKey) (o : ℕ) (s : PlaybackStore)
    → live_count o m.now s ≤ 1
    → live_count o m.now (answer c a t key hash m prior s).1 ≤ 1
unfolding answer replay
answer-live c a t key hash m (some prior) o s ex = ground arith
answer-live c a t key hash m none o s ex = ground (
  arith,
  authorize-ok c a t m s,
  authorize-sessions c a t m s,
  authorize-free c a t m s,
  count-select (is_live a.account_id m.now) s.sessions,
  issue-live c a t key hash m o s,
)

abbrev pub session_key : Session → ℕ
session_key r = r.session_id

-- What holds of the playback tables at a time `now`.
pub record IsValid (now : ℕ) (s : PlaybackStore) : Type 0 where
  pub keyed : IsKeyed session_key s.sessions
  pub exclusive : (owner : ℕ) → live_count owner now s ≤ 1

issue_session-IsKeyed :
    (c : PlaybackConfig) (a : Account) (t : Track) (key : String) (hash : ℕ) (m : Moment)
    (ref : String) (s : PlaybackStore)
    → IsKeyed session_key s.sessions
    → IsKeyed session_key (issue_session c a t key hash m ref s).1.sessions
unfolding issue_session
issue_session-IsKeyed c a t key hash m ref s k = ground (
  arith,
  insert-IsKeyed session_key
      (new_session m.session_id m.decision_id a.account_id t.track_id ref m.now
        (m.now + c.playback_ttl_ms))
      s.sessions k,
)

issue-IsKeyed :
    (c : PlaybackConfig) (a : Account) (t : Track) (key : String) (hash : ℕ) (m : Moment)
    (s : PlaybackStore)
    → IsKeyed session_key s.sessions
    → IsKeyed session_key (issue c a t key hash m s).1.sessions
unfolding issue
issue-IsKeyed c a t key hash m s k = grind (arith, issue_session-IsKeyed c a t key hash m)

answer-IsKeyed :
    (c : PlaybackConfig) (a : Account) (t : Track) (key : String) (hash : ℕ) (m : Moment)
    (prior : Option IdempotencyKey) (s : PlaybackStore)
    → IsKeyed session_key s.sessions
    → IsKeyed session_key (answer c a t key hash m prior s).1.sessions
unfolding answer replay
answer-IsKeyed c a t key hash m (some prior) s k = ground arith
answer-IsKeyed c a t key hash m none s k = ground (
  arith,
  authorize-sessions c a t m s,
  authorize-ok c a t m s,
  issue-IsKeyed c a t key hash m s k,
)

-- A request for playback, whatever its answer, keeps the tables valid.
pub create_playback-IsValid :
    (h : String → ℕ) (c : PlaybackConfig) (a : Account) (req : PlaybackRequest) (m : Moment)
    (s : PlaybackStore)
    → IsValid m.now s
    → IsValid m.now (create_playback h c a req m s).1
unfolding create_playback
create_playback-IsValid h c a req m s v = record {
  keyed = let k = v.keyed in grind (arith, answer-IsKeyed);
  exclusive = λ o. let e = v.exclusive o in grind (arith, answer-live);
}

pub close_session-IsValid :
    (now id owner : ℕ) (s : PlaybackStore)
    → IsValid now s
    → IsValid now (close_session id owner s).0
unfolding close_session
close_session-IsValid now id owner s v = record {
  keyed = update-IsKeyed session_key _ _ (λ r. refl) s.sessions v.keyed;
  exclusive = λ o. omega (
    arith,
    v.exclusive o,
    count-update-le (is_live o now) (is_closable id owner)
        (λ r. record r { state = closed; lease_released = true }) s.sessions
        (λ r h k. ground arith),
  );
}

pub record_evidence-IsValid :
    (now : ℕ) (e : Evidence) (s : PlaybackStore) → IsValid now s → IsValid now (record_evidence e s)
unfolding record_evidence
record_evidence-IsValid now e s v = record {
  keyed = update-IsKeyed session_key _ _ (λ r. refl) s.sessions v.keyed;
  exclusive =
      λ o. le_trans (count-update-le _ _ _ s.sessions (λ r h k. ground arith)) (v.exclusive o);
}

pub expire_session-IsValid :
    (now id : ℕ) (s : PlaybackStore) → IsValid now s → IsValid now (expire_session id s)
unfolding expire_session
expire_session-IsValid now id s v = record {
  keyed = update-IsKeyed session_key _ _ (λ r. refl) s.sessions v.keyed;
  exclusive =
      λ o. le_trans (count-update-le _ _ _ s.sessions (λ r h k. ground arith)) (v.exclusive o);
}

-- Setting the state `STARTED` is safe where the row is live.
pub set_started-IsValid :
    (now id : ℕ) (r : Session) (s : PlaybackStore)
    → select (has_session_id id) s.sessions ≡ some r
    → is_open r.state ≡ true
    → IsValid now s
    → IsValid now (set_session_state id started s)
unfolding set_session_state
set_started-IsValid now id r s e live v = record {
  keyed = update-IsKeyed session_key _ _ (λ x. refl) s.sessions v.keyed;
  exclusive = λ o.
      le_trans
        (count-update_key-le session_key (is_live o now) (λ x. record x { state = started }) id r
          s.sessions v.keyed e (λ h. ground arith))
        (v.exclusive o);
}
