-- ===== src/Playback/Grants.antt =====
-- What `createPlayback` grants, records and repeats.
use creator_first_platform.Base.{
  ℕ, ◌+◌, ◌<◌, String, ◌≡◌, true, none, some, arith, is_valid_key, ◌⊎◌, inl, inr, Option-cases,
  Bool-cases,
}
use creator_first_platform.Base.Table.{insert}
use creator_first_platform.Base.Exec.{Failure, Result-cases, ok, err}
use creator_first_platform.Base.Exec.Codes.{catalog_mapping_unavailable}
use creator_first_platform.Account.{Account}
use creator_first_platform.Catalog.{Track, find_track, capability_allows}
use creator_first_platform.Playback.Store.{
  new_session, PlaybackResponse, PlaybackStore, idempotent_response, delivered_bytes_since,
  record_decision, active_session_for_owner,
}
use creator_first_platform.Playback.Exclusive.{authorize-ok}
use creator_first_platform.Playback.Create.{
  PlaybackConfig, PlaybackRequest, Moment, granted, tier_of, authorize, issue, issue_session,
  adapter_reference, answer, valid_request, create_playback,
}

module _ (c : PlaybackConfig) (a : Account) (t : Track) (m : Moment) where
  -- Every condition on which a new session depends.
  pub record IsEntitled (s : PlaybackStore) : Type 0 where
    pub active : a.active ≡ true
    pub subscribed : a.subscription_active ≡ true
    pub capable : capability_allows t.required_capability (tier_of a.tiers t.artist_id) ≡ true
    pub within_budget : delivered_bytes_since m.month_start s < c.monthly_byte_limit
    pub alone : active_session_for_owner a.account_id m.now s ≡ none

  authorize-IsEntitled : (s : PlaybackStore) → (authorize c a t m s).0 ≡ ok tt → IsEntitled s
  unfolding authorize
  authorize-IsEntitled s h = ground arith

  -- The tests pass and write nothing, or one fails.
  authorized_cases :
      (s : PlaybackStore)
      → (authorize c a t m s ≡ (ok tt, s)) ⊎ ((f : Failure) × ((authorize c a t m s).0 ≡ err f))
  authorized_cases s = elim (Result-cases (authorize c a t m s).0) [
    | inl (u, e) ↦ inl (ground (arith, authorize-ok c a t m s e))
    | inr (f, e) ↦ inr (f, e)
  ]

  authorize_complete : (s : PlaybackStore) → IsEntitled s → authorize c a t m s ≡ (ok tt, s)
  unfolding authorize
  authorize_complete s v = ground arith

  -- What a grant for `t` under the key leaves behind.
  pub record IsGranted (key : String) (hash : ℕ) (s s' : PlaybackStore) : Type 0 where
    pub reference : String
    pub sessions_lem :
        s'.sessions
        ≡ insert
            (new_session m.session_id m.decision_id a.account_id t.track_id reference m.now
              (m.now + c.playback_ttl_ms))
            s.sessions
    pub decisions_lem : s'.decisions ≡ insert (granted a t m) s.decisions
    pub keys_lem :
        s'.idempotency_keys
        ≡ insert
            (record {
              owner_id = a.account_id;
              idempotency_key = key;
              request_hash = hash;
              response = record {
                playback_session_id = m.session_id;
                expires_at = m.now + c.playback_ttl_ms;
              };
            })
            s.idempotency_keys

  issue_session_lem :
      (key : String) (hash : ℕ) (ref : String) (s : PlaybackStore) (x : ℕ × PlaybackResponse)
      → (issue_session c a t key hash m ref s).0 ≡ ok x
      → (x ≡ (
        201,
        record { playback_session_id = m.session_id; expires_at = m.now + c.playback_ttl_ms },
      ))
        × ((issue_session c a t key hash m ref s).1 ≡ record s {
          sessions =
              insert
                (new_session m.session_id m.decision_id a.account_id t.track_id ref m.now
                  (m.now + c.playback_ttl_ms))
                s.sessions;
          idempotency_keys =
              insert
                (record {
                  owner_id = a.account_id;
                  idempotency_key = key;
                  request_hash = hash;
                  response = record {
                    playback_session_id = m.session_id;
                    expires_at = m.now + c.playback_ttl_ms;
                  };
                })
                s.idempotency_keys;
        })
  unfolding issue_session
  issue_session_lem key hash ref s x h = (ground arith, ground arith)

  reference_cases :
      (s : PlaybackStore)
      → ((r : String) × (adapter_reference c t s ≡ (ok r, s)))
        ⊎ (adapter_reference c t s
            ≡ (err (record { status = 503; code = catalog_mapping_unavailable }), s))
  unfolding adapter_reference
  reference_cases s = elim (Bool-cases c.adapter_is_file) [
    | inl file ↦ inl (t.file_ref, rw file)
    | inr other ↦ elim (Option-cases (c.navidrome_media_ids t.navidrome_id_env)) [
      | inl missing ↦ inr (ground arith)
      | inr (r, found) ↦ inl (r, ground arith)
    ]
  ]

  issue_lem :
      (key : String) (hash : ℕ) (s : PlaybackStore) (x : ℕ × PlaybackResponse)
      → (issue c a t key hash m s).0 ≡ ok x
      → (x ≡ (
        201,
        record { playback_session_id = m.session_id; expires_at = m.now + c.playback_ttl_ms },
      ))
        × IsGranted key hash s (issue c a t key hash m s).1
  unfolding issue
  issue_lem key hash s x h = elim (reference_cases (record_decision (granted a t m) s)) [
    | inl (r, e) ↦
        let (answered, same) =
          issue_session_lem key hash r (record_decision (granted a t m) s) x (ground arith) in
        (
          answered,
          record {
            reference = r;
            sessions_lem = ground arith;
            decisions_lem = ground arith;
            keys_lem = ground arith;
          },
        )
    | inr e ↦ absurd (ground arith)
  ]

  answer_lem :
      (key : String) (hash : ℕ) (s : PlaybackStore) (r : PlaybackResponse)
      → (answer c a t key hash m none s).0 ≡ ok (201, r)
      → IsEntitled s
        × (r
            ≡ record { playback_session_id = m.session_id; expires_at = m.now + c.playback_ttl_ms })
        × IsGranted key hash s (answer c a t key hash m none s).1
  unfolding answer
  answer_lem key hash s r h = elim (authorized_cases s) [
    | inl e ↦
        let v = authorize-IsEntitled s (ground arith) in
        let (x, g) = issue_lem key hash s (201, r) (ground arith) in (v, ground arith, rw e g)
    | inr (f, e) ↦ absurd (ground arith)
  ]

abbrev pub request_for : String → String → PlaybackRequest
request_for id key = record { track_id = some id; idempotency_key = some key }

module _ (h : String → ℕ) (c : PlaybackConfig) (a : Account) (m : Moment) where
  -- A well-formed request for a track of the catalogue is answered from the stored response.
  pub create_playback_found :
      (id key : String) (t : Track) (s : PlaybackStore)
      → is_valid_key key ≡ true
      → find_track id ≡ some t
      → create_playback h c a (request_for id key) m s
        ≡ answer c a t key (h id) m (idempotent_response a.account_id key s) s
  unfolding create_playback valid_request
  create_playback_found id key t s valid found = rw (valid, found)

  pub create_playback_reads :
      (id key : String) (s : PlaybackStore) (x : ℕ × PlaybackResponse)
      → (create_playback h c a (request_for id key) m s).0 ≡ ok x
      → (is_valid_key key ≡ true) × (t : Track) × (find_track id ≡ some t)
  unfolding create_playback valid_request
  create_playback_reads id key s x e = elim (Option-cases (find_track id)) [
    | inl missing ↦ absurd (ground arith)
    | inr (t, found) ↦ (ground arith, t, found)
  ]

  -- A 201 for a key that has no stored response is a grant for a track of the catalogue to an
  -- account that passes every test; it answers with the new session, and the session, the decision
  -- and the stored response are the rows written.
  pub create_playback_grants :
      (id key : String) (s : PlaybackStore) (r : PlaybackResponse)
      → idempotent_response a.account_id key s ≡ none
      → (create_playback h c a (request_for id key) m s).0 ≡ ok (201, r)
      → (t : Track) × (find_track id ≡ some t)
        × IsEntitled c a t m s
        × (r
            ≡ record { playback_session_id = m.session_id; expires_at = m.now + c.playback_ttl_ms })
        × IsGranted c a t m key (h id) s (create_playback h c a (request_for id key) m s).1
  create_playback_grants id key s r fresh e =
      let (valid, t, found) = create_playback_reads id key s (201, r) e in
      let same = create_playback_found id key t s valid found in
      let (v, answered, g) = answer_lem c a t m key (h id) s r (ground arith) in
      (t, found, v, answered, ground arith)
