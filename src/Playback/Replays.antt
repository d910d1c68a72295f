-- ===== src/Playback/Replays.antt =====
-- A repeated request for playback is answered from the stored response and writes nothing.
use creator_first_platform.Base.{
  ℕ, ◌+◌, String, ◌≡◌, ◌≢◌, none, some, arith, Option-cases, inl, inr, eq_iff,
}
use creator_first_platform.Base.Table.{select-insert}
use creator_first_platform.Base.Exec.{ok, err}
use creator_first_platform.Base.Exec.Codes.{idempotency_conflict}
use creator_first_platform.Account.{Account}
use creator_first_platform.Catalog.{find_track}
use creator_first_platform.Playback.Store.{
  is_key_of, PlaybackResponse, PlaybackStore, idempotent_response,
}
use creator_first_platform.Playback.Create.{PlaybackConfig, Moment, answer, create_playback}
use creator_first_platform.Playback.Grants.{
  request_for, create_playback_grants, create_playback_found, create_playback_reads,
}

module _ (h : String → ℕ) (c : PlaybackConfig) where
  key-of-grant :
      (a : Account) (m : Moment) (id key : String) (s : PlaybackStore) (r : PlaybackResponse)
      → idempotent_response a.account_id key s ≡ none
      → (create_playback h c a (request_for id key) m s).0 ≡ ok (201, r)
      → idempotent_response a.account_id key (create_playback h c a (request_for id key) m s).1
        ≡ some (record {
          owner_id = a.account_id;
          idempotency_key = key;
          request_hash = h id;
          response = r;
        })
  unfolding idempotent_response
  key-of-grant a m id key s r fresh e =
      let (t, found, v, answered, g) = create_playback_grants h c a m id key s r fresh e in
      rw g.keys_lem (
        ground (
          arith,
          eq_iff key key,
          select-insert (is_key_of a.account_id key)
              (record {
                owner_id = a.account_id;
                idempotency_key = key;
                request_hash = h id;
                response = record {
                  playback_session_id = m.session_id;
                  expires_at = m.now + c.playback_ttl_ms;
                };
              })
              s.idempotency_keys,
        ))

  -- After a 201 for a key that had no stored response, the same request of an account with the
  -- same identifier is answered with 200 and the same response, at any moment, and nothing is
  -- written.
  pub create_playback_repeats :
      (a b : Account) (m n : Moment) (id key : String) (s : PlaybackStore) (r : PlaybackResponse)
      → idempotent_response a.account_id key s ≡ none
      → (create_playback h c a (request_for id key) m s).0 ≡ ok (201, r)
      → b.account_id ≡ a.account_id
      → let s' = (create_playback h c a (request_for id key) m s).1 in
        create_playback h c b (request_for id key) n s' ≡ (ok (200, r), s')
  create_playback_repeats a b m n id key s r fresh e same =
      let (valid, t, found) = create_playback_reads h c a m id key s (201, r) e in
      let s' = (create_playback h c a (request_for id key) m s).1 in
      let stored = key-of-grant a m id key s r fresh e in
      let reads = create_playback_found h c b n id key t s' valid found in
      rw (reads, same, stored) (unfold answer in ground arith)

  -- After a 201 for a key that had no stored response, a request under that key for another track
  -- of the catalogue, with another request hash, is refused with 409, and nothing is written.
  pub create_playback_conflicts :
      (a b : Account) (m n : Moment) (id other key : String) (s : PlaybackStore)
      (r : PlaybackResponse)
      → idempotent_response a.account_id key s ≡ none
      → (create_playback h c a (request_for id key) m s).0 ≡ ok (201, r)
      → b.account_id ≡ a.account_id
      → find_track other ≢ none
      → h id ≢ h other
      → let s' = (create_playback h c a (request_for id key) m s).1 in
        create_playback h c b (request_for other key) n s'
        ≡ (err (record { status = 409; code = idempotency_conflict }), s')
  create_playback_conflicts a b m n id other key s r fresh e same known differ =
      let (valid, t, found) = create_playback_reads h c a m id key s (201, r) e in
      let s' = (create_playback h c a (request_for id key) m s).1 in
      let stored = key-of-grant a m id key s r fresh e in
      elim (Option-cases (find_track other)) [
        | inl missing ↦ absurd (known missing)
        | inr (u, found') ↦
            let reads = create_playback_found h c b n other key u s' valid found' in
            rw (reads, same, stored) (unfold answer in ground arith)
      ]
