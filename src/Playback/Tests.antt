-- ===== src/Playback/Tests.antt =====
-- The theorems on playback at concrete inputs.
use creator_first_platform.Base.{
  ℕ, ◌+◌, ◌≤◌, ◌≡◌, ◌≢◌, refl, String, true, false, none, some, List, [], ◌∷◌, arith, is_valid_key,
  utf16_length,
}
use Prim.Native.Char.{code}
use creator_first_platform.Base.Table.{select, count}
use creator_first_platform.Base.Table.Keyed.{IsKeyed}
use creator_first_platform.Base.Exec.{ok, err}
use creator_first_platform.Base.Exec.Codes.{idempotency_conflict}
use creator_first_platform.Catalog.{Track, find_track, capability_allows}
use creator_first_platform.Account.{Account, new_account}
use creator_first_platform.Playback.Store.{
  PlaybackStore, PlaybackResponse, Session, closed, new_session, create_session, record_decision,
  active_session_for_owner, idempotent_response, save_idempotent_response, delivered_bytes_since,
}
use creator_first_platform.Playback.Create.{
  PlaybackConfig, Moment, tier_of, adapter_reference, authorize, issue, issue_session,
  insert_session, answer, valid_request, create_playback,
}
use creator_first_platform.Playback.Deliver.{
  Delivery, StreamEvent, chunk, finished, stream, opened, deliver_open,
}
use creator_first_platform.Playback.Exclusive.{session_key, live_count, IsValid}
use creator_first_platform.Playback.Histories.{
  Call, create, deliver, close, run, run-exclusive, deliver_open_revives,
}
use creator_first_platform.Playback.Grants.{
  IsEntitled, IsGranted, request_for, create_playback_grants,
}
use creator_first_platform.Playback.Replays.{create_playback_repeats, create_playback_conflicts}
use creator_first_platform.Playback.Streams.{delivered_store, stream_once}

abbrev empty : PlaybackStore
empty = record { decisions = []; sessions = []; idempotency_keys = []; delivery_evidence = [] }

abbrev config : PlaybackConfig
config = record {
  adapter_is_file = true;
  navidrome_media_ids = λ _. none;
  monthly_byte_limit = 1000;
  playback_ttl_ms = 60000;
}

-- stands for the digest of a request
abbrev last_code : String → ℕ
last_code String.[] = 0
last_code (String.◌∷◌ c String.[]) = code c
last_code (String.◌∷◌ c s) = last_code s

abbrev alice : Account
alice = new_account 1 7

abbrev moment : ℕ → ℕ → Moment
moment now id = record { now = now; month_start = 0; decision_id = id; session_id = id }

empty-IsValid : IsValid 0 empty
unfolding live_count IsKeyed count
empty-IsValid = record { keyed = tt; exclusive = λ o. omega arith }

abbrev history : List (ℕ × Call)
history =
    (5, create alice (request_for "track-mock-001" "key-number-1") (moment 5 1))
    ∷ (6, create alice (request_for "track-mock-001" "key-number-2") (moment 6 2))
    ∷ (7, deliver alice 1 (opened 200))
    ∷ (8, close 1 7)
    ∷ (9, create alice (request_for "track-mock-001" "key-number-3") (moment 9 3))
    ∷ []

run-exclusive_example : live_count 7 10 (run last_code config empty history) ≤ 1
run-exclusive_example =
    run-exclusive last_code config empty 0 10 7 history
      (omega arith, (omega arith, (omega arith, (omega arith, (omega arith, omega arith)))))
      empty-IsValid

abbrev first_store : PlaybackStore
first_store =
    (create_playback last_code config alice (request_for "track-mock-001" "key-number-1")
      (moment 5 1) empty).1

abbrev first_response : PlaybackResponse
first_response = record { playback_session_id = 1; expires_at = 60005 }

first_grant :
    (create_playback last_code config alice
      (request_for "track-mock-001" "key-number-1")
      (moment 5 1)
      empty).0
    ≡ ok (201, first_response)
unfolding create_playback valid_request find_track select capability_allows is_valid_key
    utf16_length idempotent_response answer authorize tier_of delivered_bytes_since
    active_session_for_owner issue record_decision adapter_reference issue_session insert_session
    create_session new_session save_idempotent_response
first_grant = refl

unused_key : idempotent_response 7 "key-number-1" empty ≡ none
unfolding idempotent_response select
unused_key = refl

create_playback_grants_example :
    (t : Track) × (find_track "track-mock-001" ≡ some t)
    × IsEntitled config alice t (moment 5 1) empty
    × (first_response ≡ record { playback_session_id = 1; expires_at = 5 + 60000 })
    × IsGranted config alice t
        (moment 5 1)
        "key-number-1"
        (last_code "track-mock-001")
        empty
        first_store
create_playback_grants_example =
    create_playback_grants last_code config alice (moment 5 1) "track-mock-001" "key-number-1" empty
      first_response unused_key first_grant

create_playback_repeats_example :
    create_playback last_code config alice
      (request_for "track-mock-001" "key-number-1")
      (moment 9 2)
      first_store
    ≡ (ok (200, first_response), first_store)
create_playback_repeats_example =
    create_playback_repeats last_code config alice alice (moment 5 1) (moment 9 2) "track-mock-001"
      "key-number-1" empty first_response unused_key first_grant refl

known_track : find_track "track-mock-002" ≢ none
unfolding find_track select
known_track h = absurd (ground arith)

create_playback_conflicts_example :
    create_playback last_code config alice
      (request_for "track-mock-002" "key-number-1")
      (moment 9 2)
      first_store
    ≡ (err (record { status = 409; code = idempotency_conflict }), first_store)
create_playback_conflicts_example =
    create_playback_conflicts last_code config alice alice (moment 5 1) (moment 9 2)
      "track-mock-001" "track-mock-002" "key-number-1" empty first_response unused_key first_grant
      refl known_track (λ h. absurd (omega (arith, h)))

abbrev closed_session : Session
closed_session = record (new_session 1 1 7 "track-mock-001" "local-test-tone.wav" 5 60005) {
  state = closed;
}

abbrev delivery : Delivery
delivery = record {
  session = closed_session;
  status = 200;
  started_at = 6;
  bytes_delivered = 0;
  recorded = false;
}

abbrev events : List StreamEvent
events = chunk 10 ∷ chunk 20 ∷ finished 9 1 ∷ chunk 5 ∷ finished 10 2 ∷ []

stream_once_example :
    (stream events (delivery, empty)).1 ≡ delivered_store delivery events (some (9, 1)) empty
unfolding select
stream_once_example = stream_once events delivery empty refl (λ now id at. refl)

abbrev closed_store : PlaybackStore
closed_store = record empty { sessions = closed_session ∷ [] }

closed_store-IsKeyed : IsKeyed session_key closed_store.sessions
unfolding IsKeyed select new_session
closed_store-IsKeyed = (refl, tt)

deliver_open_revives_example :
    live_count 7 10 (deliver_open closed_session 6 (opened 200) closed_store).1
    ≡ live_count 7 10 closed_store + 1
unfolding new_session select
deliver_open_revives_example =
    deliver_open_revives closed_session 6 10 200 closed_session closed_store closed_store-IsKeyed
      refl refl (omega arith)
