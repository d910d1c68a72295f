-- ===== src/Playback/Create.antt =====
-- `createPlayback` of apps/gateway/src/server.js. After `readJson` it runs with no `await`, so one
-- request's tests and writes are one step.
use creator_first_platform.Base.{
  ℕ, ◌+◌, String, Bool, true, false, Option, none, some, List, [], ◌∷◌, ◌==◌, ltb, str_eq,
  is_valid_key, if◌then◌else◌,
}
use creator_first_platform.Base.Exec.{
  Exec, ok, pure, throw, gets, modify, require, or_throw, ◌>>=◌, ◌>>◌,
}
use creator_first_platform.Base.Exec.Codes.{
  Code, invalid_playback_request, track_not_found, idempotency_conflict, account_restricted,
  subscription_inactive, supporter_required, early_supporter_required, delivery_budget_exhausted,
  concurrency_limit, catalog_mapping_unavailable, constraint_failed,
}
use creator_first_platform.Catalog.{
  Track, Tier, no_tier, Capability, early_supporter, find_track, capability_allows,
}
use creator_first_platform.Account.{Account}
use creator_first_platform.Playback.Store.{
  Reason, authorized_reason, account_restricted_reason, subscription_inactive_reason,
  early_supporter_reason, supporter_reason, budget_reason, concurrency_reason, Decision, Session,
  PlaybackResponse, IdempotencyKey, PlaybackStore, record_decision, active_session_for_owner,
  new_session, create_session, idempotent_response, save_idempotent_response, delivered_bytes_since,
}

pub record PlaybackConfig : Type 0 where
  -- `config.adapter === 'file'`
  pub adapter_is_file : Bool
  pub navidrome_media_ids : String → Option String
  pub monthly_byte_limit : ℕ
  pub playback_ttl_ms : ℕ

-- The JSON body; `none` is a value that is not a text.
pub record PlaybackRequest : Type 0 where
  pub track_id : Option String
  pub idempotency_key : Option String

-- What a call reads of the clock and of the random generator.
pub record Moment : Type 0 where
  pub now : ℕ
  -- `Date.parse(monthStart())`
  pub month_start : ℕ
  pub decision_id : ℕ
  pub session_id : ℕ

abbrev pub Playback : Type 0 → Type 0
Playback = Exec PlaybackStore

unfoldable pub tier_of : List (String × Tier) → String → Tier
tier_of [] artist = no_tier
tier_of ((a, t) ∷ tiers) artist = if str_eq a artist then t else tier_of tiers artist

unfoldable pub adapter_reference : PlaybackConfig → Track → Playback String
adapter_reference config track =
    if config.adapter_is_file
    then pure track.file_ref
    else or_throw (config.navidrome_media_ids track.navidrome_id_env) 503
        catalog_mapping_unavailable

abbrev pub denied : Account → Track → Moment → Reason → Decision
denied account track m reason = record {
  decision_id = m.decision_id;
  owner_id = account.account_id;
  track_id = track.track_id;
  allowed = false;
  reason_code = reason;
  rights_version = track.rights_version;
  decided_at = m.now;
}

unfoldable pub record_denied : Account → Track → Moment → Reason → PlaybackStore → PlaybackStore
unfolding record_decision
record_denied account track m reason = record_decision (denied account track m reason)

-- `if (!condition) { recordDenied(…); throw … }`
abbrev pub allow_if : Bool → Account → Track → Moment → Reason → ℕ → Code → Playback (Unit {0})
allow_if true account track m reason status code = pure tt
allow_if false account track m reason status code = do
  modify (record_denied account track m reason)
  throw status code

abbrev capability_reason : Capability → Reason
capability_reason early_supporter = early_supporter_reason
capability_reason _ = supporter_reason

abbrev capability_code : Capability → Code
capability_code early_supporter = early_supporter_required
capability_code _ = supporter_required

abbrev is_none {ℓ} : {A : Type ℓ} → Option A → Bool
is_none none = true
is_none (some _) = false

-- The tests of `createPlayback` between the idempotency key and the decision.
unfoldable pub authorize : PlaybackConfig → Account → Track → Moment → Playback (Unit {0})
unfolding record_denied tier_of
authorize config account track m = do
  allow_if account.active account track m account_restricted_reason 403 account_restricted
  allow_if account.subscription_active account track m subscription_inactive_reason 403
      subscription_inactive
  allow_if (capability_allows track.required_capability (tier_of account.tiers track.artist_id))
      account track m (capability_reason track.required_capability) 403
      (capability_code track.required_capability)
  delivered ← gets (delivered_bytes_since m.month_start)
  allow_if (ltb delivered config.monthly_byte_limit) account track m budget_reason 503
      delivery_budget_exhausted
  live ← gets (active_session_for_owner account.account_id m.now)
  allow_if (is_none live) account track m concurrency_reason 409 concurrency_limit

abbrev pub granted : Account → Track → Moment → Decision
granted account track m = record (denied account track m authorized_reason) { allowed = true }

-- `store.createSession`, which throws if the identifier is taken
unfoldable pub insert_session : Session → Playback (Unit {0})
unfolding create_session
insert_session value s = elim (create_session value s) [
  | none ↦ throw 500 constraint_failed s
  | some s' ↦ (ok tt, s')
]

-- The rest of the handler, once `adapterReference` has given its text.
unfoldable pub issue_session :
    PlaybackConfig
    → Account
    → Track
    → String
    → ℕ
    → Moment
    → String
    → Playback (ℕ × PlaybackResponse)
unfolding insert_session new_session save_idempotent_response
issue_session config account track key hash m reference = do
  let expires_at = m.now + config.playback_ttl_ms
  insert_session (
      new_session m.session_id m.decision_id account.account_id track.track_id reference m.now
        expires_at)
  let result : PlaybackResponse = record {
    playback_session_id = m.session_id;
    expires_at = expires_at;
  }
  modify (
      save_idempotent_response (record {
        owner_id = account.account_id;
        idempotency_key = key;
        request_hash = hash;
        response = result;
      }))
  pure (201, result)

-- The decision is on record before `adapterReference` can throw.
unfoldable pub issue :
    PlaybackConfig → Account → Track → String → ℕ → Moment → Playback (ℕ × PlaybackResponse)
unfolding record_decision adapter_reference issue_session
issue config account track key hash m = do
  modify (record_decision (granted account track m))
  reference ← adapter_reference config track
  issue_session config account track key hash m reference

unfoldable pub replay : IdempotencyKey → ℕ → Playback (ℕ × PlaybackResponse)
replay prior hash = do
  require (prior.request_hash == hash) 409 idempotency_conflict
  pure (200, prior.response)

unfoldable pub valid_request : PlaybackRequest → Option (String × String)
valid_request request = elim request.track_id [
  | none ↦ none
  | some id ↦ elim request.idempotency_key [
    | none ↦ none
    | some key ↦ if is_valid_key key then some (id, key) else none
  ]
]

-- After the idempotency key was looked up.
unfoldable pub answer :
    PlaybackConfig
    → Account
    → Track
    → String
    → ℕ
    → Moment
    → Option IdempotencyKey
    → Playback (ℕ × PlaybackResponse)
unfolding replay authorize issue
answer config account track key hash m (some prior) = replay prior hash
answer config account track key hash m none = do
  authorize config account track m
  issue config account track key hash m

-- `request_hash` is SHA-256 over the request's JSON text, from Node's crypto module.
module _ (request_hash : String → ℕ) where
  unfoldable pub create_playback :
      PlaybackConfig → Account → PlaybackRequest → Moment → Playback (ℕ × PlaybackResponse)
  create_playback config account request m = do
    (id, key) ← or_throw (valid_request request) 400 invalid_playback_request
    track ← or_throw (find_track id) 404 track_not_found
    prior ← gets (idempotent_response account.account_id key)
    answer config account track key (request_hash id) m prior
