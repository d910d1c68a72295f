-- ===== src/Support/Intents.antt =====
-- `createSupportIntent`, `submitSupport` and `supportRegistration`. The typed data of an intent is
-- handed to the recovery of its signer, so it is the record of its message; its domain and types
-- are constants.
use creator_first_platform.Base.{
  ℕ, ◌+◌, ◌/◌, ◌*◌, String, Bool, true, false, Option, none, some, List, ◌∷◌, ◌&&◌, ◌==◌, leb, ltb,
  str_eq, is_valid_key, if◌then◌else◌,
}
use creator_first_platform.Base.Table.{select, update, insert}
use creator_first_platform.Base.Exec.{Exec, pure, gets, modify, require, or_throw, ◌>>=◌, ◌>>◌}
use creator_first_platform.Base.Exec.Codes.{
  wallet_link_required, invalid_wallet_address, wallet_link_mismatch, artist_not_found,
  invalid_idempotency_key, idempotency_conflict, support_intent_not_found,
  support_signature_invalid, support_signer_mismatch, support_registration_not_found,
}
use creator_first_platform.Catalog.{Tier, no_tier, early_supporter_tier, find_artist}
use creator_first_platform.Account.{Account}

pub record IntentMessage : Type 0 where
  pub supporter : ℕ
  pub artist_id : String
  pub nonce : ℕ
  pub deadline : ℕ

pub data IntentStatus : Type 0 where
  signature_required confirming sbt_active : IntentStatus

-- times in milliseconds, deadlines in seconds
pub record Intent : Type 0 where
  pub request_id : ℕ
  pub owner_id : ℕ
  pub address : ℕ
  pub artist_id : String
  pub typed_data : IntentMessage
  pub deadline : ℕ
  pub status : IntentStatus
  pub tier : Tier
  pub activate_at : Option ℕ

-- The answer to a new intent; the disclosure is constant text.
pub record IntentResponse : Type 0 where
  pub request_id : ℕ
  pub typed_data : IntentMessage

pub record IntentKey : Type 0 where
  pub owner_id : ℕ
  pub idempotency_key : String
  pub hash : ℕ
  pub response : IntentResponse

-- the maps `supportIntents` and `supportIdempotency`
pub record Support : Type 0 where
  pub intents : List Intent
  pub keys : List IntentKey

-- `none` is a value that is no text.
pub record SupportForm : Type 0 where
  pub address : Option ℕ
  pub idempotency_key : Option String
  pub consent_version : ℕ

abbrev pub has_request_id : ℕ → Intent → Bool
has_request_id id i = i.request_id == id

abbrev pub is_key_of : ℕ → String → IntentKey → Bool
is_key_of owner key k = k.owner_id == owner && str_eq k.idempotency_key key

abbrev pub address_of : (ℕ → Option ℕ) → Option ℕ → Option ℕ
address_of get_address none = none
address_of get_address (some a) = get_address a

abbrev pub valid_key : Option String → Option String
valid_key none = none
valid_key (some key) = if is_valid_key key then some key else none

abbrev pub is_signature_required : IntentStatus → Bool
is_signature_required signature_required = true
is_signature_required _ = false

abbrev pub is_confirming : IntentStatus → Bool
is_confirming confirming = true
is_confirming _ = false

-- `intent.activateAt <= Date.now()`
abbrev pub is_past : Option ℕ → ℕ → Bool
is_past none now = false
is_past (some t) now = leb t now

-- `intent_hash` is SHA-256 over the artist, the address and the consent version, `get_address` is
-- viem's, and `recover` is its `recoverTypedDataAddress`, with the form that `getAddress` gives.
module _ (intent_hash : String → ℕ → ℕ → ℕ) (get_address : ℕ → Option ℕ) where
  abbrev pub new_intent : Account → String → ℕ → ℕ → ℕ → ℕ → Intent
  new_intent account artist address id nonce now = record {
    request_id = id;
    owner_id = account.account_id;
    address = address;
    artist_id = artist;
    typed_data = record {
      supporter = address;
      artist_id = artist;
      nonce = nonce;
      deadline = now / 1000 + 300;
    };
    deadline = now / 1000 + 300;
    status = signature_required;
    tier = no_tier;
    activate_at = none;
  }

  abbrev pub response_of : Intent → IntentResponse
  response_of i = record { request_id = i.request_id; typed_data = i.typed_data }

  unfoldable pub replay_intent : IntentKey → ℕ → Exec Support (ℕ × IntentResponse)
  replay_intent prior hash = do
    require (prior.hash == hash) 409 idempotency_conflict
    pure (200, prior.response)

  -- Where no intent has the key; `id` and `nonce` are drawn at random.
  unfoldable pub add_intent :
      Account → String → String → ℕ → ℕ → Intent → Exec Support (ℕ × IntentResponse)
  add_intent account artist key address hash i = do
    modify (λ s. record s { intents = insert i s.intents })
    modify (λ s. record s {
      keys =
          insert
            (record {
              owner_id = account.account_id;
              idempotency_key = key;
              hash = hash;
              response = response_of i;
            })
            s.keys;
    })
    pure (201, response_of i)

  unfoldable pub answer_intent :
      Account
      → String
      → String
      → ℕ
      → ℕ
      → Intent
      → Option IntentKey
      → Exec Support (ℕ × IntentResponse)
  unfolding replay_intent add_intent
  answer_intent account artist key address hash i (some prior) = replay_intent prior hash
  answer_intent account artist key address hash i none =
      add_intent account artist key address hash i

  unfoldable pub create_support_intent :
      Account → String → SupportForm → ℕ → ℕ → ℕ → Exec Support (ℕ × IntentResponse)
  create_support_intent account artist body id nonce now = do
    wallet ← or_throw account.wallet_address 401 wallet_link_required
    address ← or_throw (address_of get_address body.address) 400 invalid_wallet_address
    require (address == wallet) 403 wallet_link_mismatch
    track ← or_throw (find_artist artist) 404 artist_not_found
    key ← or_throw (valid_key body.idempotency_key) 400 invalid_idempotency_key
    let hash = intent_hash artist address body.consent_version
    prior ← gets (λ s. select (is_key_of account.account_id key) s.keys)
    answer_intent account artist key address hash (new_intent account artist address id nonce now)
        prior

abbrev pub confirm : ℕ → Intent → Intent
confirm now i = record i {
  status = confirming;
  tier = early_supporter_tier;
  activate_at = some (now + 600);
}

module _ (recover : IntentMessage → String → Option ℕ) where
  -- `submitSupport` before it awaits the body and the recovery
  unfoldable pub submit_check : Account → ℕ → ℕ → Exec Support Intent
  submit_check account id now = do
    found ← gets (λ s. select (has_request_id id) s.intents)
    intent ← or_throw found 404 support_intent_not_found
    require (intent.owner_id == account.account_id && ltb now (intent.deadline * 1000)) 404
        support_intent_not_found
    pure intent

  -- and after it: the status and the tier that the answer names
  unfoldable pub submit_finish : Intent → String → ℕ → Exec Support (IntentStatus × Tier)
  submit_finish intent signature now = do
    signer ← or_throw (recover intent.typed_data signature) 401 support_signature_invalid
    require (signer == intent.address) 401 support_signer_mismatch
    modify (λ s. record s {
      intents = update (has_request_id intent.request_id) (confirm now) s.intents;
    })
    pure (confirming, early_supporter_tier)

  unfoldable pub submit_support : Account → ℕ → String → ℕ → Exec Support (IntentStatus × Tier)
  submit_support account id signature now = do
    intent ← submit_check account id now
    if is_signature_required intent.status
        then submit_finish intent signature now
        else pure (intent.status, intent.tier)

  -- The account comes back with its tiers.
  unfoldable pub support_registration :
      Account → ℕ → ℕ → Exec Support (Account × IntentStatus × Tier)
  support_registration account id now = do
    found ← gets (λ s. select (has_request_id id) s.intents)
    intent ← or_throw found 404 support_registration_not_found
    require (intent.owner_id == account.account_id) 404 support_registration_not_found
    if is_confirming intent.status && is_past intent.activate_at now
        then (do
          modify (λ s. record s {
            intents =
                update (has_request_id intent.request_id) (λ i. record i { status = sbt_active })
                  s.intents;
          })
          pure (
            record account { tiers = (intent.artist_id, intent.tier) ∷ account.tiers },
            sbt_active,
            intent.tier,
          ))
        else pure (account, intent.status, intent.tier)
