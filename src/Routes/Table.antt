-- ===== src/Routes/Table.antt =====
-- The table of the routes, and the way from a request to its route.
use creator_first_platform.Base.{
  ℕ, String, Bool, true, false, Option, none, some, List, [], ◌∷◌, str_eq, if◌then◌else◌,
}
use creator_first_platform.Base.Exec.{pure, require, or_throw, ◌>>=◌, ◌>>◌}
use creator_first_platform.Base.Exec.Codes.{origin_not_allowed, not_found}
use creator_first_platform.Participants.Forms.{TextMethods}
use creator_first_platform.Participants.Invitations.Service.{Service, require_administrator}
use creator_first_platform.Routes.Patterns.{
  Part, literal, token, identifier, name, session_token, link_token, match_path,
}

pub data Method : Type 0 where
  get post delete other_method : Method

abbrev pub same_method : Method → Method → Bool
same_method get get = true
same_method post post = true
same_method delete delete = true
same_method other_method other_method = true
same_method _ _ = false

-- The branches of the server, by their method and path
pub data Branch : Type 0 where
  get_health get_catalog_home get_support_targets : Branch
  get_demo_user post_demo_users get_current_application : Branch
  post_new_session post_application post_application_resend : Branch
  post_application_verify get_admin_applications post_application_approve : Branch
  post_application_reject get_admin_invitations post_invitation : Branch
  post_invitation_send get_invitation post_invitation_claim : Branch
  get_trust_status post_trust_binding post_mock_jpki : Branch
  post_registration_options post_registration_verify post_authentication_options : Branch
  post_authentication_verify post_wallet_options post_wallet_verify : Branch
  post_playback_session get_stream delete_playback_session : Branch
  post_siwe_nonce post_siwe_verify post_artist_support : Branch
  post_support_submit post_supporter_registration post_governance_vote : Branch
  get_support_registration get_community_capability : Branch

-- `admin` says whether the branch begins with `requireAdministrator`.
pub record Route : Type 0 where
  pub method : Method
  pub pattern : List Part
  pub branch : Branch
  pub admin : Bool

abbrev public_route : Method → List Part → Branch → Route
public_route m p b = record { method = m; pattern = p; branch = b; admin = false }

abbrev admin_route : Method → List Part → Branch → Route
admin_route m p b = record { method = m; pattern = p; branch = b; admin = true }

-- A path below /v1
abbrev v1 : List Part → List Part
v1 p = literal "" ∷ literal "v1" ∷ p

abbrev pub routes : List Route
routes =
    public_route get (v1 (literal "health" ∷ [])) get_health
    ∷ public_route get (v1 (literal "catalog" ∷ literal "home" ∷ [])) get_catalog_home
    ∷ public_route get (v1 (literal "testnet" ∷ literal "support-targets" ∷ [])) get_support_targets
    ∷ public_route get (v1 (literal "demo" ∷ literal "user" ∷ [])) get_demo_user
    ∷ public_route post (v1 (literal "demo" ∷ literal "users" ∷ [])) post_demo_users
    ∷ public_route get (v1 (literal "participant-applications" ∷ literal "current" ∷ []))
        get_current_application
    ∷ public_route post (v1 (literal "participant-applications" ∷ literal "new-session" ∷ []))
        post_new_session
    ∷ public_route post (v1 (literal "participant-applications" ∷ [])) post_application
    ∷ public_route post
        (v1 (literal "participant-applications" ∷ literal "current" ∷ literal "resend" ∷ []))
        post_application_resend
    ∷ public_route post
        (v1 (literal "participant-applications" ∷ literal "verify" ∷ token link_token ∷ []))
        post_application_verify
    ∷ admin_route get (v1 (literal "admin" ∷ literal "participant-applications" ∷ []))
        get_admin_applications
    ∷ admin_route post
        (v1 (
          literal "admin"
          ∷ literal "participant-applications"
          ∷ token identifier
          ∷ literal "approve"
          ∷ []))
        post_application_approve
    ∷ admin_route post
        (v1 (
          literal "admin"
          ∷ literal "participant-applications"
          ∷ token identifier
          ∷ literal "reject"
          ∷ []))
        post_application_reject
    ∷ admin_route get (v1 (literal "admin" ∷ literal "participant-invitations" ∷ []))
        get_admin_invitations
    ∷ admin_route post (v1 (literal "admin" ∷ literal "participant-invitations" ∷ []))
        post_invitation
    ∷ admin_route post
        (v1 (
          literal "admin"
          ∷ literal "participant-invitations"
          ∷ token identifier
          ∷ literal "send"
          ∷ []))
        post_invitation_send
    ∷ public_route get (v1 (literal "participant-invitations" ∷ token link_token ∷ []))
        get_invitation
    ∷ public_route post
        (v1 (literal "participant-invitations" ∷ token link_token ∷ literal "claim" ∷ []))
        post_invitation_claim
    ∷ public_route get (v1 (literal "account-trust" ∷ literal "status" ∷ [])) get_trust_status
    ∷ public_route post (v1 (literal "account-trust" ∷ literal "bindings" ∷ [])) post_trust_binding
    ∷ public_route post
        (v1 (
          literal "account-trust"
          ∷ literal "bindings"
          ∷ token identifier
          ∷ literal "mock-jpki"
          ∷ []))
        post_mock_jpki
    ∷ public_route post
        (v1 (
          literal "account-trust"
          ∷ literal "bindings"
          ∷ token identifier
          ∷ literal "passkeys"
          ∷ literal "registration"
          ∷ literal "options"
          ∷ []))
        post_registration_options
    ∷ public_route post
        (v1 (
          literal "account-trust"
          ∷ literal "bindings"
          ∷ token identifier
          ∷ literal "passkeys"
          ∷ literal "registration"
          ∷ literal "verify"
          ∷ []))
        post_registration_verify
    ∷ public_route post
        (v1 (
          literal "account-trust"
          ∷ literal "passkeys"
          ∷ literal "authentication"
          ∷ literal "options"
          ∷ []))
        post_authentication_options
    ∷ public_route post
        (v1 (
          literal "account-trust"
          ∷ literal "passkeys"
          ∷ literal "authentication"
          ∷ literal "verify"
          ∷ []))
        post_authentication_verify
    ∷ public_route post
        (v1 (
          literal "account-trust"
          ∷ literal "bindings"
          ∷ token identifier
          ∷ literal "wallet"
          ∷ literal "options"
          ∷ []))
        post_wallet_options
    ∷ public_route post
        (v1 (
          literal "account-trust"
          ∷ literal "bindings"
          ∷ token identifier
          ∷ literal "wallet"
          ∷ literal "verify"
          ∷ []))
        post_wallet_verify
    ∷ public_route post (v1 (literal "playback-sessions" ∷ [])) post_playback_session
    ∷ public_route get (v1 (literal "streams" ∷ token session_token ∷ [])) get_stream
    ∷ public_route delete (v1 (literal "playback-sessions" ∷ token session_token ∷ []))
        delete_playback_session
    ∷ public_route post (v1 (literal "auth" ∷ literal "siwe" ∷ literal "nonce" ∷ []))
        post_siwe_nonce
    ∷ public_route post (v1 (literal "auth" ∷ literal "siwe" ∷ literal "verify" ∷ []))
        post_siwe_verify
    ∷ public_route post (v1 (literal "artists" ∷ token name ∷ literal "support" ∷ []))
        post_artist_support
    ∷ public_route post (v1 (literal "support-intents" ∷ token identifier ∷ literal "submit" ∷ []))
        post_support_submit
    ∷ public_route post (v1 (literal "testnet" ∷ literal "supporter-registrations" ∷ []))
        post_supporter_registration
    ∷ public_route post (v1 (literal "testnet" ∷ literal "governance-votes" ∷ []))
        post_governance_vote
    ∷ public_route get (v1 (literal "support-registrations" ∷ token identifier ∷ []))
        get_support_registration
    ∷ public_route get (v1 (literal "artists" ∷ token name ∷ literal "community-capability" ∷ []))
        get_community_capability
    ∷ []

abbrev with_route : Route → Option (List String) → Option (Route × List String)
with_route r none = none
with_route r (some tokens) = some (r, tokens)

abbrev pub try_route : Route → Method → List String → Option (Route × List String)
try_route r m path =
    if same_method r.method m then with_route r (match_path r.pattern path) else none

abbrev or_next {ℓ} : {A : Type ℓ} → Option A → Option A → Option A
or_next none next = next
or_next (some a) next = some a

-- The first route of a table that takes a request
unfoldable pub find_route : List Route → Method → List String → Option (Route × List String)
find_route [] m path = none
find_route (r ∷ rs) m path = or_next (try_route r m path) (find_route rs m path)

-- `request.headers.origin && request.headers.origin !== config.allowedOrigin`, denied
abbrev pub is_allowed_origin : String → Option String → Bool
is_allowed_origin allowed none = true
is_allowed_origin allowed (some String.[]) = true
is_allowed_origin allowed (some origin) = str_eq origin allowed

module _ (digest : String → ℕ) (methods : TextMethods) where
  abbrev pub guard : Bool → String → Option String → Service (Unit {0})
  guard true admin_token authorization =
      require_administrator digest methods admin_token authorization
  guard false admin_token authorization = pure tt

  -- A request up to its branch: the route, and what its pattern has captured
  unfoldable pub take_request :
      String
      → String
      → Option String
      → Option String
      → Method
      → List String
      → Service (Route × List String)
  take_request allowed_origin admin_token origin authorization m path = do
    require (is_allowed_origin allowed_origin origin) 403 origin_not_allowed
    (r, tokens) ← or_throw (find_route routes m path) 404 not_found
    guard r.admin admin_token authorization
    pure (r, tokens)
