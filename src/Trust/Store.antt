-- ===== src/Trust/Store.antt =====
-- The tables of trust bindings, passkeys and audit events, and their statements, of
-- apps/gateway/src/GatewayStore.js. The JSON details of audit events are left out.
use creator_first_platform.Base.{
  ℕ, String, Bool, true, false, Option, none, some, List, [], ◌∷◌, ◌&&◌, not, ◌==◌, ltb,
  if◌then◌else◌,
}
use creator_first_platform.Base.Table.{select, update, count, insert}
use creator_first_platform.Base.Exec.{Exec, modify, require, ◌>>◌}
use creator_first_platform.Base.Exec.Codes.{constraint_failed}

pub data BindingState : Type 0 where
  created jpki_asserted passkey_registered wallet_bound active : BindingState

abbrev pub same_state : BindingState → BindingState → Bool
same_state created created = true
same_state jpki_asserted jpki_asserted = true
same_state passkey_registered passkey_registered = true
same_state wallet_bound wallet_bound = true
same_state active active = true
same_state _ _ = false

-- account_trust_bindings
pub record Binding : Type 0 where
  pub binding_id : ℕ
  pub owner_id : ℕ
  pub account_subject_commitment : ℕ
  pub state : BindingState
  pub passkey_credential_id : Option ℕ
  pub wallet_address : Option ℕ
  pub created_at : ℕ
  pub updated_at : ℕ
  pub expires_at : ℕ

-- webauthn_credentials
pub record Credential : Type 0 where
  pub credential_id : ℕ
  pub owner_id : ℕ
  pub public_key : ℕ
  pub counter : ℕ
  pub transports : List String
  pub device_type : String
  pub backed_up : Bool
  pub created_at : ℕ

-- account_trust_audit_events
pub record AuditEvent : Type 0 where
  pub binding_id : ℕ
  pub owner_id : ℕ
  pub event_type : BindingState
  pub occurred_at : ℕ

pub record TrustStore : Type 0 where
  pub bindings : List Binding
  pub credentials : List Credential
  pub audit_events : List AuditEvent

abbrev pub has_binding_id : ℕ → Binding → Bool
has_binding_id id r = r.binding_id == id

abbrev pub has_credential_id : ℕ → Credential → Bool
has_credential_id id r = r.credential_id == id

-- `COALESCE(?, column)`
abbrev pub or_else {ℓ} : {A : Type ℓ} → Option A → Option A → Option A
or_else none column = column
or_else (some a) column = some a

-- The insertion sets the two columns that it does not name to NULL, and `updated_at` to
-- `created_at`.
abbrev pub binding_row : ℕ → ℕ → ℕ → BindingState → ℕ → ℕ → Binding
binding_row id owner commitment state created_at expires_at = record {
  binding_id = id;
  owner_id = owner;
  account_subject_commitment = commitment;
  state = state;
  passkey_credential_id = none;
  wallet_address = none;
  created_at = created_at;
  updated_at = created_at;
  expires_at = expires_at;
}

-- A row with the same primary key stops it.
unfoldable pub create_trust_binding : ℕ → ℕ → ℕ → BindingState → ℕ → ℕ → Exec TrustStore (Unit {0})
create_trust_binding id owner commitment state created_at expires_at s =
    (do
      require (count (has_binding_id id) s.bindings == 0) 500 constraint_failed
      modify (λ s. record s {
        bindings = insert (binding_row id owner commitment state created_at expires_at) s.bindings;
      }))
      s

pub record BindingUpdate : Type 0 where
  pub binding_id : ℕ
  pub state : BindingState
  pub wallet_address : Option ℕ
  pub passkey_credential_id : Option ℕ
  pub updated_at : ℕ

abbrev pub is_other_active : ℕ → ℕ → Binding → Bool
is_other_active owner id r =
    r.owner_id == owner && same_state r.state active && not (r.binding_id == id)

-- Whether the row, once ACTIVE, is the second one of its owner: `active_account_trust_owner`
unfoldable pub breaks_active_index : ℕ → List Binding → Bool
breaks_active_index id rows = elim (select (has_binding_id id) rows) [
  | none ↦ false
  | some r ↦ not (count (is_other_active r.owner_id id) rows == 0)
]

abbrev pub set_binding : BindingUpdate → Binding → Binding
set_binding value r = record r {
  state = value.state;
  passkey_credential_id = or_else value.passkey_credential_id r.passkey_credential_id;
  wallet_address = or_else value.wallet_address r.wallet_address;
  updated_at = value.updated_at;
}

unfoldable pub update_trust_binding : BindingUpdate → Exec TrustStore (Unit {0})
update_trust_binding value s =
    (do
      require
          (not (same_state value.state active && breaks_active_index value.binding_id s.bindings))
          500 constraint_failed
      modify (λ s. record s {
        bindings = update (has_binding_id value.binding_id) (set_binding value) s.bindings;
      }))
      s

abbrev newer : Binding → Option Binding → Binding
newer r none = r
newer r (some q) = if ltb r.created_at q.created_at then q else r

-- The row of the owner that was created last; of two from one millisecond, the first.
unfoldable pub active_trust_binding : ℕ → List Binding → Option Binding
active_trust_binding owner [] = none
active_trust_binding owner (r ∷ rows) =
    let rest = active_trust_binding owner rows in
    if r.owner_id == owner then some (newer r rest) else rest

unfoldable pub record_trust_audit_event : AuditEvent → TrustStore → TrustStore
record_trust_audit_event value s = record s { audit_events = insert value s.audit_events }

unfoldable pub save_webauthn_credential : Credential → Exec TrustStore (Unit {0})
save_webauthn_credential value s =
    (do
      require (count (has_credential_id value.credential_id) s.credentials == 0) 500
          constraint_failed
      modify (λ s. record s { credentials = insert value s.credentials }))
      s

-- Whether `webauthnCredentials` has a row
unfoldable pub has_webauthn_credentials : ℕ → TrustStore → Bool
has_webauthn_credentials owner s = not (count (λ r. r.owner_id == owner) s.credentials == 0)

unfoldable pub webauthn_credential : ℕ → ℕ → TrustStore → Option Credential
webauthn_credential id owner s =
    select (λ r. r.credential_id == id && r.owner_id == owner) s.credentials

unfoldable pub update_webauthn_counter : ℕ → ℕ → TrustStore → TrustStore
update_webauthn_counter id counter s = record s {
  credentials = update (has_credential_id id) (λ r. record r { counter = counter }) s.credentials;
}
