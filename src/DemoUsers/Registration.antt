-- ===== src/DemoUsers/Registration.antt =====
-- The handler. It changes the account of the session and the database. The versions of the terms
-- and of the notice are compared with constants, so the form has the outcome of these tests.
use Prim.Native.Char.{code}
use creator_first_platform.Base.{
  ℕ, ◌+◌, String, Bool, true, false, Option, none, some, List, ◌&&◌, ◌||◌, ◌==◌, leb, str_eq,
  is_valid_key, if◌then◌else◌,
}
use creator_first_platform.Base.Table.{select, insert}
use creator_first_platform.Base.Exec.{
  Exec, ok, pure, throw, gets, modify, require, or_throw, ◌>>=◌, ◌>>◌,
}
use creator_first_platform.Base.Exec.Codes.{
  invalid_test_alias, demo_notice_acceptance_required, invalid_idempotency_key,
  test_user_already_registered, constraint_failed,
}
use creator_first_platform.Account.{Account, DemoUser}
use creator_first_platform.Participants.Forms.{TextMethods}

-- demo_user_registrations; the other columns are constant
pub record Registration : Type 0 where
  pub registration_id : ℕ
  pub test_user_id : ℕ
  pub owner_id : ℕ
  pub registered_at : ℕ

pub record Demo : Type 0 where
  pub account : Account
  pub registrations : List Registration

-- `none` is a value that is no text.
pub record RegistrationForm : Type 0 where
  pub display_name : Option String
  pub same_terms_version : Bool
  pub same_privacy_notice_version : Bool
  pub accepted_terms : Bool
  pub accepted_privacy_notice : Bool
  pub acknowledged_test_only : Bool
  pub idempotency_key : Option String

abbrev or_empty : Option String → String
or_empty none = ""
or_empty (some s) = s

abbrev valid_key : Option String → Option String
valid_key none = none
valid_key (some key) = if is_valid_key key then some key else none

-- the number of code points, which a pattern with the flag `u` counts
unfoldable pub code_points : String → ℕ
code_points String.[] = 0
code_points (String.◌∷◌ c s) = 1 + code_points s

abbrev pub same_key : Option String → String → Bool
same_key none key = false
same_key (some k) key = str_eq k key

abbrev pub same_hash : Option ℕ → ℕ → Bool
same_hash none hash = false
same_hash (some h) hash = h == hash

-- `INSERT`, where `owner_id` is UNIQUE; the other two unique columns hold fresh identifiers.
unfoldable pub record_demo_user_registration :
    Registration → List Registration → Option (List Registration)
record_demo_user_registration value rows = elim (select (λ r. r.owner_id == value.owner_id) rows) [
  | none ↦ some (insert value rows)
  | some _ ↦ none
]

-- `is_word` is `[\p{L}\p{N}]`, and `registration_hash` SHA-256 over the name and the constants.
module _ (is_word : ℕ → Bool) (methods : TextMethods) (registration_hash : String → ℕ) where
  open methods use {trim, normalize_nfkc}

  unfoldable pub all_alias : String → Bool
  all_alias String.[] = true
  all_alias (String.◌∷◌ c s) =
      (is_word (code c) || code c == 95 || code c == 32 || code c == 45) && all_alias s

  -- `/^[\p{L}\p{N}_ -]{2,24}$/u`
  unfoldable pub is_valid_alias : String → Bool
  unfolding all_alias code_points
  is_valid_alias name = all_alias name && leb 2 (code_points name) && leb (code_points name) 24

  -- The tests on the body: the name and the key.
  unfoldable pub valid_registration : RegistrationForm → Exec Demo (String × String)
  valid_registration body = do
    let name = normalize_nfkc (trim (or_empty body.display_name))
    require (is_valid_alias name) 400 invalid_test_alias
    require
        (body.same_terms_version && body.same_privacy_notice_version && body.accepted_terms
          && body.accepted_privacy_notice && body.acknowledged_test_only)
        400 demo_notice_acceptance_required
    key ← or_throw (valid_key body.idempotency_key) 400 invalid_idempotency_key
    pure (name, key)

  abbrev insert_registration : Registration → Exec Demo (Unit {0})
  insert_registration value s = elim (record_demo_user_registration value s.registrations) [
    | none ↦ throw 500 constraint_failed s
    | some rows ↦ (ok tt, record s { registrations = rows })
  ]

  -- Where the account has no Test User; the identifiers are drawn at random.
  unfoldable pub register_new : String → String → ℕ → ℕ → ℕ → Exec Demo (ℕ × DemoUser)
  unfolding record_demo_user_registration
  register_new name key registration user now = do
    let value : DemoUser = record { test_user_id = user; display_name = name; created_at = now }
    owner ← gets (λ s. s.account.account_id)
    insert_registration (record {
      registration_id = registration;
      test_user_id = user;
      owner_id = owner;
      registered_at = now;
    })
    modify (λ s. record s {
      account = record (s.account) {
        demo_user = some value;
        demo_registration_key = some key;
        demo_registration_hash = some (registration_hash name);
      };
    })
    pure (201, value)

  -- Where it has one.
  unfoldable pub register_again : DemoUser → String → String → Exec Demo (ℕ × DemoUser)
  register_again user name key = do
    account ← gets (λ s. s.account)
    require
        (same_key account.demo_registration_key key
          && same_hash account.demo_registration_hash (registration_hash name))
        409 test_user_already_registered
    pure (200, user)

  unfoldable pub register_from :
      Option DemoUser → String → String → ℕ → ℕ → ℕ → Exec Demo (ℕ × DemoUser)
  register_from none name key registration user now = register_new name key registration user now
  register_from (some value) name key registration user now = register_again value name key

  unfoldable pub register_demo_user : RegistrationForm → ℕ → ℕ → ℕ → Exec Demo (ℕ × DemoUser)
  register_demo_user body registration user now = do
    (name, key) ← valid_registration body
    existing ← gets (λ s. s.account.demo_user)
    register_from existing name key registration user now
