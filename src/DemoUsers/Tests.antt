-- ===== src/DemoUsers/Tests.antt =====
-- The theorem on demo users at a concrete input.
use creator_first_platform.Base.{
  ℕ, ◌≡◌, refl, String, Bool, true, some, [], is_valid_key, utf16_length,
}
use creator_first_platform.Base.Table.{select}
use creator_first_platform.Base.Exec.{ok}
use creator_first_platform.Account.{DemoUser, new_account}
use creator_first_platform.Participants.Forms.{TextMethods}
use creator_first_platform.DemoUsers.Registration.{
  Demo, RegistrationForm, code_points, all_alias, is_valid_alias, valid_registration,
  record_demo_user_registration, register_new, register_from, register_demo_user,
}
use creator_first_platform.DemoUsers.Repeats.{register_repeats}

abbrev methods : TextMethods
methods = record { trim = λ s. s; to_lower_case = λ s. s; normalize_nfkc = λ s. s }

abbrev is_word : ℕ → Bool
is_word _ = true

abbrev registration_hash : String → ℕ
registration_hash _ = 0

abbrev form : RegistrationForm
form = record {
  display_name = some "Ao";
  same_terms_version = true;
  same_privacy_notice_version = true;
  accepted_terms = true;
  accepted_privacy_notice = true;
  acknowledged_test_only = true;
  idempotency_key = some "key-number-1";
}

abbrev start : Demo
start = record { account = new_account 1 7; registrations = [] }

abbrev user : DemoUser
user = record { test_user_id = 12; display_name = "Ao"; created_at = 100 }

register_repeats_example :
    let s' = (register_demo_user is_word methods registration_hash form 11 12 100 start).1 in
    register_demo_user is_word methods registration_hash form 21 22 200 s' ≡ (ok (200, user), s')
unfolding register_demo_user valid_registration is_valid_alias all_alias code_points is_valid_key
    utf16_length register_from register_new record_demo_user_registration select
register_repeats_example =
    register_repeats is_word methods registration_hash form 11 12 100 21 22 200 start user refl refl
