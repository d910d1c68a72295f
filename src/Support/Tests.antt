-- ===== src/Support/Tests.antt =====
-- The theorem on support at a concrete history.
use Prim.Native.Char.{code}
use creator_first_platform.Base.{
  ℕ, ◌≡◌, refl, ◌⊎◌, String, Option, none, some, List, [], ◌∷◌, is_valid_key, utf16_length,
}
use creator_first_platform.Base.Table.{select, update}
use creator_first_platform.Catalog.{early_supporter_tier, find_artist}
use creator_first_platform.Account.{Account, new_account}
use creator_first_platform.Support.Intents.{
  IntentMessage, sbt_active, Support, SupportForm, create_support_intent, answer_intent, add_intent,
  submit_support, submit_check, submit_finish, support_registration,
}
use creator_first_platform.Support.Histories.{Step, creates, submits, step, run, run_supporters}

abbrev address : ℕ → Option ℕ
address n = some n

abbrev intent_hash : String → ℕ → ℕ → ℕ
intent_hash artist a version = a

-- stands for the recovery of a signer
abbrev recover : IntentMessage → String → Option ℕ
recover m String.[] = none
recover m (String.◌∷◌ c s) = some (code c)

abbrev fan : Account
fan = record (new_account 1 7) { wallet_address = some 65 }

abbrev wanted : SupportForm
wanted = record { address = some 65; idempotency_key = some "key-number-1"; consent_version = 1 }

abbrev start : Support
start = record { intents = []; keys = [] }

abbrev history : List (ℕ × Step)
history = (1000, creates fan "artist-ao" wanted 1 5) ∷ (2000, submits fan 1 "A") ∷ []

abbrev supporter : Account
supporter = record fan { tiers = ("artist-ao", early_supporter_tier) ∷ [] }

run_supporters_example :
    (supporter.tiers ≡ fan.tiers)
    ⊎ ((m : IntentMessage) × (signature : String) × (recover m signature ≡ some m.supporter)
        × (supporter.tiers ≡ (m.artist_id, early_supporter_tier) ∷ fan.tiers))
unfolding run step create_support_intent find_artist select is_valid_key utf16_length answer_intent
    add_intent submit_support submit_check submit_finish update support_registration
run_supporters_example =
    run_supporters recover intent_hash address start history fan 1 3000 supporter sbt_active
      early_supporter_tier refl refl
