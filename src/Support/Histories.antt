-- ===== src/Support/Histories.antt =====
-- Histories of the support handlers, each of which runs to its end before the next one.
use creator_first_platform.Base.{
  ℕ, ◌≡◌, refl, String, ◌⊎◌, inl, inr, false, Option, none, some, List, [], ◌∷◌, arith,
  Option-cases, Bool-cases, sym, ap, ◌∙◌, ◌&&◌,
}
use creator_first_platform.Base.Table.{select}
use creator_first_platform.Base.Exec.{ok}
use creator_first_platform.Catalog.{Tier, early_supporter_tier}
use creator_first_platform.Account.{Account}
use creator_first_platform.Support.Intents.{
  IntentMessage, IntentStatus, Intent, IntentKey, Support, SupportForm, has_request_id,
  is_signature_required, is_confirming, is_past, new_intent, answer_intent, replay_intent,
  add_intent, create_support_intent, submit_support, support_registration,
}
use creator_first_platform.Support.Tiers.{
  IsSound, AreSound, AreSound-nil, insert-AreSound, submit-AreSound, registration-AreSound,
  AreSound-select,
}

pub data Step : Type 0 where
  creates : Account → String → SupportForm → ℕ → ℕ → Step
  submits : Account → ℕ → String → Step
  reads : Account → ℕ → Step

module _ (recover : IntentMessage → String → Option ℕ) (intent_hash : String → ℕ → ℕ → ℕ)
    (get_address : ℕ → Option ℕ) where
  new-IsSound :
      (a : Account) (artist : String) (address id nonce now : ℕ)
      → IsSound recover (new_intent intent_hash get_address a artist address id nonce now)
  new-IsSound a artist address id nonce now = record {
    supporter_lem = refl;
    artist_lem = refl;
    signed = λ e. absurd (ground arith);
  }

  answer-AreSound :
      (a : Account) (artist key : String) (address hash : ℕ) (i : Intent) (prior : Option IntentKey)
      (s : Support)
      → IsSound recover i
      → AreSound recover s.intents
      → AreSound recover
          (answer_intent intent_hash get_address a artist key address hash i prior s).1.intents
  unfolding answer_intent replay_intent add_intent
  answer-AreSound a artist key address hash i none s q h = insert-AreSound recover i s.intents q h
  answer-AreSound a artist key address hash i (some prior) s q h = ground arith

  create-AreSound :
      (a : Account) (artist : String) (body : SupportForm) (id nonce now : ℕ) (s : Support)
      → AreSound recover s.intents
      → AreSound recover
          (create_support_intent intent_hash get_address a artist body id nonce now s).1.intents
  unfolding create_support_intent
  create-AreSound a artist body id nonce now s h = grind (arith, answer-AreSound, new-IsSound)

  unfoldable pub step : Support → ℕ × Step → Support
  step s (now, creates a artist body id nonce) =
      (create_support_intent intent_hash get_address a artist body id nonce now s).1
  step s (now, submits a id signature) = (submit_support recover a id signature now s).1
  step s (now, reads a id) = (support_registration recover a id now s).1

  unfoldable pub run : Support → List (ℕ × Step) → Support
  run s [] = s
  run s (e ∷ es) = run (step s e) es

  step-AreSound :
      (s : Support) (now : ℕ) (e : Step)
      → AreSound recover s.intents
      → AreSound recover (step s (now, e)).intents
  unfolding step
  step-AreSound s now (creates a artist body id nonce) h =
      create-AreSound a artist body id nonce now s h
  step-AreSound s now (submits a id signature) h = submit-AreSound recover a id signature now s h
  step-AreSound s now (reads a id) h = registration-AreSound recover a id now s h

  run-AreSound :
      (s : Support) (es : List (ℕ × Step))
      → AreSound recover s.intents
      → AreSound recover (run s es).intents
  unfolding run
  run-AreSound s [] h = h
  run-AreSound s ((now, e) ∷ es) h = run-AreSound (step s (now, e)) es (step-AreSound s now e h)

  registration_cases :
      (a : Account) (id now : ℕ) (s : Support) (a' : Account) (st : IntentStatus) (t : Tier)
      → (support_registration recover a id now s).0 ≡ ok (a', st, t)
      → (a'.tiers ≡ a.tiers)
        ⊎ ((i : Intent) × (select (has_request_id id) s.intents ≡ some i)
            × (is_signature_required i.status ≡ false)
            × (a'.tiers ≡ (i.artist_id, i.tier) ∷ a.tiers))
  unfolding support_registration
  registration_cases a id now s a' st t h =
      elim (Option-cases (select (has_request_id id) s.intents)) [
        | inl missing ↦ absurd (ground arith)
        | inr (i, found) ↦ elim (Bool-cases (is_confirming i.status && is_past i.activate_at now)) [
          | inl due ↦ inr (i, found, ground arith, ground arith)
          | inr early ↦ inl (ground arith)
        ]
      ]

  -- From a state without intents, after any history of the support handlers, each of which runs to
  -- its end, a reading of a registration that succeeds leaves the tiers of the account as they
  -- are, or adds the early supporter tier of an artist where the wallet that the typed data names
  -- has signed it.
  pub run_supporters :
      (s : Support) (es : List (ℕ × Step)) (a : Account) (id now : ℕ) (a' : Account)
      (st : IntentStatus) (t : Tier)
      → s.intents ≡ []
      → (support_registration recover a id now (run s es)).0 ≡ ok (a', st, t)
      → (a'.tiers ≡ a.tiers)
        ⊎ ((m : IntentMessage) × (signature : String) × (recover m signature ≡ some m.supporter)
            × (a'.tiers ≡ (m.artist_id, early_supporter_tier) ∷ a.tiers))
  run_supporters s es a id now a' st t start h =
      elim (registration_cases a id now (run s es) a' st t h) [
        | inl same ↦ inl same
        | inr (i, found, past, tiers) ↦
            let sound =
              AreSound-select recover id i (run s es).intents
                (run-AreSound s es (rw start (AreSound-nil recover))) found in
            let (tier, signature, signed) = sound.signed past in
            inr (
              i.typed_data,
              signature,
              signed ∙ ap some (sym sound.supporter_lem),
              tiers ∙ rw (tier, sound.artist_lem) refl,
            )
      ]
