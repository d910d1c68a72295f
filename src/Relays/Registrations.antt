-- ===== src/Relays/Registrations.antt =====
-- What the supporter relayer hands to the chain, one part of a relay at a time.
pub mod Histories
use creator_first_platform.Base.{
  ℕ, ◌+◌, ◌≤◌, ◌<◌, ◌≡◌, ◌⊎◌, refl, String, Bool, true, false, Option, none, some, List, [], ◌∷◌,
  ◌==◌, ltb, not, str_eq, arith, inl, inr, Option-cases, Bool-cases, subst, if◌then◌else◌,
}
use mathlib.Core.Option.{map as map_option}
use creator_first_platform.Base.Table.{select, update, insert, select-insert_old, select_holds}
use creator_first_platform.Base.Table.Keyed.{select-update_each}
use creator_first_platform.Base.Exec.{Result, ok, err, Failure, Result-cases}
use creator_first_platform.Base.Exec.Codes.{
  support_signature_invalid, support_signer_mismatch, participant_registration_required,
  support_nonce_mismatch, supporter_relay_failed, chain_failed,
}
use creator_first_platform.Relays.Operations.{
  OperationKey, Operation, length, delete_operation, keep_operation,
}
use creator_first_platform.Relays.Capacity.{length-keep_operation, length-delete_operation}
use creator_first_platform.Relays.Supporters.{
  SupportForm, SupportIntent, HolderStatus, RelayOutcome, submitted, mined, SupportProgress,
  waits_signer, waits_status, waits_relay, settled, failed, SupportRun, SupportRelayer, includes,
  is_creator, read_creator, read_intent, RegistryId, absent, given, new_run, join_or_start,
  has_run_id, set_progress, fail_run, relay_signer, relay_status, relay_end, result_of,
  sbt_submitted,
}

inserted :
    (id : ℕ) (x r : SupportRun) (rs : List SupportRun)
    → select (has_run_id id) rs ≡ none
    → select (has_run_id id) (insert x rs) ≡ some r
    → x ≡ r
unfolding select
inserted id x r [] missing e = ground arith
inserted id x r (y ∷ rs) missing e = ground (arith, inserted id x r rs)

-- `IsSponsored` says of an intent what its relay has to have checked.
module _ (IsSponsored : SupportIntent → Type 0) (recover : SupportIntent → Option ℕ) where
  abbrev pub is_past_signer : SupportProgress → Bool
  is_past_signer waits_status = true
  is_past_signer waits_relay = true
  is_past_signer _ = false

  unfoldable pub IsGoodRun : SupportRun → Type 0
  IsGoodRun r =
      IsSponsored r.value
      × (is_past_signer r.progress ≡ true → recover r.value ≡ some r.value.holder)

  unfoldable pub AreGood : List SupportRun → Type 0
  AreGood rs = (id : ℕ) (r : SupportRun) → select (has_run_id id) rs ≡ some r → IsGoodRun r

  -- Every intent that was handed to the chain was signed by its holder, for a creator that is
  -- sponsored, and the chain had the holder registered, without a token, and at its nonce.
  unfoldable pub AreSent : List (SupportIntent × HolderStatus) → Type 0
  AreSent [] = Unit {0}
  AreSent ((v, before) ∷ vs) =
      IsSponsored v
      × (recover v ≡ some v.holder)
      × (before.registered ≡ true)
      × (before.token_id ≡ 0)
      × (before.nonce ≡ v.nonce)
      × AreSent vs

  insert-AreSent :
      (v : SupportIntent) (before : HolderStatus) (vs : List (SupportIntent × HolderStatus))
      → IsSponsored v
      → recover v ≡ some v.holder
      → before.registered ≡ true
      → before.token_id ≡ 0
      → before.nonce ≡ v.nonce
      → AreSent vs
      → AreSent (insert (v, before) vs)
  unfolding AreSent
  insert-AreSent v before [] a b c d e h = (a, b, c, d, e, tt)
  insert-AreSent v before ((w, s) ∷ vs) a b c d e h =
      (h.0, h.1, h.2, h.3, h.4, insert-AreSent v before vs a b c d e h.5)

  pub insert-AreGood :
      (x : SupportRun) (rs : List SupportRun) → IsGoodRun x → AreGood rs → AreGood (insert x rs)
  unfolding AreGood
  insert-AreGood x rs good h id r e = elim (Option-cases (select (has_run_id id) rs)) [
    | inr (old, found) ↦
        let there = select-insert_old (has_run_id id) x rs old found in
        let same : old ≡ r = ground arith in subst IsGoodRun same (h id old found)
    | inl missing ↦
        let same : x ≡ r = ground (arith, inserted id x r rs missing) in subst IsGoodRun same good
  ]

  -- A run goes on: what its new progress needs is given.
  set-AreGood :
      (id : ℕ) (p : SupportProgress) (rs : List SupportRun)
      → ((r : SupportRun)
          → select (has_run_id id) rs ≡ some r
          → is_past_signer p ≡ true
          → recover r.value ≡ some r.value.holder)
      → AreGood rs
      → AreGood (set_progress id p rs)
  unfolding AreGood IsGoodRun
  set-AreGood id p rs signed h k r e =
      let each =
        select-update_each (λ (r : SupportRun). r.run_id) (λ r. record r { progress = p })
          (λ y. refl) k id rs in
      elim (Option-cases (select (has_run_id k) rs)) [
        | inl missing ↦ absurd (ground arith)
        | inr (old, found) ↦ elim (Bool-cases (k == id)) [
          | inr miss ↦ let same : old ≡ r = ground arith in subst IsGoodRun same (h k old found)
          | inl hit ↦
              let own : k ≡ id = ground arith in
              let same : record old { progress = p } ≡ r = ground arith in
              let there : select (has_run_id id) rs ≡ some old =
                subst (λ n. select (has_run_id n) rs ≡ some old) own found in
              subst IsGoodRun same ((h k old found).0, λ past. signed old there past)
        ]
      ]

  unfoldable pub IsSafe : SupportRelayer → Type 0
  IsSafe s = AreGood s.runs × AreSent s.sent × (length s.operations ≤ 512)

  -- A run that ends, either way
  over-IsSafe :
      (id : ℕ) (p : SupportProgress) (s : SupportRelayer)
      → is_past_signer p ≡ false
      → IsSafe s
      → IsSafe (record s { runs = set_progress id p s.runs })
  unfolding IsSafe
  over-IsSafe id p s over h =
      (set-AreGood id p s.runs (λ r found past. absurd (ground arith)) h.0, h.1, h.2)

  fail-IsSafe :
      (r : SupportRun) (f : Failure) (s : SupportRelayer) → IsSafe s → IsSafe (fail_run r f s)
  unfolding IsSafe
  fail-IsSafe r f s h =
      let over = over-IsSafe r.run_id (failed f) s refl h in
      (over.0, h.1, ground (arith, length-delete_operation r.key s.operations, h.2))

  go-AreGood :
      (r : SupportRun) (p : SupportProgress) (rs : List SupportRun)
      → select (has_run_id r.run_id) rs ≡ some r
      → recover r.value ≡ some r.value.holder
      → AreGood rs
      → AreGood (set_progress r.run_id p rs)
  go-AreGood r p rs found signed h =
      set-AreGood r.run_id p rs
        (λ x there past.
          let same : r ≡ x = ground arith in
          subst (λ y. recover y.value ≡ some y.value.holder) same signed)
        h

  signed-IsSafe :
      (r : SupportRun) (s : SupportRelayer)
      → select (has_run_id r.run_id) s.runs ≡ some r
      → recover r.value ≡ some r.value.holder
      → IsSafe s
      → IsSafe (record s { runs = set_progress r.run_id waits_status s.runs })
  unfolding IsSafe
  signed-IsSafe r s found signed h = (go-AreGood r waits_status s.runs found signed h.0, h.1, h.2)

  sent-IsSafe :
      (r : SupportRun) (before : HolderStatus) (s : SupportRelayer)
      → select (has_run_id r.run_id) s.runs ≡ some r
      → is_past_signer r.progress ≡ true
      → before.registered ≡ true
      → before.token_id ≡ 0
      → before.nonce ≡ r.value.nonce
      → IsSafe s
      → IsSafe (record s {
        runs = set_progress r.run_id waits_relay s.runs;
        sent = insert (r.value, before) s.sent;
      })
  unfolding IsSafe AreGood IsGoodRun
  sent-IsSafe r before s found past registered free nonce h =
      let good = h.0 r.run_id r found in
      (
        go-AreGood r waits_relay s.runs found (good.1 past) h.0,
        insert-AreSent r.value before s.sent good.0 (good.1 past) registered free nonce h.1,
        h.2,
      )

  pub signer-IsSafe :
      (r : SupportRun) (s : SupportRelayer)
      → select (has_run_id r.run_id) s.runs ≡ some r
      → IsSafe s
      → IsSafe (relay_signer recover r s)
  unfolding relay_signer
  signer-IsSafe r s found h = elim (Option-cases (recover r.value)) [
    | inl invalid ↦
        let kept = fail-IsSafe r (record { status = 401; code = support_signature_invalid }) s h in
        ground arith
    | inr (signer, recovered) ↦ elim (Bool-cases (signer == r.value.holder)) [
      | inr other ↦
          let kept = fail-IsSafe r (record { status = 401; code = support_signer_mismatch }) s h in
          ground arith
      | inl own ↦
          let signed : recover r.value ≡ some r.value.holder = ground arith in
          let kept = signed-IsSafe r s found signed h in ground arith
    ]
  ]

  pub status-IsSafe :
      (r : SupportRun) (outcome : Option HolderStatus) (s : SupportRelayer)
      → select (has_run_id r.run_id) s.runs ≡ some r
      → is_past_signer r.progress ≡ true
      → IsSafe s
      → IsSafe (relay_status r outcome s)
  unfolding relay_status
  status-IsSafe r none s found past h =
      fail-IsSafe r (record { status = 500; code = chain_failed }) s h
  status-IsSafe r (some before) s found past h = elim (Bool-cases before.registered) [
    | inr unknown ↦
        rw unknown
          (fail-IsSafe r (record { status = 403; code = participant_registration_required }) s h)
    | inl registered ↦ elim (Bool-cases (ltb 0 before.token_id)) [
      | inl held ↦
          rw (registered, held)
            (over-IsSafe r.run_id
              (settled (result_of r.value.holder none before.token_id before.tier true)) s refl h)
      | inr free ↦ elim (Bool-cases (before.nonce == r.value.nonce)) [
        | inr other ↦
            rw (registered, free, other)
              (fail-IsSafe r (record { status = 409; code = support_nonce_mismatch }) s h)
        | inl nonce ↦
            let none_held : before.token_id ≡ 0 = ground arith in
            let current : before.nonce ≡ r.value.nonce = ground arith in
            let kept = sent-IsSafe r before s found past registered none_held current h in
            ground arith
      ]
    ]
  ]

  pub end-IsSafe :
      (r : SupportRun) (outcome : Option RelayOutcome) (s : SupportRelayer)
      → IsSafe s
      → IsSafe (relay_end r outcome s)
  unfolding relay_end
  end-IsSafe r none s h = fail-IsSafe r (record { status = 502; code = supporter_relay_failed }) s h
  end-IsSafe r (some (submitted hash)) s h =
      over-IsSafe r.run_id (settled (sbt_submitted r.value.holder hash)) s refl h
  end-IsSafe r (some (mined hash token_id tier)) s h = elim (Bool-cases (token_id == 0)) [
    | inl gone ↦
        rw gone (fail-IsSafe r (record { status = 502; code = supporter_relay_failed }) s h)
    | inr held ↦ rw held (
        over-IsSafe r.run_id (settled (result_of r.value.holder (some hash) token_id tier false)) s
          refl h)
  ]
