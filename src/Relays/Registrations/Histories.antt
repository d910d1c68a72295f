-- ===== src/Relays/Registrations/Histories.antt =====
-- Histories of the supporter relayer: relays, and the awaits of their runs, in any order.
use creator_first_platform.Base.{
  ℕ, ◌+◌, ◌/◌, ◌≤◌, ◌<◌, ◌≡◌, refl, String, Bool, true, false, Option, none, some, List, [], ◌∷◌,
  ltb, ◌⊎◌, str_eq, arith, inl, inr, Option-cases, Bool-cases, subst, if◌then◌else◌,
}
use creator_first_platform.Base.Table.{select, select_holds}
use creator_first_platform.Base.Exec.{Result, ok, bind_keeps, Result-cases}
use creator_first_platform.Relays.Operations.{
  OperationKey, length, prior_run, operation_key, is_hex_text,
}
use creator_first_platform.Relays.Capacity.{length-keep_operation, prior_run_state}
use creator_first_platform.Relays.Governance.{filter_some}
use creator_first_platform.Relays.Supporters.{
  SupportForm, SupportIntent, HolderStatus, RelayOutcome, SupportProgress, waits_signer,
  waits_status, waits_relay, SupportRun, SupportRelayer, RegistryId, absent, given, available,
  includes, read_creator, read_intent, new_run, join_or_start, relay, has_run_id, relay_signer,
  relay_status, relay_end,
}
use creator_first_platform.Relays.Registrations.{
  IsGoodRun, AreGood, AreSent, IsSafe, is_past_signer, insert-AreGood, signer-IsSafe, status-IsSafe,
  end-IsSafe,
}

abbrev waits_for_signer : SupportProgress → Bool
waits_for_signer waits_signer = true
waits_for_signer _ = false

abbrev waits_for_status : SupportProgress → Bool
waits_for_status waits_status = true
waits_for_status _ = false

abbrev waits_for_relay : SupportProgress → Bool
waits_for_relay waits_relay = true
waits_for_relay _ = false

-- A relay, with the chain's registry of creators as its own read of it finds it; or the outcome of
-- what the run of a number awaits
pub data Step : Type 0 where
  relays : (ℕ → Result (Option String)) → SupportForm → ℕ → Option Bool → ℕ → Step
  recovers_signer : ℕ → Step
  reads_status : ℕ → Option HolderStatus → Step
  ends_relay : ℕ → Option RelayOutcome → Step

abbrev go_on :
    (SupportProgress → Bool)
    → Option SupportRun
    → (SupportRun → SupportRelayer)
    → SupportRelayer
    → SupportRelayer
go_on p none f s = s
go_on p (some r) f s = if p r.progress then f r else s

module _ (to_lower_case : String → String) (allowed : List String)
    (recover : SupportIntent → Option ℕ) (operation_hash : SupportIntent → ℕ) where
  unfoldable pub step : SupportRelayer → Step → SupportRelayer
  step s (relays registry input now ready later) =
      (relay to_lower_case registry allowed operation_hash input now ready later s).1
  step s (recovers_signer id) =
      go_on waits_for_signer (select (has_run_id id) s.runs) (λ r. relay_signer recover r s) s
  step s (reads_status id outcome) =
      go_on waits_for_status (select (has_run_id id) s.runs) (λ r. relay_status r outcome s) s
  step s (ends_relay id outcome) =
      go_on waits_for_relay (select (has_run_id id) s.runs) (λ r. relay_end r outcome s) s

  unfoldable pub run : SupportRelayer → List Step → SupportRelayer
  run s [] = s
  run s (e ∷ es) = run (step s e) es

  -- The creator is on the list, or the registry has it under the number that the form names.
  abbrev IsSponsored : (ℕ → Result (Option String)) → RegistryId → String → Type 0
  IsSponsored registry id creator_id =
      (includes allowed (to_lower_case creator_id) ≡ true)
      ⊎ ((n : ℕ) × (c : String) × (id ≡ given (some n))
          × (0 < n)
          × (registry n ≡ ok (some c))
          × (str_eq (to_lower_case c) (to_lower_case creator_id) ≡ true))

  -- A relay of the form is one of this intent, and found its creator sponsored.
  abbrev IsRelayOf : (ℕ → Result (Option String)) → SupportForm → SupportIntent → Type 0
  IsRelayOf registry input v =
      (input.holder ≡ some v.holder)
      × (input.creator_id ≡ some v.creator_id)
      × (input.nonce ≡ some v.nonce)
      × (input.signature ≡ some v.signature)
      × IsSponsored registry input.registry_creator_id v.creator_id

  -- One of the relays of the history is such a relay of the intent.
  unfoldable pub WasSponsored : List Step → SupportIntent → Type 0
  WasSponsored [] v = ⊥
  WasSponsored (relays registry input now ready later ∷ es) v =
      IsRelayOf registry input v ⊎ WasSponsored es v
  WasSponsored (recovers_signer id ∷ es) v = WasSponsored es v
  WasSponsored (reads_status id outcome ∷ es) v = WasSponsored es v
  WasSponsored (ends_relay id outcome ∷ es) v = WasSponsored es v

  filter_lem :
      (p : String → Bool) (x : Option String) (y : String) → filter_some p x ≡ some y → x ≡ some y
  filter_lem p none y h = absurd (ground arith)
  filter_lem p (some z) y h = ground arith

  past_lem :
      (p : SupportProgress)
      → waits_for_status p ≡ true
      → is_past_signer (λ v. Unit {0}) recover p ≡ true
  past_lem waits_status h = refl
  past_lem _ h = absurd (ground arith)

  module _ (registry : ℕ → Result (Option String)) where
    read_creator_lem :
        (id : RegistryId) (creator_id : String) (s : SupportRelayer)
        → ((read_creator to_lower_case registry allowed id creator_id s).1 ≡ s)
          × ((read_creator to_lower_case registry allowed id creator_id s).0 ≡ ok true
              → (n : ℕ) × (c : String) × (id ≡ given (some n))
                × (0 < n)
                × (registry n ≡ ok (some c))
                × (str_eq (to_lower_case c) (to_lower_case creator_id) ≡ true))
    unfolding read_creator
    read_creator_lem absent creator_id s = (ground arith, λ r. absurd (ground arith))
    read_creator_lem (given none) creator_id s = (ground arith, λ r. absurd (ground arith))
    read_creator_lem (given (some n)) creator_id s = (
      ground arith,
      λ r. elim (Result-cases (registry n)) [
        | inr (f, e) ↦ absurd (ground arith)
        | inl (none, e) ↦ absurd (ground arith)
        | inl (some c, e) ↦ (n, c, refl, ground arith, e, ground arith)
      ],
    )

    read_lem :
        (input : SupportForm) (now : ℕ) (s : SupportRelayer)
        → ((read_intent to_lower_case registry allowed input now s).1 ≡ s)
          × ((v : SupportIntent) (key : String)
              → (read_intent to_lower_case registry allowed input now s).0 ≡ ok (v, key)
              → IsRelayOf registry input v)
    unfolding read_intent
    read_lem input now s = elim (Option-cases (filter_some (is_hex_text 64) input.creator_id)) [
      | inl missing ↦ (ground arith, λ v key r. absurd (ground arith))
      | inr (c, hex) ↦
          let (same, found) = read_creator_lem input.registry_creator_id c s in
          elim (Result-cases
            (read_creator to_lower_case registry allowed input.registry_creator_id c s).0) [
              | inr (f, e) ↦ (ground arith, λ v key r. absurd (ground arith))
              | inl (b, e) ↦ (
                ground arith,
                λ v key r.
                    let own : c ≡ v.creator_id = ground arith in
                    (
                      ground arith,
                      ground (arith, filter_lem (is_hex_text 64) input.creator_id c hex),
                      ground arith,
                      filter_lem (is_hex_text 130) input.signature v.signature (ground arith),
                      subst (λ x. IsSponsored registry input.registry_creator_id x) own
                          (elim (Bool-cases b) [
                            | inl named ↦ inr (found (ground arith))
                            | inr free ↦ inl (ground arith)
                          ]),
                    ),
              )
            ]
    ]

  -- What the history shows of an intent implies `S`.
  module _ (S : SupportIntent → Type 0) where
    abbrev Safe : SupportRelayer → Type 0
    Safe s = IsSafe S recover s

    start-IsSafe :
        (registry : ℕ → Result (Option String)) (prior : Option ℕ) (key : OperationKey) (hash : ℕ)
        (v : SupportIntent) (s : SupportRelayer)
        → S v
        → Safe s
        → Safe (join_or_start to_lower_case registry allowed prior key hash v s).1
    unfolding IsSafe join_or_start IsGoodRun
    start-IsSafe registry (some id) key hash v s sponsored h = h
    start-IsSafe registry none key hash v s sponsored h = (
      insert-AreGood S recover (new_run to_lower_case registry allowed (length s.runs) key v) s.runs
          (sponsored, λ past. absurd (ground arith)) h.0,
      h.1,
      length-keep_operation (record { key = key; hash = hash; run_id = length s.runs }) s.operations
          h.2,
    )

    available-IsSafe :
        (now : ℕ) (ready : Option Bool) (later : ℕ) (s : SupportRelayer)
        → Safe s
        → Safe (available now ready later s).1
    unfolding available IsSafe
    available-IsSafe now ready later s h =
        elim (Bool-cases (ltb now (s.availability.checked_at + 30000))) [
          | inl fresh ↦ rw fresh h
          | inr old ↦ rw old h
        ]

    relay-IsSafe :
        (registry : ℕ → Result (Option String)) (input : SupportForm) (now : ℕ)
        (ready : Option Bool) (later : ℕ) (s : SupportRelayer)
        → ((v : SupportIntent) → IsRelayOf registry input v → S v)
        → Safe s
        → Safe (relay to_lower_case registry allowed operation_hash input now ready later s).1
    unfolding relay
    relay-IsSafe registry input now ready later s sponsors h =
        let s1 = (available now ready later s).1 in
        let h1 = available-IsSafe now ready later s h in
        let (same, read) = read_lem registry input (later / 1000) s1 in
        bind_keeps (λ t. Safe t) (available now ready later) _ s h1
          λ ok_ready r. elim (Bool-cases ok_ready) [
            | inr refused ↦ ground arith
            | inl accepted ↦
                elim (Result-cases
                  (read_intent to_lower_case registry allowed input (later / 1000) s1).0) [
                    | inr (f, e) ↦ ground arith
                    | inl ((v, key), e) ↦
                        let sponsored = sponsors v (read v key e) in
                        let k = operation_key v.holder key in
                        let unchanged = prior_run_state k (operation_hash v) s1.operations in
                        elim (Result-cases (prior_run k (operation_hash v) s1.operations).0) [
                          | inr (f, p) ↦ ground arith
                          | inl (prior, p) ↦
                              let kept =
                                start-IsSafe registry prior k (operation_hash v) v s1 sponsored
                                  h1 in
                              ground arith
                        ]
                  ]
          ]

    on_run :
        (p : SupportProgress → Bool) (id : ℕ) (s : SupportRelayer) (f : SupportRun → SupportRelayer)
        → Safe s
        → ((r : SupportRun)
            → select (has_run_id r.run_id) s.runs ≡ some r
            → p r.progress ≡ true
            → Safe (f r))
        → Safe (go_on p (select (has_run_id id) s.runs) f s)
    on_run p id s f h keep = elim (Option-cases (select (has_run_id id) s.runs)) [
      | inl missing ↦ rw missing h
      | inr (r, found) ↦
          let own : id ≡ r.run_id = ground (arith, select_holds (has_run_id id) r s.runs found) in
          let there : select (has_run_id r.run_id) s.runs ≡ some r =
            subst (λ n. select (has_run_id n) s.runs ≡ some r) own found in
          elim (Bool-cases (p r.progress)) [
            | inl waits ↦ let kept = keep r there waits in rw (found, waits) kept
            | inr other ↦ rw (found, other) h
          ]
    ]

    run-IsSafe :
        (s : SupportRelayer) (es : List Step)
        → ((v : SupportIntent) → WasSponsored es v → S v)
        → Safe s
        → Safe (run s es)
    unfolding run step WasSponsored
    run-IsSafe s [] was h = h
    run-IsSafe s (relays registry input now ready later ∷ es) was h =
        run-IsSafe (step s (relays registry input now ready later)) es (λ v w. was v (inr w))
          (relay-IsSafe registry input now ready later s (λ v w. was v (inl w)) h)
    run-IsSafe s (recovers_signer id ∷ es) was h = run-IsSafe (step s (recovers_signer id)) es was (
        on_run waits_for_signer id s (λ r. relay_signer recover r s) h
          (λ r found p. signer-IsSafe S recover r s found h))
    run-IsSafe s (reads_status id outcome ∷ es) was h =
        run-IsSafe (step s (reads_status id outcome)) es was (
          on_run waits_for_status id s (λ r. relay_status r outcome s) h
            (λ r found p. status-IsSafe S recover r outcome s found (past_lem r.progress p) h))
    run-IsSafe s (ends_relay id outcome ∷ es) was h =
        run-IsSafe (step s (ends_relay id outcome)) es was (
          on_run waits_for_relay id s (λ r. relay_end r outcome s) h
            (λ r found p. end-IsSafe S recover r outcome s h))

  -- From a supporter relayer without runs and operations, after any history of relays, each with
  -- its own read of the registry, and of the awaits of their runs, in any order, every intent that
  -- was handed to the chain is signed by its holder, whom the status of the chain, read before,
  -- had registered, without a token and at the nonce of the intent; and some relay of the history
  -- had its holder, creator, nonce and signature, and found the creator on the list or, in its
  -- read of the registry, under the number of its form, which is not 0. The map of operations has
  -- at most 512.
  pub run_sends_sponsored :
      (s : SupportRelayer) (es : List Step)
      → s.runs ≡ []
      → s.sent ≡ []
      → s.operations ≡ []
      → AreSent (WasSponsored es) recover (run s es).sent × (length (run s es).operations ≤ 512)
  unfolding IsSafe AreGood AreSent length select
  run_sends_sponsored s es no_runs none_sent no_operations =
      let safe =
        run-IsSafe (WasSponsored es) s es (λ v was. was)
          (rw (no_runs, none_sent, no_operations)
            (λ id r e. absurd (ground arith), tt, ground arith)) in
      (safe.1, safe.2)
