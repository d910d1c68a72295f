-- ===== src/Relays/Votes/Histories.antt =====
-- Histories of the governance relayer: relays, and the awaits of their runs, in any order.
use creator_first_platform.Base.{
  ℕ, ◌+◌, ◌/◌, ◌≤◌, ◌≡◌, String, Bool, true, false, Option, none, some, List, [], ◌∷◌, arith, inl,
  inr, Option-cases, Bool-cases, if◌then◌else◌, ltb, ◌==◌,
}
use creator_first_platform.Base.Integers.{ℤ, abs, pos, negsuc}
use creator_first_platform.Base.Table.{select}
use creator_first_platform.Base.Exec.{bind_keeps, Result-cases}
use creator_first_platform.Relays.Operations.{length, is_hex_text, prior_run, operation_key}
use creator_first_platform.Relays.Capacity.{prior_run_state}
use creator_first_platform.Relays.Governance.{
  BallotForm, Ballot, VoteStatus, VoteOutcome, VoteProgress, VoteRun, VoteRelayer, waits_status,
  waits_relay, available, read_ballot, relay, relay_ballot, relay_status, relay_end, has_run_id,
  is_house, is_intensity,
}
use creator_first_platform.Relays.Votes.{
  IsVote, AreVotes, AreSent, IsSafe, read_lem, select-AreVotes, start-IsSafe, status-IsSafe,
  end-IsSafe,
}

abbrev pub waits_for_status : VoteProgress → Bool
waits_for_status waits_status = true
waits_for_status _ = false

abbrev pub waits_for_relay : VoteProgress → Bool
waits_for_relay waits_relay = true
waits_for_relay _ = false

-- A relay, or the outcome of the call of the chain that the run of a number awaits
pub data Step : Type 0 where
  relays : BallotForm → ℕ → Option Bool → ℕ → Step
  reads_status : ℕ → Option VoteStatus → Step
  ends_relay : ℕ → Option VoteOutcome → Step

abbrev pub go_on :
    (VoteProgress → Bool) → Option VoteRun → (VoteRun → VoteRelayer) → VoteRelayer → VoteRelayer
go_on p none f s = s
go_on p (some r) f s = if p r.progress then f r else s

in_range : (i : ℤ) → is_intensity i ≡ true → abs i ≤ 9
in_range (pos n) h = ground arith
in_range (negsuc n) h = ground arith

module _ (recover : Ballot → Option ℕ) (operation_hash : Ballot → ℕ) where
  unfoldable pub step : VoteRelayer → Step → VoteRelayer
  step s (relays input now ready later) = (relay recover operation_hash input now ready later s).1
  step s (reads_status id outcome) =
      go_on waits_for_status (select (has_run_id id) s.runs) (λ r. relay_status r outcome s) s
  step s (ends_relay id outcome) =
      go_on waits_for_relay (select (has_run_id id) s.runs) (λ r. relay_end r outcome s) s

  unfoldable pub run : VoteRelayer → List Step → VoteRelayer
  run s [] = s
  run s (e ∷ es) = run (step s e) es

  available-IsSafe :
      (now : ℕ) (ready : Option Bool) (later : ℕ) (s : VoteRelayer)
      → IsSafe recover s
      → IsSafe recover (available now ready later s).1
  unfolding available IsSafe
  available-IsSafe now ready later s h =
      elim (Bool-cases (ltb now (s.availability.checked_at + 30000))) [
        | inl fresh ↦ rw fresh h
        | inr old ↦ rw old h
      ]

  is_vote :
      (v : Ballot)
      → recover v ≡ some v.member
      → is_house v.house ≡ true
      → is_intensity v.intensity ≡ true
      → is_hex_text 130 v.signature ≡ true
      → IsVote recover v
  is_vote v signed house intensity signature = record {
    signed = signed;
    house_lem = elim (Bool-cases (v.house == 1)) [
      | inl one ↦ inl (ground arith)
      | inr other ↦ inr (ground arith)
    ];
    intensity_lem = in_range v.intensity intensity;
    signature_lem = signature;
  }

  ballot-IsSafe :
      (v : Ballot) (key : String) (s : VoteRelayer)
      → is_house v.house ≡ true
      → is_intensity v.intensity ≡ true
      → is_hex_text 130 v.signature ≡ true
      → IsSafe recover s
      → IsSafe recover (relay_ballot recover operation_hash v key s).1
  unfolding relay_ballot
  ballot-IsSafe v key s house intensity signature h =
      let k = operation_key v.member key in
      let same = prior_run_state k (operation_hash v) s.operations in
      elim (Option-cases (recover v)) [
        | inl invalid ↦ ground arith
        | inr (signer, recovered) ↦ elim (Bool-cases (signer == v.member)) [
          | inr other ↦ ground arith
          | inl own ↦
              let signed : recover v ≡ some v.member = ground arith in
              let vote = is_vote v signed house intensity signature in
              elim (Result-cases (prior_run k (operation_hash v) s.operations).0) [
                | inr (f, r) ↦ ground arith
                | inl (prior, r) ↦
                    let kept = start-IsSafe recover prior k (operation_hash v) v s vote h in
                    ground arith
              ]
        ]
      ]

  relay-IsSafe :
      (input : BallotForm) (now : ℕ) (ready : Option Bool) (later : ℕ) (s : VoteRelayer)
      → IsSafe recover s
      → IsSafe recover (relay recover operation_hash input now ready later s).1
  unfolding relay
  relay-IsSafe input now ready later s h =
      let s1 = (available now ready later s).1 in
      let h1 = available-IsSafe now ready later s h in
      let (same, read) = read_lem recover input (later / 1000) s1 in
      bind_keeps (IsSafe recover) (available now ready later) _ s h1 λ ok_ready r.
        elim (Bool-cases ok_ready) [
          | inr refused ↦ ground arith
          | inl accepted ↦ elim (Result-cases (read_ballot input (later / 1000) s1).0) [
            | inr (f, e) ↦ ground arith
            | inl ((v, key), e) ↦
                let (house, intensity, signature) = read v key e in
                let kept = ballot-IsSafe v key s1 house intensity signature h1 in ground arith
          ]
        ]

  IsVote-run :
      (id : ℕ) (r : VoteRun) (s : VoteRelayer)
      → IsSafe recover s
      → select (has_run_id id) s.runs ≡ some r
      → IsVote recover r.value
  unfolding IsSafe
  IsVote-run id r s h found = select-AreVotes recover (has_run_id id) r s.runs h.0 found

  on_run :
      (p : VoteProgress → Bool) (id : ℕ) (s : VoteRelayer) (f : VoteRun → VoteRelayer)
      → IsSafe recover s
      → ((r : VoteRun) → IsVote recover r.value → IsSafe recover (f r))
      → IsSafe recover (go_on p (select (has_run_id id) s.runs) f s)
  on_run p id s f h keep = elim (Option-cases (select (has_run_id id) s.runs)) [
    | inl missing ↦ rw missing h
    | inr (r, found) ↦
        let vote = IsVote-run id r s h found in
        elim (Bool-cases (p r.progress)) [
          | inl waits ↦ let kept = keep r vote in rw (found, waits) kept
          | inr other ↦ rw (found, other) h
        ]
  ]

  run-IsSafe : (s : VoteRelayer) (es : List Step) → IsSafe recover s → IsSafe recover (run s es)
  unfolding run step
  run-IsSafe s [] h = h
  run-IsSafe s (relays input now ready later ∷ es) h =
      run-IsSafe (step s (relays input now ready later)) es (relay-IsSafe input now ready later s h)
  run-IsSafe s (reads_status id outcome ∷ es) h = run-IsSafe (step s (reads_status id outcome)) es (
      on_run waits_for_status id s (λ r. relay_status r outcome s) h
        (λ r vote. status-IsSafe recover r outcome s vote h))
  run-IsSafe s (ends_relay id outcome ∷ es) h = run-IsSafe (step s (ends_relay id outcome)) es (
      on_run waits_for_relay id s (λ r. relay_end r outcome s) h
        (λ r vote. end-IsSafe recover r outcome s h))

  -- From a governance relayer without runs and operations, after any history of relays and of the
  -- awaits of their runs, in any order, every ballot that was handed to the chain is signed by its
  -- member, has house 1 or 2, an intensity from -9 to 9 and 130 hexadecimal digits as its
  -- signature, and the status of the chain, read before, had its house and its nonce; the map of
  -- operations has at most 512.
  pub run_sends_votes :
      (s : VoteRelayer) (es : List Step)
      → s.runs ≡ []
      → s.sent ≡ []
      → s.operations ≡ []
      → AreSent recover (run s es).sent × (length (run s es).operations ≤ 512)
  unfolding IsSafe AreVotes AreSent length
  run_sends_votes s es no_runs none_sent no_operations =
      let safe = run-IsSafe s es (rw (no_runs, none_sent, no_operations) (tt, tt, ground arith)) in
      (safe.1, safe.2)
