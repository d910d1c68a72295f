-- ===== src/Relays/Votes/Confirms.antt =====
-- A vote that is in order comes to its confirmation.
use creator_first_platform.Base.{
  ℕ, ◌+◌, ◌/◌, ◌≡◌, refl, String, Bool, true, Option, none, some, [], ◌∷◌, arith, inl, inr,
  Bool-cases, ltb, ◌==◌,
}
use creator_first_platform.Base.Table.{select, insert}
use creator_first_platform.Base.Exec.{ok}
use creator_first_platform.Relays.Operations.{length, prior_run, operation_key}
use creator_first_platform.Relays.Governance.{
  BallotForm, Ballot, VoteStatus, VoteOutcome, VoteProgress, VoteRun, VoteRelayer, waits_status,
  waits_relay, available, read_ballot, join_or_start, relay, relay_ballot, relay_status, relay_end,
  has_run_id, new_run,
}
use creator_first_platform.Relays.Votes.{read_lem}
use creator_first_platform.Base.Table.{select-insert}
use creator_first_platform.Base.Table.Keyed.{select-update_each}
use creator_first_platform.Relays.Governance.{result_of, confirmed, set_progress}
use creator_first_platform.Relays.Votes.Histories.{
  relays, reads_status, ends_relay, step, run, waits_for_status, waits_for_relay,
}

progressed :
    (id : ℕ) (r : VoteRun) (p : VoteProgress) (s s' : VoteRelayer)
    → select (has_run_id id) s.runs ≡ some r
    → has_run_id id r ≡ true
    → s'.runs ≡ set_progress r.run_id p s.runs
    → select (has_run_id id) s'.runs ≡ some (record r { progress = p })
progressed id r p s s' found own runs =
    let same : r.run_id ≡ id = ground arith in
    let each =
      select-update_each (λ (r : VoteRun). r.run_id) (λ r. record r { progress = p }) (λ y. refl) id
        r.run_id s.runs in
    rw runs (ground arith)

module _ (recover : Ballot → Option ℕ) (operation_hash : Ballot → ℕ) where
  -- What a relay leaves that starts a run
  started :
      (v : Ballot) (key : String) (s : VoteRelayer)
      → recover v ≡ some v.member
      → (prior_run (operation_key v.member key) (operation_hash v) s.operations).0 ≡ ok none
      → let s' = (relay_ballot recover operation_hash v key s).1 in
        s'.runs ≡ insert (new_run (length s.runs) (operation_key v.member key) v) s.runs
  unfolding relay_ballot join_or_start
  started v key s signed new = ground arith

  status_lem :
      (s : VoteRelayer) (id : ℕ) (r : VoteRun) (before : VoteStatus)
      → select (has_run_id id) s.runs ≡ some r
      → r.progress ≡ waits_status
      → before.house ≡ r.value.house
      → before.nonce ≡ r.value.nonce
      → (step recover operation_hash s (reads_status id (some before))).runs
        ≡ set_progress r.run_id waits_relay s.runs
  unfolding step relay_status
  status_lem s id r before found waits house nonce =
      let same_house : (before.house == r.value.house) ≡ true = ground arith in
      let same_nonce : (before.nonce == r.value.nonce) ≡ true = ground arith in
      let waiting : waits_for_status r.progress ≡ true = ground arith in
      rw (found, waiting, same_house, same_nonce) refl

  end_lem :
      (s : VoteRelayer) (id : ℕ) (r : VoteRun) (result : VoteOutcome)
      → select (has_run_id id) s.runs ≡ some r
      → r.progress ≡ waits_relay
      → (step recover operation_hash s (ends_relay id (some result))).runs
        ≡ set_progress r.run_id (confirmed (result_of r.value result)) s.runs
  unfolding step relay_end
  end_lem s id r result found waits =
      let waiting : waits_for_relay r.progress ≡ true = ground arith in rw (found, waiting) refl

  available_parts :
      (now : ℕ) (ready : Option Bool) (later : ℕ) (s : VoteRelayer)
      → ((available now ready later s).1.runs ≡ s.runs)
        × ((available now ready later s).1.operations ≡ s.operations)
  unfolding available
  available_parts now ready later s =
      elim (Bool-cases (ltb now (s.availability.checked_at + 30000))) [
        | inl fresh ↦ rw fresh (refl, refl)
        | inr old ↦ rw old (refl, refl)
      ]

  relay_lem :
      (input : BallotForm) (now : ℕ) (ready : Option Bool) (later : ℕ) (s : VoteRelayer)
      (v : Ballot) (key : String)
      → (available now ready later s).0 ≡ ok true
      → (read_ballot input (later / 1000) (available now ready later s).1).0 ≡ ok (v, key)
      → recover v ≡ some v.member
      → (prior_run (operation_key v.member key) (operation_hash v) s.operations).0 ≡ ok none
      → (relay recover operation_hash input now ready later s).1.runs
        ≡ insert (new_run (length s.runs) (operation_key v.member key) v) s.runs
  unfolding relay
  relay_lem input now ready later s v key is_ready read signed new =
      let s1 = (available now ready later s).1 in
      let (runs, operations) = available_parts now ready later s in
      let (same, ranges) = read_lem recover input (later / 1000) s1 in
      let begun = started v key s1 signed (rw operations new) in ground arith

  -- Where the relayer is available, the body reads as a ballot that its member has signed, no
  -- operation has its key, and no run has the next number: a relay, followed by a status of the
  -- chain with the house and the nonce of the ballot and by a relay of the chain that succeeds,
  -- leaves the new run confirmed with the result of that relay.
  pub vote_confirms :
      (input : BallotForm) (now : ℕ) (ready : Option Bool) (later : ℕ) (s : VoteRelayer)
      (v : Ballot) (key : String) (before : VoteStatus) (result : VoteOutcome)
      → (available now ready later s).0 ≡ ok true
      → (read_ballot input (later / 1000) (available now ready later s).1).0 ≡ ok (v, key)
      → recover v ≡ some v.member
      → (prior_run (operation_key v.member key) (operation_hash v) s.operations).0 ≡ ok none
      → select (has_run_id (length s.runs)) s.runs ≡ none
      → before.house ≡ v.house
      → before.nonce ≡ v.nonce
      → let id = length s.runs in
        select
          (has_run_id id)
          (run recover operation_hash s (
            relays input now ready later
            ∷ reads_status id (some before)
            ∷ ends_relay id (some result)
            ∷ [])).runs
        ≡ some (record (new_run id (operation_key v.member key) v) {
          progress = confirmed (result_of v result);
        })
  unfolding run step
  vote_confirms input now ready later s v key before result is_ready read signed new fresh house
        nonce =
      let id = length s.runs in
      let r = new_run id (operation_key v.member key) v in
      let s1 = step recover operation_hash s (relays input now ready later) in
      let s2 = step recover operation_hash s1 (reads_status id (some before)) in
      let s3 = step recover operation_hash s2 (ends_relay id (some result)) in
      let runs1 : s1.runs ≡ insert r s.runs =
        relay_lem input now ready later s v key is_ready read signed new in
      let own : has_run_id id r ≡ true = ground arith in
      let found1 : select (has_run_id id) s1.runs ≡ some r =
        rw runs1 (select-insert (has_run_id id) r s.runs own fresh) in
      let r2 : VoteRun = record r { progress = waits_relay } in
      let found2 : select (has_run_id id) s2.runs ≡ some r2 =
        progressed id r waits_relay s1 s2 found1 own
          (status_lem s1 id r before found1 refl house nonce) in
      progressed id r2 (confirmed (result_of v result)) s2 s3 found2 own
        (end_lem s2 id r2 result found2 refl)
