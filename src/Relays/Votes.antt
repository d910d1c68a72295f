-- ===== src/Relays/Votes.antt =====
-- What the governance relayer hands to the chain, one part of a relay at a time.
pub mod Histories
pub mod Confirms
use creator_first_platform.Base.{
  ℕ, ◌+◌, ◌/◌, ◌≤◌, ◌≡◌, refl, String, Bool, true, false, Option, none, some, List, [], ◌∷◌, ◌⊎◌,
  arith, inl, inr, Option-cases, Bool-cases, not, subst, ◌==◌,
}
use creator_first_platform.Base.Integers.{ℤ, abs, pos, negsuc}
use creator_first_platform.Base.Table.{select, update, insert}
use creator_first_platform.Base.Exec.Codes.{
  ballot_nonce_mismatch, chain_failed, membership_mismatch, governance_relay_failed,
}
use creator_first_platform.Base.Exec.{ok, err, Failure, Result-cases}
use creator_first_platform.Relays.Operations.{
  OperationKey, Operation, length, is_hex_text, prior_run,
}
use creator_first_platform.Relays.Capacity.{length-keep_operation, length-delete_operation}
use creator_first_platform.Relays.Governance.{
  BallotForm, Ballot, VoteStatus, VoteOutcome, VoteProgress, VoteRun, VoteRelayer, waits_status,
  waits_relay, available, read_ballot, join_or_start, relay, relay_status, relay_end, has_run_id,
  new_run, fail_run, failed, confirmed, result_of, is_house, is_intensity,
}

module _ (recover : Ballot → Option ℕ) where
  -- A ballot that its member has signed, with its numbers in their ranges
  pub record IsVote (v : Ballot) : Type 0 where
    pub signed : recover v ≡ some v.member
    pub house_lem : (v.house ≡ 1) ⊎ (v.house ≡ 2)
    pub intensity_lem : abs v.intensity ≤ 9
    pub signature_lem : is_hex_text 130 v.signature ≡ true

  unfoldable pub AreVotes : List VoteRun → Type 0
  AreVotes [] = Unit {0}
  AreVotes (r ∷ rs) = IsVote r.value × AreVotes rs

  -- and the chain had its nonce and its house
  unfoldable pub AreSent : List (Ballot × VoteStatus) → Type 0
  AreSent [] = Unit {0}
  AreSent ((v, before) ∷ vs) =
      IsVote v × (before.house ≡ v.house) × (before.nonce ≡ v.nonce) × AreSent vs

  pub read_lem :
      (input : BallotForm) (now : ℕ) (s : VoteRelayer)
      → ((read_ballot input now s).1 ≡ s)
        × ((v : Ballot) (key : String)
            → (read_ballot input now s).0 ≡ ok (v, key)
            → (is_house v.house ≡ true)
              × (is_intensity v.intensity ≡ true)
              × (is_hex_text 130 v.signature ≡ true))
  unfolding read_ballot
  read_lem input now s = (ground arith, λ v key r. (ground arith, ground arith, ground arith))

  insert-AreVotes :
      (r : VoteRun) (rs : List VoteRun) → IsVote r.value → AreVotes rs → AreVotes (insert r rs)
  unfolding AreVotes
  insert-AreVotes r [] v h = (v, tt)
  insert-AreVotes r (x ∷ rs) v h = (h.0, insert-AreVotes r rs v h.1)

  update-AreVotes :
      (q : VoteRun → Bool) (p : VoteProgress) (rs : List VoteRun)
      → AreVotes rs
      → AreVotes (update q (λ r. record r { progress = p }) rs)
  unfolding AreVotes update
  update-AreVotes q p [] h = tt
  update-AreVotes q p (x ∷ rs) h = (ground (arith, h.0), update-AreVotes q p rs h.1)

  pub select-AreVotes :
      (q : VoteRun → Bool) (r : VoteRun) (rs : List VoteRun)
      → AreVotes rs
      → select q rs ≡ some r
      → IsVote r.value
  unfolding AreVotes select
  select-AreVotes q r [] h e = absurd (ground arith)
  select-AreVotes q r (x ∷ rs) h e =
      let rest : select q rs ≡ some r → IsVote r.value = select-AreVotes q r rs h.1 in
      elim (Bool-cases (q x)) [
        | inl hit ↦ let same : x ≡ r = ground arith in subst (λ y. IsVote y.value) same h.0
        | inr miss ↦ rest (ground arith)
      ]

  insert-AreSent :
      (v : Ballot) (before : VoteStatus) (vs : List (Ballot × VoteStatus))
      → IsVote v
      → before.house ≡ v.house
      → before.nonce ≡ v.nonce
      → AreSent vs
      → AreSent (insert (v, before) vs)
  unfolding AreSent
  insert-AreSent v before [] vote house nonce h = (vote, house, nonce, tt)
  insert-AreSent v before ((w, b) ∷ vs) vote house nonce h =
      (h.0, h.1, h.2, insert-AreSent v before vs vote house nonce h.3)

  unfoldable pub IsSafe : VoteRelayer → Type 0
  IsSafe s = AreVotes s.runs × AreSent s.sent × (length s.operations ≤ 512)

  pub start-IsSafe :
      (prior : Option ℕ) (key : OperationKey) (hash : ℕ) (v : Ballot) (s : VoteRelayer)
      → IsVote v
      → IsSafe s
      → IsSafe (join_or_start prior key hash v s).1
  unfolding IsSafe join_or_start
  start-IsSafe (some id) key hash v s vote h = h
  start-IsSafe none key hash v s vote h = (
    insert-AreVotes (new_run (length s.runs) key v) s.runs vote h.0,
    h.1,
    length-keep_operation (record { key = key; hash = hash; run_id = length s.runs }) s.operations
        h.2,
  )

  fail-IsSafe : (r : VoteRun) (f : Failure) (s : VoteRelayer) → IsSafe s → IsSafe (fail_run r f s)
  unfolding IsSafe
  fail-IsSafe r f s h = (
    update-AreVotes (has_run_id r.run_id) (failed f) s.runs h.0,
    h.1,
    ground (arith, length-delete_operation r.key s.operations, h.2),
  )

  pub status-IsSafe :
      (r : VoteRun) (outcome : Option VoteStatus) (s : VoteRelayer)
      → IsVote r.value
      → IsSafe s
      → IsSafe (relay_status r outcome s)
  unfolding relay_status IsSafe
  status-IsSafe r none s vote h = fail-IsSafe r (record { status = 500; code = chain_failed }) s h
  status-IsSafe r (some before) s vote h = elim (Bool-cases (before.house == r.value.house)) [
    | inr other ↦ rw other (fail-IsSafe r (record { status = 403; code = membership_mismatch }) s h)
    | inl house ↦ elim (Bool-cases (before.nonce == r.value.nonce)) [
      | inr other ↦
          rw (house, other)
            (fail-IsSafe r (record { status = 409; code = ballot_nonce_mismatch }) s h)
      | inl nonce ↦
          rw (house, nonce)
            (
              update-AreVotes (has_run_id r.run_id) waits_relay s.runs h.0,
              insert-AreSent r.value before s.sent vote (ground arith) (ground arith) h.1,
              h.2,
            )
    ]
  ]

  pub end-IsSafe :
      (r : VoteRun) (outcome : Option VoteOutcome) (s : VoteRelayer)
      → IsSafe s
      → IsSafe (relay_end r outcome s)
  unfolding relay_end IsSafe
  end-IsSafe r none s h =
      fail-IsSafe r (record { status = 502; code = governance_relay_failed }) s h
  end-IsSafe r (some result) s h = (
    update-AreVotes (has_run_id r.run_id) (confirmed (result_of r.value result)) s.runs h.0,
    h.1,
    h.2,
  )
